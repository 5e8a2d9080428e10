-- ===== src/Web/Files/Accepted.antt =====
-- serve.go: what acceptsGzip answers.
use gobuild.Common.{All-append, reverse, ◌≢◌, ◌≤◌, ◌<◌, ◌==◌, if_intro}
use gobuild.Common.{
  if_intro, ℕ, Bool, true, false, ltb, ◌||◌, if◌then◌else◌, ◌≡◌, refl, none, some, List, [], ◌∷◌,
  Bytes, codes, eq_bytes, length, All, Lacks, arith,
}
use mathlib.Core.List.{reverse-cons}
use gobuild.Strings.{is_space, drop_space, has_byte, push_head, split, trim_space}
use gobuild.Strings.Split.{split-Lacks}
use gobuild.Web.Files.{accepts_loop, accepts_gzip}

-- One of the elements is the name.
unfoldable pub names_gzip : List Bytes → Bool
names_gzip [] = false
names_gzip (e ∷ es) = eq_bytes (trim_space e) (codes "gzip") || names_gzip es

All-push_head :
    (P : ℕ → Type 0) (c : ℕ) (ts : List Bytes) → P c → All (All P) ts → All (All P) (push_head c ts)
All-push_head P c [] p h = ((p, tt), tt)
All-push_head P c (t ∷ ts) p (h, hs) = ((p, h), hs)

All-split_parts : (P : ℕ → Type 0) (sep : ℕ) (s : Bytes) → All P s → All (All P) (split sep s)
unfolding split
All-split_parts P sep [] h = (tt, tt)
All-split_parts P sep (c ∷ s) (p, h) =
    if_intro (All (All P)) (c == sep) _ _ (λ e. (tt, All-split_parts P sep s h))
      (λ e. All-push_head P c (split sep s) p (All-split_parts P sep s h))

length-push_head : (c : ℕ) (ts : List Bytes) → length ts ≤ length (push_head c ts)
length-push_head c [] = omega arith
length-push_head c (t ∷ ts) = omega arith

length-split : (sep : ℕ) (s : Bytes) → 1 ≤ length (split sep s)
unfolding split
length-split sep [] = omega arith
length-split sep (c ∷ s) =
    if_intro (λ (ts : List Bytes). 1 ≤ length ts) (c == sep) _ _ (λ e. omega arith)
      (λ e. omega (arith, length-split sep s, length-push_head c (split sep s)))

split-two : (sep : ℕ) (s : Bytes) → has_byte sep s ≡ true → 1 < length (split sep s)
unfolding has_byte split
split-two sep [] h = cc
split-two sep (c ∷ s) h = go (split-two sep s)
  where
    go : (has_byte sep s ≡ true → 1 < length (split sep s)) → 1 < length (split sep (c ∷ s))
    go ih =
        unfold split in
        if_intro (λ (ts : List Bytes). 1 < length ts) (c == sep) _ _
          (λ e. omega (arith, length-split sep s))
          (λ e.
            let later : has_byte sep s ≡ true = ground (arith, h, e) in
            omega (arith, ih later, length-push_head c (split sep s)))

module _ (P : ℕ → Type 0) where
  All-reverse : (s : Bytes) → All P s → All P (reverse s)
  All-reverse [] h = tt
  All-reverse (c ∷ s) (p, h) =
      rw (reverse-cons c s) (All-append P (reverse s) (c ∷ []) (All-reverse s h) (p, tt))

  All-drop_space : (s : Bytes) → All P s → All P (drop_space s)
  unfolding drop_space
  All-drop_space [] h = tt
  All-drop_space (c ∷ s) (p, h) =
      if_intro (All P) (is_space c) _ _ (λ e. All-drop_space s h) (λ e. (p, h))

  All-trim_space : (s : Bytes) → All P s → All P (trim_space s)
  unfolding trim_space
  All-trim_space s h = All-reverse _ (All-drop_space _ (All-reverse _ (All-drop_space s h)))

accepts_loop-plain :
    (t es : List Bytes) → All (Lacks b';') es → accepts_loop t es ≡ some (names_gzip es)
unfolding accepts_loop names_gzip
accepts_loop-plain t [] h = refl
accepts_loop-plain t (e ∷ es) (n, h) =
    rw
      (
        split-Lacks b';' (trim_space e) (All-trim_space (λ c. c ≢ b';') e n),
        accepts_loop-plain t es h,
      )
      (step (eq_bytes (trim_space e) (codes "gzip")))
  where
    step : (b : Bool) → (if b then some true else some (names_gzip es)) ≡ some (b || names_gzip es)
    step true = refl
    step false = refl

-- Without parameters in the header, acceptsGzip tells whether one of its elements is gzip.
pub accepts_gzip-plain :
    (s : Bytes) → Lacks b';' s → accepts_gzip s ≡ some (names_gzip (split b',' s))
unfolding accepts_gzip
accepts_gzip-plain s h =
    accepts_loop-plain (split b',' s) (split b',' s) (All-split_parts (λ c. c ≢ b';') b',' s h)

-- A header of one element with a parameter makes acceptsGzip panic.
pub accepts_gzip_panics :
    (s : Bytes) → Lacks b',' s → has_byte b';' (trim_space s) ≡ true → accepts_gzip s ≡ none
unfolding accepts_gzip accepts_loop
accepts_gzip_panics s one h = rw (split-Lacks b',' s one, two) refl
  where
    two : ltb 1 (length (split b';' (trim_space s))) ≡ true
    two = ground (arith, split-two b';' (trim_space s) h)
