-- ===== src/Strings/Split.antt =====
-- Splitting and joining.
use gobuild.Common.{
  ◌==◌, Bool-cases, inl, inr, ℕ, zero, suc, ◌-◌, ◌≤◌, ◌≡◌, ◌≢◌, refl, sym, ap, ◌∙◌, true, Option,
  none, some, List, [], ◌∷◌, ◌++◌, length, take, drop, length-append, take-append, drop-append,
  Bytes, eq_bytes_iff, eq_bytes_self, All, Lacks, arith,
}
use gobuild.Strings.{chop, has_suffix, split, cut, join, last_part, init_parts}

-- Chopping what was appended.
pub chop-append : (s t : Bytes) (n : ℕ) → length t ≡ n → chop n (s ++ t) ≡ s
unfolding chop
chop-append s t n e = take-append s t _ (omega (arith, length-append s t))

pub has_suffix-append : (s t : Bytes) → has_suffix t (s ++ t) ≡ true
unfolding has_suffix
has_suffix-append s t =
    let e : length (s ++ t) - length t ≡ length s = omega (arith, length-append s t) in
    let d : drop (length (s ++ t) - length t) (s ++ t) ≡ t = drop-append s t _ e in
    rw d (ground (arith, eq_bytes_self t, length-append s t))

take_all-append-drop : (n : ℕ) (s : Bytes) → take n s ++ drop n s ≡ s
take_all-append-drop zero s = refl
take_all-append-drop (suc n) [] = refl
take_all-append-drop (suc n) (c ∷ s) = ap (◌∷◌ c) (take_all-append-drop n s)

-- A text with a suffix is the rest and that suffix.
pub has_suffix-chop : (t s : Bytes) → has_suffix t s ≡ true → s ≡ chop (length t) s ++ t
unfolding has_suffix chop
has_suffix-chop t s h =
    let d : drop (length s - length t) s ≡ t =
      ground (arith, eq_bytes_iff (drop (length s - length t) s) t) in
    sym (
      ap (◌++◌ (take (length s - length t) s)) (sym d)
      ∙ take_all-append-drop (length s - length t) s)

pub cut-append : (sep : ℕ) (a b : Bytes) → Lacks sep a → cut sep (a ++ sep ∷ b) ≡ some (a, b)
unfolding cut
cut-append sep [] b h = ground arith
cut-append sep (c ∷ a) b h = ground (arith, cut-append sep a b h.1)

-- What `cut` returns joins to the text, and the first part holds no separator.
pub cut_sound :
    (sep : ℕ) (s a b : Bytes) → cut sep s ≡ some (a, b) → (s ≡ a ++ sep ∷ b) × Lacks sep a
unfolding cut
cut_sound sep [] a b h = cc
cut_sound sep (c ∷ s) a b h = go (cut sep s) refl (cut_sound sep s)
  where
    go :
        (r : Option (Bytes × Bytes))
        → cut sep s ≡ r
        → ((a' b' : Bytes) → cut sep s ≡ some (a', b') → (s ≡ a' ++ sep ∷ b') × Lacks sep a')
        → (c ∷ s ≡ a ++ sep ∷ b) × Lacks sep a
    go none e ih = ground arith
    go (some (a', b')) e ih = ground (arith, ih a' b' e)

pub split-ne-nil : (sep : ℕ) (s : Bytes) → split sep s ≢ []
unfolding split
split-ne-nil sep [] = ground arith
split-ne-nil sep (c ∷ s) = ground arith

-- A text without the separator is one part.
pub split-Lacks : (sep : ℕ) (s : Bytes) → Lacks sep s → split sep s ≡ s ∷ []
unfolding split
split-Lacks sep [] h = refl
split-Lacks sep (c ∷ s) h = ground (arith, split-Lacks sep s h.1)

-- The first part, and the parts of the rest.
pub split-append :
    (sep : ℕ) (a s : Bytes) → Lacks sep a → split sep (a ++ sep ∷ s) ≡ a ∷ split sep s
unfolding split
split-append sep [] s h = ground arith
split-append sep (c ∷ a) s h = ground (arith, split-append sep a s h.1)

pub split-append_sep :
    (sep : ℕ) (s t : Bytes) → split sep (s ++ sep ∷ t) ≡ split sep s ++ split sep t
unfolding split
split-append_sep sep [] t = ground arith
split-append_sep sep (c ∷ s) t = go (split sep s) refl (split-append_sep sep s t)
  where
    go :
        (r : List Bytes)
        → split sep s ≡ r
        → split sep (s ++ sep ∷ t) ≡ split sep s ++ split sep t
        → split sep (c ∷ (s ++ sep ∷ t)) ≡ split sep (c ∷ s) ++ split sep t
    go [] e h = absurd (split-ne-nil sep s e)
    go (p ∷ r) e h = ground arith

pub last_part-append : (ps : List Bytes) (q : Bytes) → last_part (ps ++ q ∷ []) ≡ q
unfolding last_part
last_part-append [] q = refl
last_part-append (p ∷ []) q = refl
last_part-append (p ∷ p' ∷ ps) q = last_part-append (p' ∷ ps) q

pub init_parts-append : (ps : List Bytes) (q : Bytes) → init_parts (ps ++ q ∷ []) ≡ ps
unfolding init_parts
init_parts-append [] q = refl
init_parts-append (p ∷ []) q = refl
init_parts-append (p ∷ p' ∷ ps) q = ap (◌∷◌ p) (init_parts-append (p' ∷ ps) q)

-- The parts are those before the last one, and the last one.
pub init_parts-last_part : (ps : List Bytes) → ps ≢ [] → ps ≡ init_parts ps ++ last_part ps ∷ []
unfolding init_parts last_part
init_parts-last_part [] h = absurd (h refl)
init_parts-last_part (p ∷ []) h = refl
init_parts-last_part (p ∷ q ∷ ps) h = ap (◌∷◌ p) (init_parts-last_part (q ∷ ps) (cc))

-- The parts of a text that ends with a separator and a text without one.
pub split-append_last :
    (sep : ℕ) (s a : Bytes) → Lacks sep a → split sep (s ++ sep ∷ a) ≡ split sep s ++ a ∷ []
split-append_last sep s a h = rw (split-append_sep sep s a, split-Lacks sep a h)

-- The last part holds no separator, and is what the text ends with.
pub last_part-Lacks : (sep : ℕ) (s : Bytes) → Lacks sep (last_part (split sep s))
unfolding split last_part
last_part-Lacks sep [] = tt
last_part-Lacks sep (c ∷ s) = go (split sep s) refl (last_part-Lacks sep s)
  where
    go :
        (r : List Bytes)
        → split sep s ≡ r
        → Lacks sep (last_part (split sep s))
        → Lacks sep (last_part (split sep (c ∷ s)))
    go [] e h = absurd (split-ne-nil sep s e)
    go (p ∷ []) e h = ground arith
    go (p ∷ q ∷ r) e h = ground arith

pub length-last_part : (sep : ℕ) (s : Bytes) → length (last_part (split sep s)) ≤ length s
unfolding split last_part
length-last_part sep [] = ground arith
length-last_part sep (c ∷ s) = go (split sep s) refl (length-last_part sep s)
  where
    go :
        (r : List Bytes)
        → split sep s ≡ r
        → length (last_part (split sep s)) ≤ length s
        → length (last_part (split sep (c ∷ s))) ≤ length (c ∷ s)
    go [] e h = absurd (split-ne-nil sep s e)
    go (p ∷ []) e h = ground arith
    go (p ∷ q ∷ r) e h = ground arith

pub join-split : (sep : ℕ) (s : Bytes) → join sep (split sep s) ≡ s
unfolding split join
join-split sep [] = refl
join-split sep (c ∷ s) = go (split sep s) refl (join-split sep s)
  where
    go :
        (r : List Bytes)
        → split sep s ≡ r
        → join sep (split sep s) ≡ s
        → join sep (split sep (c ∷ s)) ≡ c ∷ s
    go [] e h = absurd (split-ne-nil sep s e)
    go (p ∷ []) e h = ground arith
    go (p ∷ q ∷ r) e h = ground arith

pub join-cons :
    (sep : ℕ) (p : Bytes) (ps : List Bytes) → ps ≢ [] → join sep (p ∷ ps) ≡ p ++ sep ∷ join sep ps
unfolding join
join-cons sep p [] h = absurd (h refl)
join-cons sep p (q ∷ ps) h = refl

-- Splitting a join gives the parts back, if there is a part and none holds the separator.
pub split-join :
    (sep : ℕ) (ps : List Bytes) → ps ≢ [] → All (Lacks sep) ps → split sep (join sep ps) ≡ ps
unfolding join
split-join sep [] h l = absurd (h refl)
split-join sep (p ∷ []) h l = split-Lacks sep p l.0
split-join sep (p ∷ q ∷ ps) h l =
    rw (split-append sep p _ l.0) (ap (◌∷◌ p) (split-join sep (q ∷ ps) (cc) l.1))

pub All-split : (sep : ℕ) (s : Bytes) → All (Lacks sep) (split sep s)
unfolding split
All-split sep [] = (tt, tt)
All-split sep (c ∷ s) = go (split sep s) refl (All-split sep s)
  where
    go :
        (r : List Bytes)
        → split sep s ≡ r
        → All (Lacks sep) (split sep s)
        → All (Lacks sep) (split sep (c ∷ s))
    go [] e h = absurd (split-ne-nil sep s e)
    go (p ∷ r) e h = ground arith

-- A text is what precedes its last part, and that part.
pub last_part_front :
    (sep : ℕ) (s : Bytes) → (front : Bytes) × (s ≡ front ++ last_part (split sep s))
last_part_front sep [] = ([], unfold split last_part in refl)
last_part_front sep (c ∷ s) = go (split sep s) refl (last_part_front sep s)
  where
    go :
        (r : List Bytes)
        → split sep s ≡ r
        → (front : Bytes) × (s ≡ front ++ last_part (split sep s))
        → (front : Bytes) × (c ∷ s ≡ front ++ last_part (split sep (c ∷ s)))
    go [] e h = absurd (split-ne-nil sep s e)
    go (p ∷ []) e (f, h) = elim (Bool-cases (c == sep)) [
      | inl hit ↦ (c ∷ f, unfold split last_part in ground arith)
      | inr miss ↦ ([], unfold split last_part join in ground (arith, join-split sep s))
    ]
    go (p ∷ q ∷ r) e (f, h) = (c ∷ f, unfold split last_part in ground arith)

pub chop-last_part :
    (sep : ℕ) (s : Bytes) → s ≡ chop (length (last_part (split sep s))) s ++ last_part (split sep s)
chop-last_part sep s =
    let (front, e) = last_part_front sep s in
    let whole : chop (length (last_part (split sep s))) s ≡ front =
      ap (chop (length (last_part (split sep s)))) e
      ∙ chop-append front (last_part (split sep s)) _ refl in
    rw whole e
