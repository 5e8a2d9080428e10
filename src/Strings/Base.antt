-- ===== src/Strings/Base.antt =====
-- path.Base of a canonical path is one element of it.
use gobuild.Common.{
  subst, ℕ, ◌≡◌, ◌≢◌, refl, sym, ◌∙◌, Bool, true, ◌==◌, List, [], ◌∷◌, ◌++◌, reverse, Bytes, codes,
  eq_bytes, All, Lacks, arith, ◌⊎◌, inl, inr, Bool-cases,
}
use mathlib.Core.List.{reverse-cons, reverse-reverse}
use gobuild.Strings.{
  split, last_part, drop_front, trim_right, or_else, base, clean, clean_parts, join, has_prefix,
}
use gobuild.Strings.Split.{split-ne-nil, last_part-Lacks}

-- Only the separator occurs.
abbrev pub IsFilled : ℕ → Bytes → Type 0
IsFilled b = All (λ c. c ≡ b)

-- Without its leading separators a text is empty, and was filled with them, or starts with another byte.
drop_front-cases :
    (b : ℕ) (s : Bytes)
    → IsFilled b s ⊎ ((c : ℕ) × (t : Bytes) × (drop_front b s ≡ c ∷ t) × (c ≢ b))
unfolding drop_front
drop_front-cases b [] = inl tt
drop_front-cases b (c ∷ s) = elim (Bool-cases (c == b)) [
  | inl hit ↦ elim (drop_front-cases b s) [
    | inl filled ↦ inl (ground arith, filled)
    | inr (d, t, e, h) ↦ inr (d, t, rw hit e, h)
  ]
  | inr other ↦ inr (c, s, rw other refl, ground arith)
]

last_part-ne-nil : (b c : ℕ) (s : Bytes) → c ≢ b → last_part (split b (s ++ c ∷ [])) ≢ []
unfolding split last_part
last_part-ne-nil b c [] h = ground arith
last_part-ne-nil b c (d ∷ s) h = go (split b (s ++ c ∷ [])) refl (last_part-ne-nil b c s h)
  where
    go :
        (r : List Bytes)
        → split b (s ++ c ∷ []) ≡ r
        → last_part (split b (s ++ c ∷ [])) ≢ []
        → last_part (split b (d ∷ (s ++ c ∷ []))) ≢ []
    go [] e n = absurd (split-ne-nil b (s ++ c ∷ []) e)
    go (p ∷ []) e n = ground arith
    go (p ∷ q ∷ r) e n = ground arith

IsFilled-append : (b : ℕ) (s t : Bytes) → IsFilled b s → IsFilled b t → IsFilled b (s ++ t)
IsFilled-append b [] t h k = k
IsFilled-append b (c ∷ s) t (e, h) k = (e, IsFilled-append b s t h k)

IsFilled-reverse : (b : ℕ) (s : Bytes) → IsFilled b s → IsFilled b (reverse s)
IsFilled-reverse b [] h = tt
IsFilled-reverse b (c ∷ s) (e, h) =
    rw (reverse-cons c s) (IsFilled-append b (reverse s) (c ∷ []) (IsFilled-reverse b s h) (e, tt))

clean_parts-filled : (r : Bool) (s : Bytes) → IsFilled b'/' s → clean_parts r (split b'/' s) [] ≡ []
unfolding clean_parts split eq_bytes
clean_parts-filled r [] h = refl
clean_parts-filled r (c ∷ s) (e, h) = ground (arith, clean_parts-filled r s h)

clean-filled : (c : ℕ) (s : Bytes) → IsFilled b'/' (c ∷ s) → clean (c ∷ s) ≡ codes "/"
unfolding clean has_prefix join or_else
clean-filled c s h = rw (h.0, clean_parts-filled true (b'/' ∷ s) (refl, h.1)) refl

or_else-Lacks : (b : ℕ) (s d : Bytes) → s ≢ [] → Lacks b s → Lacks b (or_else s d)
unfolding or_else
or_else-Lacks b [] d n h = absurd (n refl)
or_else-Lacks b (c ∷ s) d n h = h

trimmed-ne-nil :
    (s : Bytes) (d : ℕ) (t : Bytes)
    → drop_front b'/' (reverse s) ≡ d ∷ t
    → d ≢ b'/'
    → last_part (split b'/' (trim_right b'/' s)) ≢ []
unfolding trim_right
trimmed-ne-nil s d t k h = rw (k, reverse-cons d t) (last_part-ne-nil b'/' d (reverse t) h)

-- The last element of a canonical path other than the root has no slash.
pub base-Lacks : (s : Bytes) → s ≢ [] → clean s ≡ s → s ≢ codes "/" → Lacks b'/' (base s)
base-Lacks [] n e r = absurd (n refl)
base-Lacks (c ∷ s) n e r = elim (drop_front-cases b'/' (reverse (c ∷ s))) [
  | inl filled ↦ absurd (
      r (
        sym e
        ∙ clean-filled c s (
            subst (IsFilled b'/') (reverse-reverse (c ∷ s))
              (IsFilled-reverse b'/' (reverse (c ∷ s)) filled))))
  | inr (d, t, k, h) ↦
      unfold base in
      or_else-Lacks b'/' (last_part (split b'/' (trim_right b'/' (c ∷ s)))) (codes "/")
        (trimmed-ne-nil (c ∷ s) d t k h) (last_part-Lacks b'/' (trim_right b'/' (c ∷ s)))
]
