-- ===== src/Sdk/Targets/Use/Order.antt =====
-- The list stays a list of the same targets, the more used first.
use gobuild.Common.{
  ◌⊎◌, ℕ, ◌≤◌, ◌≡◌, refl, sym, ◌∙◌, ap, true, false, ◌<◌, ◌⊎◌, ltb, ◌==◌, if◌then◌else◌, List, [],
  ◌∷◌, ◌++◌, inl, inr, Bool-cases, All, arith, Bytes, Option, append_assoc, append-nil,
}
use gobuild.Sdk.Targets.{Target}
use gobuild.Sdk.Targets.Use.{Targets, count_of, insert_by, sort_onto, sort}

module _ (counts : Bytes → Option ℕ) where
  -- The targets that are used `k` times, in their order.
  abbrev pub used : ℕ → List Target → List Target
  used k [] = []
  used k (t ∷ ts) = if count_of counts t == k then t ∷ used k ts else used k ts

  abbrev pub IsSorted : List Target → Type 0
  IsSorted [] = Unit
  IsSorted (t ∷ ts) = All (λ u. count_of counts u ≤ count_of counts t) ts × IsSorted ts

  All-insert_by :
      (n : ℕ) (t : Target) (us : List Target)
      → count_of counts t ≤ n
      → All (λ u. count_of counts u ≤ n) us
      → All (λ u. count_of counts u ≤ n) (insert_by counts t us)
  unfolding insert_by
  All-insert_by n t [] h k = (h, tt)
  All-insert_by n t (u ∷ us) h k = ground (arith, All-insert_by n t us h k.1)

  weaken_bound :
      (m n : ℕ) (us : List Target)
      → m ≤ n
      → All (λ u. count_of counts u ≤ m) us
      → All (λ u. count_of counts u ≤ n) us
  weaken_bound m n [] h k = tt
  weaken_bound m n (u ∷ us) h (k, ks) = (omega arith, weaken_bound m n us h ks)

  insert_by-IsSorted :
      (t : Target) (us : List Target) → IsSorted us → IsSorted (insert_by counts t us)
  insert_by-IsSorted t [] h = unfold insert_by in (tt, tt)
  insert_by-IsSorted t (u ∷ us) (below, h) =
      go (insert_by-IsSorted t us h) (Bool-cases (ltb (count_of counts u) (count_of counts t)))
    where
      go :
          IsSorted (insert_by counts t us)
          → (ltb (count_of counts u) (count_of counts t) ≡ true)
            ⊎ (ltb (count_of counts u) (count_of counts t) ≡ false)
          → IsSorted (insert_by counts t (u ∷ us))
      go k (inl more) =
          unfold insert_by in
          rw more (
            (
              ground arith,
              weaken_bound (count_of counts u) (count_of counts t) us (ground arith) below,
            ),
            (below, h),
          )
      go k (inr rest) =
          unfold insert_by in
          rw rest (All-insert_by (count_of counts u) t us (ground arith) below, k)

  used-below :
      (k n : ℕ) (us : List Target) → n < k → All (λ u. count_of counts u ≤ n) us → used k us ≡ []
  used-below k n [] l h = refl
  used-below k n (u ∷ us) l (h, hs) = ground (arith, used-below k n us l hs)

  -- Behind the targets that are used as often.
  used-insert_by :
      (k : ℕ) (t : Target) (us : List Target)
      → IsSorted us
      → used k (insert_by counts t us) ≡ used k us ++ used k (t ∷ [])
  unfolding insert_by
  used-insert_by k t [] h = refl
  used-insert_by k t (u ∷ us) (below, h) =
      elim (Bool-cases (ltb (count_of counts u) (count_of counts t))) [
        | inl more ↦ rw more (first (Bool-cases (count_of counts t == k)) more)
        | inr rest ↦ rw rest (ground (arith, used-insert_by k t us h))
      ]
    where
      first :
          ((count_of counts t == k) ≡ true) ⊎ ((count_of counts t == k) ≡ false)
          → ltb (count_of counts u) (count_of counts t) ≡ true
          → used k (t ∷ u ∷ us) ≡ used k (u ∷ us) ++ used k (t ∷ [])
      first (inl hit) more =
          let none_above : used k (u ∷ us) ≡ [] =
            used-below k (count_of counts u) (u ∷ us) (ground arith) (ground arith, below) in
          rw (hit, none_above) refl
      first (inr other) more = rw (other, append-nil (used k (u ∷ us))) refl

  used-cons :
      (k : ℕ) (t : Target) (ts : List Target) → used k (t ∷ ts) ≡ used k (t ∷ []) ++ used k ts
  used-cons k t ts = ground arith

  sort_onto-IsSorted : (ss ts : List Target) → IsSorted ss → IsSorted (sort_onto counts ss ts)
  unfolding sort_onto
  sort_onto-IsSorted ss [] h = h
  sort_onto-IsSorted ss (t ∷ ts) h =
      sort_onto-IsSorted (insert_by counts t ss) ts (insert_by-IsSorted t ss h)

  used-sort_onto :
      (k : ℕ) (ss ts : List Target)
      → IsSorted ss
      → used k (sort_onto counts ss ts) ≡ used k ss ++ used k ts
  unfolding sort_onto
  used-sort_onto k ss [] h = sym (append-nil (used k ss))
  used-sort_onto k ss (t ∷ ts) h =
      used-sort_onto k (insert_by counts t ss) ts (insert_by-IsSorted t ss h)
      ∙ ap (λ (x : List Target). x ++ used k ts) (used-insert_by k t ss h)
      ∙ append_assoc (used k ss) (used k (t ∷ [])) (used k ts)
      ∙ ap (λ (x : List Target). used k ss ++ x) (sym (used-cons k t ts))

-- Sorting puts the more used targets first, and keeps the targets that are used as often in
-- their order: the list is a permutation of the one before.
pub sort_lem :
    (t : Targets)
    → IsSorted t.use_counts (sort t).list
      × ((k : ℕ) → used t.use_counts k (sort t).list ≡ used t.use_counts k t.list)
unfolding sort
sort_lem t =
    (sort_onto-IsSorted t.use_counts [] t.list tt, λ k. used-sort_onto t.use_counts k [] t.list tt)
