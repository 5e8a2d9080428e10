-- ===== src/Sdk/Targets/Use.antt =====
-- gosdk.go: how often each target is used, which orders the list of targets.
pub mod Order
use gobuild.Common.{
  ℕ, ◌+◌, ◌%◌, Bool, true, false, not, ◌||◌, if◌then◌else◌, ltb, leb, ◌==◌, Option, none, some,
  List, [], ◌∷◌, Bytes, eq_bytes,
}
use gobuild.Sdk.Targets.{Target, osarch, initial_list, is_listed}

-- xtargets; a target that is no key of `use` is `none`.
pub record Targets : Type 0 where
  pub use_counts : Bytes → Option ℕ
  pub total_use : ℕ
  pub list : List Target

-- `targets` after `init`
unfoldable pub initial_targets : Targets
initial_targets = record {
  use_counts = λ key. if is_listed key initial_list then some 0 else none;
  total_use = 0;
  list = initial_list;
}

abbrev pub or_zero : Option ℕ → ℕ
or_zero none = 0
or_zero (some n) = n

abbrev pub has_count : Option ℕ → Bool
has_count none = false
has_count (some n) = true

-- xtargets.valid
unfoldable pub is_valid : Targets → Bytes → Bool
is_valid t key = has_count (t.use_counts key)

-- t.use[target.osarch()]
unfoldable pub count_of : (Bytes → Option ℕ) → Target → ℕ
count_of counts t = or_zero (counts (osarch t))

-- A target goes behind those that are used as often.
unfoldable pub insert_by : (Bytes → Option ℕ) → Target → List Target → List Target
insert_by counts t [] = t ∷ []
insert_by counts t (u ∷ us) =
    let rest = insert_by counts t us in
    if ltb (count_of counts u) (count_of counts t) then t ∷ u ∷ us else u ∷ rest

unfoldable pub sort_onto : (Bytes → Option ℕ) → List Target → List Target → List Target
sort_onto counts sorted [] = sorted
sort_onto counts sorted (t ∷ ts) = sort_onto counts (insert_by counts t sorted) ts

-- xtargets.sort: sort.SliceStable with the more used first
unfoldable pub sort : Targets → Targets
sort t = record t { list = sort_onto t.use_counts [] t.list }

unfoldable pub count_up : Bytes → (Bytes → Option ℕ) → Bytes → Option ℕ
count_up key counts k = if eq_bytes k key then some (or_zero (counts k) + 1) else counts k

abbrev sort_if : Bool → Targets → Targets
sort_if true t = sort t
sort_if false t = t

-- xtargets.increase
unfoldable pub increase : Bytes → Targets → Targets
increase key t =
    let total = t.total_use + 1 in
    sort_if (leb total 32 || (total % 32) == 0)
      (record t { use_counts = count_up key t.use_counts; total_use = total })
