-- ===== src/Coordinate/Members.antt =====
-- Which specifications and output paths occur in a list of requests.
use gobuild.Common.{
  ◌≡◌, refl, ap, Bool, true, false, ◌||◌, inl, inr, List, [], ◌∷◌, ◌++◌, if◌then◌else◌, Bytes,
  eq_bytes, eq_bytes_iff, arith, Bool-cases,
}
use gobuild.Spec.{BuildSpec, output_path}
use gobuild.Spec.Equality.{eq_spec, eq_spec_iff, eq_spec_sound}
use gobuild.Coordinate.{BuildRequest}
use gobuild.Coordinate.Steps.{without_running}

abbrev pub path_of : BuildRequest → Bytes
path_of r = output_path r.bs

unfoldable pub has_spec : BuildSpec → List BuildRequest → Bool
has_spec s [] = false
has_spec s (r ∷ rs) = eq_spec r.bs s || has_spec s rs

unfoldable pub has_path : Bytes → List BuildRequest → Bool
has_path p [] = false
has_path p (r ∷ rs) = eq_bytes (path_of r) p || has_path p rs

-- No specification, or no output path, occurs twice.
abbrev pub DistinctSpecs : List BuildRequest → Type 0
DistinctSpecs [] = Unit
DistinctSpecs (r ∷ rs) = (has_spec r.bs rs ≡ false) × DistinctSpecs rs

abbrev pub DistinctPaths : List BuildRequest → Type 0
DistinctPaths [] = Unit
DistinctPaths (r ∷ rs) = (has_path (path_of r) rs ≡ false) × DistinctPaths rs

pub has_spec-append :
    (s : BuildSpec) (xs ys : List BuildRequest)
    → has_spec s (xs ++ ys) ≡ has_spec s xs || has_spec s ys
unfolding has_spec
has_spec-append s [] ys = refl
has_spec-append s (x ∷ xs) ys = ground (arith, has_spec-append s xs ys)

pub has_spec-middle :
    (s : BuildSpec) (xs ys : List BuildRequest) (r : BuildRequest)
    → has_spec s (xs ++ r ∷ ys) ≡ eq_spec r.bs s || has_spec s (xs ++ ys)
unfolding has_spec
has_spec-middle s [] ys r = refl
has_spec-middle s (x ∷ xs) ys r = ground (arith, has_spec-middle s xs ys r)

pub eq_spec_comm : (a b : BuildSpec) → eq_spec a b ≡ eq_spec b a
eq_spec_comm a b = ground (arith, eq_spec_iff a b, eq_spec_iff b a)

-- Taking one request out of a list.
pub DistinctSpecs-middle :
    (xs ys : List BuildRequest) (r : BuildRequest)
    → DistinctSpecs (xs ++ r ∷ ys)
    → DistinctSpecs (xs ++ ys) × (has_spec r.bs (xs ++ ys) ≡ false)
unfolding has_spec
DistinctSpecs-middle [] ys r d = (d.1, d.0)
DistinctSpecs-middle (x ∷ xs) ys r d =
    let (e, n) = DistinctSpecs-middle xs ys r d.1 in
    (
      (ground (arith, has_spec-middle x.bs xs ys r), e),
      ground (arith, has_spec-middle x.bs xs ys r, eq_spec_comm x.bs r.bs),
    )

pub DistinctSpecs-concat :
    (xs : List BuildRequest) (r : BuildRequest)
    → DistinctSpecs xs
    → has_spec r.bs xs ≡ false
    → DistinctSpecs (xs ++ r ∷ [])
unfolding has_spec
DistinctSpecs-concat [] r d n = (refl, tt)
DistinctSpecs-concat (x ∷ xs) r d n = (
  ground (arith, has_spec-append x.bs xs (r ∷ []), eq_spec_comm x.bs r.bs),
  DistinctSpecs-concat xs r d.1 (ground arith),
)

-- A request whose specification occurs has a path that occurs.
pub has_path-has_spec :
    (s : BuildSpec) (rs : List BuildRequest)
    → has_spec s rs ≡ true
    → has_path (output_path s) rs ≡ true
unfolding has_spec has_path
has_path-has_spec s [] h = cc
has_path-has_spec s (r ∷ rs) h = elim (Bool-cases (eq_spec r.bs s)) [
  | inl hit ↦
      ground
        (arith, ap output_path (eq_spec_sound r.bs s hit), eq_bytes_iff (path_of r) (output_path s))
  | inr miss ↦ ground (arith, has_path-has_spec s rs)
]

-- Where the paths are distinct, taking out the request with a specification takes out its path.
pub has_path-without :
    (s : BuildSpec) (p : Bytes) (rs : List BuildRequest)
    → DistinctPaths rs
    → has_spec s rs ≡ true
    → has_path p (without_running s rs)
      ≡ (if eq_bytes p (output_path s) then false else has_path p rs)
unfolding without_running has_spec has_path
has_path-without s p [] d h = cc
has_path-without s p (r ∷ rs) d h = elim (Bool-cases (eq_spec r.bs s)) [
  | inl hit ↦ ground (
    arith,
    ap output_path (eq_spec_sound r.bs s hit),
    eq_bytes_iff p (output_path s),
    eq_bytes_iff (path_of r) p,
  )
  | inr miss ↦ ground (
    arith,
    has_path-without s p rs d.1,
    has_path-has_spec s rs,
    eq_bytes_iff p (output_path s),
    eq_bytes_iff (path_of r) p,
  )
]

pub has_spec-without :
    (s q : BuildSpec) (rs : List BuildRequest)
    → has_spec q (without_running s rs) ≡ true
    → has_spec q rs ≡ true
unfolding without_running has_spec
has_spec-without s q [] h = h
has_spec-without s q (r ∷ rs) h = ground (arith, has_spec-without s q rs)

has_path_of-without :
    (s : BuildSpec) (p : Bytes) (rs : List BuildRequest)
    → has_path p (without_running s rs) ≡ true
    → has_path p rs ≡ true
unfolding without_running has_path
has_path_of-without s p [] h = h
has_path_of-without s p (r ∷ rs) h = ground (arith, has_path_of-without s p rs)

pub DistinctPaths-without :
    (s : BuildSpec) (rs : List BuildRequest)
    → DistinctPaths rs
    → DistinctPaths (without_running s rs)
unfolding without_running has_path
DistinctPaths-without s [] d = tt
DistinctPaths-without s (r ∷ rs) d =
    ground (arith, DistinctPaths-without s rs d.1, has_path_of-without s (path_of r) rs)
