-- ===== src/Spec/Equality.antt =====
-- Go's `==` on build specifications, which are the keys of the coordinator's map.
use gobuild.Common.{
  Bool, true, false, ◌&&◌, ◌≡◌, ◌↔◌, refl, eq_bytes, eq_bytes_iff, eq_bytes_self, arith,
}
use gobuild.Spec.{BuildSpec}

abbrev eq_Bool : Bool → Bool → Bool
eq_Bool true b = b
eq_Bool false true = false
eq_Bool false false = true

unfoldable pub eq_spec : BuildSpec → BuildSpec → Bool
unfolding eq_bytes
eq_spec a b =
    eq_bytes a.mod_path b.mod_path
    && eq_bytes a.version b.version
    && eq_bytes a.dir b.dir
    && eq_bytes a.goos b.goos
    && eq_bytes a.goarch b.goarch
    && eq_bytes a.goversion b.goversion
    && eq_Bool a.stripped b.stripped

eq_Bool_self : (b : Bool) → eq_Bool b b ≡ true
eq_Bool_self true = refl
eq_Bool_self false = refl

pub eq_spec_self : (a : BuildSpec) → eq_spec a a ≡ true
eq_spec_self a =
    unfold eq_spec in
    rw
      (
        eq_bytes_self a.mod_path,
        eq_bytes_self a.version,
        eq_bytes_self a.dir,
        eq_bytes_self a.goos,
        eq_bytes_self a.goarch,
        eq_bytes_self a.goversion,
      )
      (eq_Bool_self a.stripped)

pub eq_spec_sound : (a b : BuildSpec) → eq_spec a b ≡ true → a ≡ b
eq_spec_sound a b h =
    unfold eq_spec in
    ground (
      arith,
      eq_bytes_iff a.mod_path b.mod_path,
      eq_bytes_iff a.version b.version,
      eq_bytes_iff a.dir b.dir,
      eq_bytes_iff a.goos b.goos,
      eq_bytes_iff a.goarch b.goarch,
      eq_bytes_iff a.goversion b.goversion,
    )

pub eq_spec_iff : (a b : BuildSpec) → (eq_spec a b ≡ true) ↔ (a ≡ b)
eq_spec_iff a b = (eq_spec_sound a b, λ e. rw e (eq_spec_self b))
