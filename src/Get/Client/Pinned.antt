-- ===== src/Get/Client/Pinned.antt =====
-- tlogclient.go: the verifier key of the first client stays.
use gobuild.Strings.{has_suffix}
use gobuild.Common.{
  if◌then◌else◌, ◌≡◌, refl, sym, ap, ◌∙◌, Bool, true, false, Option, none, some, Bytes, codes,
  eq_bytes, eq_bytes_iff, eq_bytes_self, arith, Result, ok, err, inl, inr, Bool-cases,
}
use gobuild.Build.Command.{PathRules}
use gobuild.Get.Client.{
  local_dir_of, has_suffix, not_written, ClientOps, Configs, ClientError, different_key,
  does_not_exist, not_read, read_config, write_config, write_file, new_client, log_url,
}

-- The file of the key can be read and has this key.
record HasKey (c : Configs) (vkey : Bytes) : Type 0 where
  readable : c.read_fails (codes "key") ≡ false
  stored : c.files (codes "key") ≡ some vkey

read_config-key :
    (c : Configs) (vkey : Bytes) → HasKey c vkey → read_config c (codes "key") ≡ ok vkey
read_config-key c vkey k = unfold read_config in rw (k.readable, k.stored, read_config) refl

missing :
    (c : Configs)
    → c.read_fails (codes "key") ≡ false
    → c.files (codes "key") ≡ none
    → read_config c (codes "key") ≡ err does_not_exist
missing c r f = unfold read_config has_suffix eq_bytes in rw (r, f, read_config) refl

-- A client that is made leaves its key in the file.
new_client-HasKey :
    (rules : PathRules) (c : Configs) (vkey name dir url : Bytes) (ops : ClientOps)
    → (new_client rules c vkey (some name) (some dir) url).1 ≡ ok ops
    → HasKey (new_client rules c vkey (some name) (some dir) url).0 vkey
new_client-HasKey rules c vkey name dir url ops e =
    go (c.read_fails (codes "key")) refl (c.files (codes "key")) refl
  where
    made : Configs × Result ClientError ClientOps
    made = new_client rules c vkey (some name) (some dir) url

    -- A client that is not made
    refused : (c' : Configs) (x : ClientError) → made ≡ (c', err x) → HasKey made.0 vkey
    refused c' x k =
        absurd
          (ground (arith, sym (ap (λ (m : Configs × Result ClientError ClientOps). m.1) k) ∙ e))

    found :
        (old : Bytes)
        → c.read_fails (codes "key") ≡ false
        → c.files (codes "key") ≡ some old
        → HasKey made.0 vkey
    found old r f = elim (Bool-cases (eq_bytes vkey old)) [
      | inl same ↦
          unfold new_client in
          rw (read_config-key c old (record { readable = r; stored = f }), same)
            (record { readable = r; stored = f ∙ ap some (sym ((eq_bytes_iff vkey old).0 same)) })
      | inr other ↦ refused c (different_key old) (
          unfold new_client in
          rw (read_config-key c old (record { readable = r; stored = f }), other) refl)
    ]

    written : c.read_fails (codes "key") ≡ false → c.files (codes "key") ≡ none → HasKey made.0 vkey
    written r f = elim (Bool-cases (c.write_fails (codes "key"))) [
      | inl broken ↦
          refused c not_written
            (unfold new_client write_config write_file in rw (missing c r f, broken) refl)
      | inr fine ↦
          unfold new_client write_config write_file in
          rw (missing c r f, fine)
            (record { readable = r; stored = rw (eq_bytes_self (codes "key")) refl })
    ]

    go :
        (t : Bool)
        → c.read_fails (codes "key") ≡ t
        → (o : Option Bytes) → c.files (codes "key") ≡ o
        → HasKey made.0 vkey
    go true r o f = refused c not_read (unfold new_client read_config in rw (r, read_config) refl)
    go false r (some old) f = found old r f
    go false r none f = written r f

-- After a client was made with a verifier key, a client for the same files is made with that key, and
-- one with another key is refused, whatever its URL is.
pub new_client-keeps_key :
    (rules : PathRules) (c : Configs) (vkey name dir url vkey' url' : Bytes) (ops : ClientOps)
    → (new_client rules c vkey (some name) (some dir) url).1 ≡ ok ops
    → (new_client rules
        (new_client rules c vkey (some name) (some dir) url).0
        vkey'
        (some name)
        (some dir)
        url').1
      ≡ (if eq_bytes vkey' vkey
          then ok (record { local_dir = local_dir_of rules dir name; base_url = log_url name url' })
          else err (different_key vkey))
new_client-keeps_key rules c vkey name dir url vkey' url' ops e =
    again (new_client-HasKey rules c vkey name dir url ops e)
  where
    again :
        {k : Configs}
        → HasKey k vkey
        → (new_client rules k vkey' (some name) (some dir) url').1 ≡ (
            if eq_bytes vkey' vkey
            then ok
                (record { local_dir = local_dir_of rules dir name; base_url = log_url name url' })
            else err (different_key vkey))
    again {k} v = elim (Bool-cases (eq_bytes vkey' vkey)) [
      | inl same ↦ unfold new_client in rw (read_config-key k vkey v, same) refl
      | inr other ↦ unfold new_client in rw (read_config-key k vkey v, other) refl
    ]
