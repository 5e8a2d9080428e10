-- ===== src/History/Signed.antt =====
-- tlogserver.go, gobuild.go: the tree that is signed after a history.
use gobuild.Common.{
  ℕ, ◌+◌, ◌≡◌, refl, sym, ap, ◌∙◌, subst, Option, none, some, List, [], ◌∷◌, Bytes, length,
  length-append, ok, or_fail-eq-ok, arith,
}
use gobuild.Common.Int.{ℤ, pos}
use gobuild.Spec.{BuildSpec}
use gobuild.Record.{BuildResult}
use gobuild.Tlog.{Store, HashTree, Disk, tree_size}
use gobuild.Tlog.Added.{IsHashTree}
use gobuild.Tlog.Abstract.{Represents}
use gobuild.Tlog.Refines.{length-file_of}
use gobuild.Tlog.Lookup.Startup.{tree_size-whole}
use gobuild.Tlog.Signed.{Signing, not_signed, signed, read_hashes}
use gobuild.Build.Run.{Calls}
use gobuild.Build.Run.Store.{Server, built, build}
use gobuild.Build.Run.Store.Refused.{IsIntact}
use gobuild.History.{History, builds, logged}
use gobuild.History.Refines.{History-Represents, build-numbers}

tree_size-Represents :
    (h : HashTree) (log : List BuildResult) (s : Store)
    → Represents h log s
    → tree_size s.records ≡ some (length log)
tree_size-Represents h log s v =
    tree_size-whole s.records (length log) (ap length v.records ∙ length-file_of log v.whole)

-- The text that is signed is that of a tree of the size with a hash that was read from the file.
pub record SignsTree {Tile : Type 0} (g : Signing Tile) (s : Store) (size : ℕ) (note : Bytes)
    : Type 0 where
  pub root : Bytes
  pub hashed : g.tree_hash size (read_hashes s.hashes) ≡ some root
  pub sign : g.sign (g.format_tree size root) ≡ some note

module _ {Tile : Type 0} (g : Signing Tile) (h : HashTree) (t : IsHashTree h) where
  signed-SignsTree :
      (log : List BuildResult) (s : Store) (note : Bytes)
      → Represents h log s
      → signed g s ≡ ok note
      → SignsTree g s (length log) note
  signed-SignsTree log s note v e = go (g.tree_hash (length log) (read_hashes s.hashes)) refl
    where
      size : tree_size s.records ≡ some (length log)
      size = tree_size-Represents h log s v

      go :
          (o : Option Bytes)
          → g.tree_hash (length log) (read_hashes s.hashes) ≡ o
          → SignsTree g s (length log) note
      go none k = absurd (unfold signed in ground (arith, e, size, k))
      go (some root) k = record {
        root = root;
        hashed = k;
        sign =
            unfold signed in
            or_fail-eq-ok (g.sign (g.format_tree (length log) root)) not_signed
              (ground (arith, e, size, k));
      }

  -- When a build for which no sum is expected has returned a number, after a history in which no
  -- addSum fails after its first permanent write and with a hash tree that has its laws, the note that Signed then returns is for a tree with one record more
  -- than that number, so that the tree has the new record.
  pub signed-covers :
      {log : List BuildResult} {w : Server}
      → History h log w
      → (b : Calls) (d : Disk) (bs : BuildSpec) (n : ℕ) (br : BuildResult) (note : Bytes)
      → (build b h d bs [] w).1 ≡ built (pos n) br
      → signed g (build b h d bs [] w).0.store ≡ ok note
      → SignsTree g (build b h d bs [] w).0.store (n + 1) note
  signed-covers {log} {w} r b d bs n br note q e =
      subst (λ k. SignsTree g (build b h d bs [] w).0.store k note) size
        (signed-SignsTree (logged [] (build b h d bs [] w).1 log) (build b h d bs [] w).0.store note
          (History-Represents h t (builds r b d bs [] (subst IsIntact (sym q) tt))) e)
    where
      number : Path ℤ (pos n) (pos (length log))
      number = build-numbers h t r b d bs (pos n) br q

      size : length (logged [] (build b h d bs [] w).1 log) ≡ n + 1
      size =
          ap (λ o. length (logged [] o log)) q ∙ ground (arith, number, length-append log (br ∷ []))
