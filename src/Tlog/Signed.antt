-- ===== src/Tlog/Signed.antt =====
-- tlogserver.go: Signed and ReadTileData, which read the hashes file. The functions of tlog and note
-- that they call are parameters.
use gobuild.Common.{ℕ, ◌*◌, Option, List, [], ◌∷◌, Bytes, Result, ok, ◌>>=◌, or_fail}
use gobuild.Common.Int.{as_int64}
use gobuild.Tlog.{Store, hash_size, tree_size}
use gobuild.Tlog.Read.{ReadError, read_at}

pub data SignError : Type 0 where
  no_tree_size no_tree_hash not_signed : SignError

-- hashReader.ReadHashes, for indexes that are not negative
unfoldable pub read_hashes : Bytes → List ℕ → Result ReadError (List Bytes)
read_hashes file [] = ok []
read_hashes file (i ∷ is) = do
  x ← read_at file (as_int64 (i * hash_size)) hash_size
  xs ← read_hashes file is
  ok (x ∷ xs)

-- tlog.TreeHash and tlog.ReadTileData of a tile, over the reader of hashes, tlog.FormatTree, and
-- note.Sign with the server's signer.
pub record Signing (Tile : Type 0) : Type 0 where
  pub tree_hash : ℕ → (List ℕ → Result ReadError (List Bytes)) → Option Bytes
  pub read_tile : Tile → (List ℕ → Result ReadError (List Bytes)) → Option Bytes
  pub format_tree : ℕ → Bytes → Bytes
  pub sign : Bytes → Option Bytes

module _ {Tile : Type 0} (g : Signing Tile) (s : Store) where
  -- serverOps.Signed
  unfoldable pub signed : Result SignError Bytes
  signed = do
    n ← or_fail (tree_size s.records) no_tree_size
    h ← or_fail (g.tree_hash n (read_hashes s.hashes)) no_tree_hash
    or_fail (g.sign (g.format_tree n h)) not_signed

  -- serverOps.ReadTileData
  unfoldable pub read_tile_data : Tile → Option Bytes
  read_tile_data t = g.read_tile t (read_hashes s.hashes)
