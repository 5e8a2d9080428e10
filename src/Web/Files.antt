-- ===== src/Web/Files.antt =====
-- serve.go: the pages that are files, and whether a client takes them compressed.
pub mod Accepted
use gobuild.Common.{
  ℕ, Bool, true, false, ltb, if◌then◌else◌, Option, none, some, List, [], ◌∷◌, Bytes, codes,
  eq_bytes, length,
}
use gobuild.Strings.{split, trim_space}

abbrev pub coding_name : List Bytes → Bytes
coding_name [] = []
coding_name (t ∷ ts) = t

-- t[1]; `none` is the panic for an index that is out of range.
abbrev pub second_part : List Bytes → Option Bytes
second_part (t ∷ u ∷ ts) = some u
second_part ts = none

abbrev pub is_gzip : List Bytes → Bool
is_gzip tt' = eq_bytes (coding_name tt') (codes "gzip")

abbrev pub skip_zero : Option Bytes → List Bytes → Option Bool → Option Bool
skip_zero none parts rest = none
skip_zero (some q) parts rest =
    if eq_bytes q (codes "q=0") then rest else if is_gzip parts then some true else rest

-- The loop over the elements `t` of the header
unfoldable pub accepts_loop : List Bytes → List Bytes → Option Bool
unfolding eq_bytes
accepts_loop t [] = some false
accepts_loop t (e ∷ es) =
    let rest = accepts_loop t es in
    let parts = split b';' (trim_space e) in
    if ltb 1 (length parts)
    then skip_zero (second_part t) parts rest
    else if is_gzip parts
    then some true
    else rest

-- acceptsGzip, from the header Accept-Encoding; `none` is a panic.
unfoldable pub accepts_gzip : Bytes → Option Bool
accepts_gzip s = let t = split b',' s in accepts_loop t t

-- What is served: the file as it is, with the header for gzip, or its contents. The panic of
-- acceptsGzip ends the request.
pub data FileReply : Type 0 where
  not_opened not_decompressed panicked : FileReply
  gzip_encoded plain : Bytes → FileReply

abbrev pub or_not_decompressed : Option Bytes → FileReply
or_not_decompressed none = not_decompressed
or_not_decompressed (some buf) = plain buf

module _ (gunzip : Bytes → Option Bytes) where
  -- serveGzipFile
  unfoldable pub serve_gzip_file : Option Bool → Bytes → FileReply
  serve_gzip_file none src = panicked
  serve_gzip_file (some true) src = gzip_encoded src
  serve_gzip_file (some false) src = or_not_decompressed (gunzip src)

  -- serveLog, from the file log.gz if it can be opened
  unfoldable pub serve_log : Bytes → Option Bytes → FileReply
  serve_log header none = not_opened
  serve_log header (some src) = serve_gzip_file (accepts_gzip header) src
