-- ===== src/Tlog/Refines.antt =====
-- tlog.go, tlogserver.go: addSum adds to the log that the files represent, and ReadRecords and
-- lookupResult read that log.
use gobuild.Tlog.Lookup.{length-concat, length-disk_record}
use gobuild.Common.{
  ℕ, ◌+◌, ◌*◌, ◌≡◌, refl, sym, ap, ◌∙◌, List, [], ◌∷◌, ◌++◌, Bytes, All, All-append, length, Option,
  none, some, eq_bytes, eq_bytes_iff, false, arith, inl, inr, Bool-cases, append_assoc, append-nil,
  length-append,
}
use gobuild.Spec.{BuildSpec}
use gobuild.Record.{BuildResult}
use gobuild.Tlog.{concat, disk_record_size, is_present, Dir, Store, HashTree, disk_record}
use gobuild.Tlog.Added.{IsHashTree, IsAdded}
use gobuild.Tlog.Server.{number_file}
use gobuild.Tlog.Abstract.{text_of, file_of, Entry, find_from, entry_text, IsEntry, Represents}

file_of-append : (xs ys : List BuildResult) → file_of (xs ++ ys) ≡ file_of xs ++ file_of ys
unfolding file_of
file_of-append [] ys = refl
file_of-append (x ∷ xs) ys =
    ap (λ f. disk_record (text_of x) ++ f) (file_of-append xs ys)
    ∙ sym (append_assoc (disk_record (text_of x)) (file_of xs) (file_of ys))

or_else : Option Entry → Option Entry → Option Entry
or_else none f = f
or_else (some e) f = some e

find_from-append :
    (store_dir : BuildSpec → Bytes) (p : Bytes) (i : ℕ) (xs ys : List BuildResult)
    → find_from store_dir p i (xs ++ ys)
      ≡ or_else (find_from store_dir p i xs) (find_from store_dir p (i + length xs) ys)
unfolding find_from or_else
find_from-append d p i [] ys = ap (λ k. find_from d p k ys) (omega arith)
find_from-append d p i (x ∷ xs) ys = ground (arith, find_from-append d p (i + 1) xs ys)

pub length-file_of :
    (log : List BuildResult)
    → All IsEntry log
    → length (file_of log) ≡ length log * disk_record_size
unfolding file_of
length-file_of [] w = refl
length-file_of (x ∷ log) (e, w) = omega (
  arith,
  length-append (disk_record (text_of x)) (file_of log),
  length-disk_record (text_of x) e.small,
  length-file_of log w,
)

-- No directory, so no entry.
number_file-absent : (o : Option Dir) → is_present o ≡ false → number_file o ≡ none
number_file-absent none e = refl
number_file-absent (some d) e = cc

entry_text-none : (o : Option Entry) → entry_text o ≡ none → o ≡ none
entry_text-none none e = refl
entry_text-none (some x) e = cc

module _ (h : HashTree) (log : List BuildResult) (br : BuildResult) (n : ℕ) (s s' : Store)
    (v : Represents h log s) (a : IsAdded h br n s s') where
  pub number_eq : n ≡ length log
  number_eq = omega (arith, a.before, ap length v.records, length-file_of log v.whole)

  text_eq : text_of br ≡ a.msg
  text_eq = rw (a.packed) refl

  -- No result of the log has the directory of the new one.
  was_unknown : find_from h.store_dir (h.store_dir br.spec) 0 log ≡ none
  was_unknown = entry_text-none _ (
      sym (v.dirs (h.store_dir br.spec))
      ∙ number_file-absent (s.dirs (h.store_dir br.spec)) a.was_absent)

  dirs_added :
      (p : Bytes)
      → number_file (s'.dirs p) ≡ entry_text (find_from h.store_dir p 0 (log ++ br ∷ []))
  dirs_added p =
      rw (find_from-append h.store_dir p 0 log (br ∷ []), a.dirs)
        (elim (Bool-cases (eq_bytes p (h.store_dir br.spec))) [
          | inl here ↦
              unfold find_from or_else in
              ground (
                arith,
                number_eq,
                was_unknown,
                eq_bytes_iff p (h.store_dir br.spec),
                eq_bytes_iff (h.store_dir br.spec) p,
              )
          | inr elsewhere ↦
              unfold find_from or_else in
              ground (
                arith,
                v.dirs p,
                eq_bytes_iff p (h.store_dir br.spec),
                eq_bytes_iff (h.store_dir br.spec) p,
              )
        ])

  -- A result that addSum adds is the last of the log.
  pub IsAdded-Represents : IsHashTree h → Represents h (log ++ br ∷ []) s'
  IsAdded-Represents t = record {
    records =
        a.records
        ∙ rw (file_of-append log (br ∷ []), v.records, sym text_eq)
            (unfold file_of in ap (λ f. file_of log ++ f) (sym (append-nil _)));
    hashes = ground (
      arith,
      ap length a.hashes,
      length-append s.hashes (concat a.hs),
      length-concat a.hs (t.sized n a.msg s.hashes a.hs a.hashed),
      a.before_hashes,
      t.counted n a.msg s.hashes a.hs a.hashed,
      number_eq,
      length-append log (br ∷ []),
    );
    whole =
        All-append IsEntry log (br ∷ []) v.whole
          (record { packed = rw text_eq a.packed; small = rw text_eq a.small }, tt);
    dirs = dirs_added;
  }
