-- ===== src/Tlog/Finds.antt =====
-- tlogserver.go: lookupResult finds what the log holds.
use gobuild.Tlog.Reads.{read_records-Represents}
use gobuild.Common.{All-drop}
use gobuild.Tlog.Server.{number_file}
use gobuild.Common.{All-drop, All-take}
use gobuild.Record.RoundTrip.{parse_record-pack_record}
use gobuild.Strings.Decimal.{parse_int-format_int, Fits}
use gobuild.Common.{All-take, subst, ◌⊎◌}
use gobuild.Common.{
  ℕ, suc, ◌+◌, ◌*◌, ◌<◌, ◌^◌, ◌≡◌, refl, sym, ap, ◌∙◌, leb, List, [], ◌∷◌, Bytes, All, length, take,
  drop, Option, none, some, if◌then◌else◌, eq_bytes, ok, true, false, arith, inl, inr, Bool-cases,
}
use gobuild.Common.Int.{pos}
use gobuild.Strings.{format_int, parse_int, format_nat}
use gobuild.Spec.{BuildSpec}
use gobuild.Record.{parse_record, BuildResult}
use gobuild.Tlog.{Dir, Store, HashTree, disk_record_size}
use gobuild.Tlog.Read.{
  found_in, lookup_result, read_result, result, failed_build, absent, read_records, Found,
}
use gobuild.Tlog.Lookup.{lookup_result-some}
use gobuild.Tlog.Abstract.{
  text_of, texts, Entry, find_from, entry_text, IsEntry, Represents, read_log,
}

module _ (store_dir : BuildSpec → Bytes) (p : Bytes) where
  -- The entry that is found stands in the log at its number.
  find_from-at :
      (i : ℕ) (log : List BuildResult) (e : Entry)
      → find_from store_dir p i log ≡ some e
      → (j : ℕ) × (e.number ≡ i + j) × (j < length log) × (take 1 (drop j log) ≡ e.result ∷ [])
  find_from-at i [] e q = absurd (unfold find_from in ground arith)
  find_from-at i (x ∷ log) e q =
      go (Bool-cases (eq_bytes (store_dir x.spec) p)) (find_from-at (i + 1) log e)
    where
      At : ℕ → List BuildResult → Type 0
      At i log =
          (j : ℕ) × (e.number ≡ i + j) × (j < length log) × (take 1 (drop j log) ≡ e.result ∷ [])

      go :
          (eq_bytes (store_dir x.spec) p ≡ true) ⊎ (eq_bytes (store_dir x.spec) p ≡ false)
          → (find_from store_dir p (i + 1) log ≡ some e → At (i + 1) log)
          → At i (x ∷ log)
      go (inl hit) ih =
          let same : record { number = i; result = x } ≡ e = unfold find_from in ground arith in
          (
            0,
            omega (arith, ap (λ (y : Entry). y.number) same),
            omega arith,
            ap (λ (y : Entry). y.result ∷ []) same,
          )
      go (inr miss) ih =
          let (j, n, inside, there) = ih (unfold find_from in ground arith) in
          (suc j, omega arith, omega arith, there)

-- What lookupResult returns for a directory and the entry of the log with its name.
abbrev pub answer : Option Dir → Option Entry → Found
answer none o = absent
answer (some d) none = if d.has_log then failed_build else absent
answer (some d) (some e) = result (pos e.number) e.result d.has_binary

-- The size of the binary fits the int64 that a record has for it.
abbrev pub HasFit : BuildResult → Type 0
HasFit br = Fits 64 br.filesize

module _ (h : HashTree) (log : List BuildResult) (s : Store) (v : Represents h log s)
    (fits : All HasFit log) (small : length log * disk_record_size < 2 ^ 63) where
  read_result-found :
      (d : Dir) (p : Bytes) (e : Entry)
      → find_from h.store_dir p 0 log ≡ some e
      → read_result s.records d (format_nat e.number)
        ≡ ok (result (pos e.number) e.result d.has_binary)
  read_result-found d p e q = go (find_from-at h.store_dir p 0 log e q)
    where
      go :
          (j : ℕ) × (e.number ≡ 0 + j) × (j < length log) × (take 1 (drop j log) ≡ e.result ∷ [])
          → read_result s.records d (format_nat e.number)
            ≡ ok (result (pos e.number) e.result d.has_binary)
      go (j, n, inside, there) = unfold read_result in rw (number_read, one, parsed) refl
        where
          number_read : parse_int 64 (format_nat e.number) ≡ some (pos e.number)
          number_read = unfold format_int in parse_int-format_int 64 (pos e.number) (omega arith)

          entry : IsEntry e.result
          entry =
              (subst (All IsEntry) there
                (All-take IsEntry 1 (drop j log) (All-drop IsEntry j log v.whole))).0

          fit : Fits 64 e.result.filesize
          fit =
              (subst (All HasFit) there
                (All-take HasFit 1 (drop j log) (All-drop HasFit j log fits))).0

          same_number : e.number ≡ j
          same_number = omega arith

          within : leb (j + 1) (length log) ≡ true
          within = ground arith

          one : read_records s.records (pos e.number) (pos 1) ≡ ok (text_of e.result ∷ [])
          one =
              ap (λ k. read_records s.records (pos k) (pos 1)) same_number
              ∙ read_records-Represents h log s v j 1 (omega arith)
              ∙ (unfold read_log texts in rw (within, there) refl)

          parsed : parse_record (text_of e.result) ≡ ok e.result
          parsed = parse_record-pack_record e.result (text_of e.result) fit entry.packed

  -- Where sizes and offsets fit an int64, lookupResult finds for a specification the result of the
  -- log with its directory, under its number, with the binary if the directory has it, and no
  -- other result; without one it tells a build that failed from a build that never was.
  pub lookup_result-Represents :
      (bs : BuildSpec)
      → lookup_result h bs s
        ≡ ok (answer (s.dirs (h.store_dir bs)) (find_from h.store_dir (h.store_dir bs) 0 log))
  lookup_result-Represents bs =
      go (s.dirs (h.store_dir bs)) refl (find_from h.store_dir (h.store_dir bs) 0 log) refl
        (v.dirs (h.store_dir bs))
    where
      p : Bytes
      p = h.store_dir bs

      found :
          (d : Dir) (o : Option Entry)
          → find_from h.store_dir p 0 log ≡ o
          → d.record_number ≡ entry_text o
          → found_in s.records d d.record_number ≡ ok (answer (some d) o)
      found d none q r = ap (found_in s.records d) r
      found d (some e) q r = ap (found_in s.records d) r ∙ read_result-found d p e q

      go :
          (od : Option Dir)
          → s.dirs p ≡ od
          → (o : Option Entry) → find_from h.store_dir p 0 log ≡ o
          → number_file (s.dirs p) ≡ entry_text (find_from h.store_dir p 0 log)
          → lookup_result h bs s ≡ ok (answer (s.dirs p) (find_from h.store_dir p 0 log))
      go none e o q r = unfold lookup_result in rw (e, lookup_result) refl
      go (some d) e o q r =
          lookup_result-some h bs s d e
          ∙ found d o q (sym (ap number_file e) ∙ r ∙ ap entry_text q)
          ∙ rw (e, q) refl
