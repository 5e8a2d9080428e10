-- ===== src/History/Restart.antt =====
-- recentbuilds.go: the recent links after a restart.
use gobuild.Common.{All-drop}
use gobuild.Tlog.Refines.{length-file_of}
use gobuild.Tlog.Lookup.Startup.{tree_size-whole}
use gobuild.Record.RoundTrip.{parse_record-pack_record}
use gobuild.Common.{
  All-drop, leb, ◌==◌, ℕ, zero, suc, ◌+◌, ◌-◌, ◌*◌, ◌^◌, ◌<◌, ◌≤◌, ◌≡◌, ◌≢◌, refl, sym, ap, ◌∙◌,
  ltb, true, false, if◌then◌else◌, some, List, [], ◌∷◌, Bytes, All, length, ok, arith, map, take,
  drop, inl, inr, Bool-cases, length-drop, drop-drop,
}
use gobuild.Common.Int.{pos}
use gobuild.Record.{BuildResult}
use gobuild.Tlog.{Store, HashTree, disk_record_size, tree_size}
use gobuild.Sdk.Targets.Use.{Targets, sort}
use gobuild.Build.Recent.{result_link, use_records, read_last, read_recent_builds}
use gobuild.Build.Recent.Resumed.{pushed, AreRecords, last_ten, pushed_lem, read_loop-pushed}
use gobuild.Tlog.Read.{read_records}
use gobuild.Tlog.Abstract.{IsEntry, Represents, texts, text_of, read_log}
use gobuild.Tlog.Reads.{read_records-Represents}
use gobuild.Tlog.Finds.{HasFit}
use gobuild.Tlog.Added.{IsHashTree}
use gobuild.Build.Run.Store.{Server}
use gobuild.History.{History}
use gobuild.History.Refines.{History-Represents}

-- The texts of a log parse to its results.
AreRecords-texts :
    (log : List BuildResult) → All IsEntry log → All HasFit log → AreRecords (texts log) log
unfolding texts
AreRecords-texts [] w f = tt
AreRecords-texts (br ∷ log) (e, w) (f, g) =
    (parse_record-pack_record br (text_of br) f e.packed, AreRecords-texts log w g)

map-drop {ℓ κ} :
    {A : Type ℓ} {B : Type κ} (f : A → B) (n : ℕ) (xs : List A)
    → map f (drop n xs) ≡ drop n (map f xs)
map-drop f zero xs = refl
map-drop f (suc n) [] = refl
map-drop f (suc n) (x ∷ xs) = map-drop f n xs

length-map {ℓ κ} :
    {A : Type ℓ} {B : Type κ} (f : A → B) (xs : List A) → length (map f xs) ≡ length xs
length-map f [] = refl
length-map f (x ∷ xs) = ap suc (length-map f xs)

take-length {ℓ} : {A : Type ℓ} (xs : List A) (n : ℕ) → n ≡ length xs → take n xs ≡ xs
take-length [] zero e = refl
take-length [] (suc n) e = refl
take-length (x ∷ xs) zero e = absurd (omega arith)
take-length (x ∷ xs) (suc n) e = ap (◌∷◌ x) (take-length xs n (omega arith))

last_ten-drop :
    (n : ℕ) (links : List Bytes) → n + 10 ≤ length links → last_ten (drop n links) ≡ last_ten links
last_ten-drop n links h =
    drop-drop (length (drop n links) - 10) n links ∙ ap (λ k. drop k links) count
  where
    count : n + (length (drop n links) - 10) ≡ length links - 10
    count = omega (arith, length-drop n links)

-- The last ten results give the links.
pushed-drop :
    (n : ℕ) (log : List BuildResult) → n + 10 ≤ length log → pushed [] (drop n log) ≡ pushed [] log
pushed-drop n log h =
    pushed_lem [] (drop n log)
    ∙ ap last_ten (map-drop result_link n log)
    ∙ last_ten-drop n (map result_link log) (omega (arith, length-map result_link log))
    ∙ sym (pushed_lem [] log)

use_records-texts :
    (t : Targets) (log : List BuildResult)
    → All IsEntry log
    → All HasFit log
    → (t' : Targets) × (use_records t (texts log) ≡ ok (t', pushed [] log))
use_records-texts t log w f =
    let (r, read, links) =
      read_loop-pushed (texts log) log t.use_counts (AreRecords-texts log w f) in
    (sort (record t { use_counts = r.use_counts }), unfold use_records in rw (read, links) refl)

module _ (h : HashTree) (log : List BuildResult) (s : Store) (v : Represents h log s)
    (f : All HasFit log) (small : length log * disk_record_size < 2 ^ 63) (t : Targets) where
  -- The last `k` records, where there are as many.
  read_last-texts :
      (j k : ℕ)
      → j + k ≡ length log
      → k ≢ 0
      → (t' : Targets) × (read_last s.records t [] j k ≡ ok (t', pushed [] (drop j log)))
  read_last-texts j k e some_read =
      let (t', read) =
        use_records-texts t (drop j log) (All-drop IsEntry j log v.whole)
          (All-drop HasFit j log f) in
      (t', rw (asked, records) read)
    where
      asked : (k == 0) ≡ false
      asked = ground (arith, some_read)

      records : read_records s.records (pos j) (pos k) ≡ ok (texts (drop j log))
      records = read_records-Represents h log s v j k (omega arith) ∙ counted k e some_read
        where
          counted :
              (k : ℕ) → j + k ≡ length log → k ≢ 0 → read_log log j k ≡ ok (texts (drop j log))
          counted zero e n = absurd (n refl)
          counted (suc k) e n =
              let inside : leb (j + suc k) (length log) ≡ true = ground arith in
              unfold read_log in
              rw (inside, take-length (drop j log) (suc k) (omega (arith, length-drop j log))) refl

  -- A start with these files gives the links that builds leave that run one after another.
  read_recent_builds-Represents :
      (t' : Targets) × (read_recent_builds s.records t [] ≡ ok (t', pushed [] log))
  read_recent_builds-Represents = go log refl
    where
      size : tree_size s.records ≡ some (length log)
      size =
          tree_size-whole s.records (length log) (ap length v.records ∙ length-file_of log v.whole)

      whole : read_recent_builds s.records t [] ≡ (
          if ltb 1000 (length log)
          then read_last s.records t [] (length log - 1000) 1000
          else read_last s.records t [] 0 (length log))
      whole = unfold read_recent_builds in rw size refl

      go :
          (l : List BuildResult)
          → log ≡ l
          → (t' : Targets) × (read_recent_builds s.records t [] ≡ ok (t', pushed [] log))
      go [] e = (t, whole ∙ (rw e refl))
      go (br ∷ l) e = elim (Bool-cases (ltb 1000 (length log))) [
        | inl long ↦
            let (t', read) =
              read_last-texts (length log - 1000) 1000 (ground (arith, long))
                (λ k. ground (arith, k)) in
            (
              t',
              whole
                  ∙ (rw long (
                      read
                      ∙ ap (λ ls. ok (t', ls))
                          (pushed-drop (length log - 1000) log (ground (arith, long))))),
            )
        | inr short ↦
            let (t', read) =
              read_last-texts 0 (length log) (ground arith)
                (λ k. ground (arith, k, ap (length {A = BuildResult}) e)) in
            (t', whole ∙ (rw short read))
      ]

-- A restart after a history, in which no addSum fails after its first permanent write, with a hash
-- tree that has its laws, gives as recent links those of the last ten results of the log, oldest
-- first, or of all where there are fewer: where the sizes of binaries and the offsets of records fit
-- an int64, and whatever the order was in which the builds had pushed them.
pub read_recent_builds-last_ten :
    (h : HashTree) (t : IsHashTree h) {log : List BuildResult} {w : Server}
    → History h log w
    → All HasFit log
    → length log * disk_record_size < 2 ^ 63
    → (before : Targets)
    → (after : Targets) × (read_recent_builds w.store.records before []
        ≡ ok (after, map result_link (drop (length log - 10) log)))
read_recent_builds-last_ten h t {log} {w} r g small before =
    let (after, read) =
      read_recent_builds-Represents h log w.store (History-Represents h t r) g small before in
    (after, read ∙ ap (λ ls. ok (after, ls)) links)
  where
    links : pushed [] log ≡ map result_link (drop (length log - 10) log)
    links =
        pushed_lem [] log
        ∙ ap (λ k. drop (k - 10) (map result_link log)) (length-map result_link log)
        ∙ sym (map-drop result_link (length log - 10) log)
