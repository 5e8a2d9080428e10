-- ===== src/History/Refines.antt =====
-- gobuild.go, cleanup.go, tlogserver.go: what is read from the files is what the builds of the
-- history have added, in their order.
use gobuild.Common.{
  ℕ, ◌*◌, ◌^◌, ◌<◌, ◌≡◌, ◌≢◌, refl, sym, ap, ◌∙◌, Option, none, some, List, [], ◌∷◌, Bytes, All,
  length, ok, arith, eq_bytes, eq_bytes_iff, inl, inr, Bool-cases,
}
use gobuild.Common.Int.{ℤ, pos}
use gobuild.Spec.{BuildSpec}
use gobuild.Record.{BuildResult}
use gobuild.Tlog.{Dir, Store, HashTree, Disk, disk_record_size}
use gobuild.Tlog.Added.{IsHashTree}
use gobuild.Tlog.Refused.{IsKept}
use gobuild.Tlog.Server.{number_file}
use gobuild.Tlog.Read.{read_records, lookup_result}
use gobuild.Tlog.Abstract.{Represents, find_from, file_of, read_log}
use gobuild.Tlog.Refines.{IsAdded-Represents, number_eq}
use gobuild.Tlog.Reads.{read_records-Represents}
use gobuild.Tlog.Finds.{HasFit, answer, lookup_result-Represents}
use gobuild.Build.Run.{Calls}
use gobuild.Build.Run.Store.{
  Server, Outcome, built, failed, crashed, build, put_tmp, build_files, count_target,
}
use gobuild.Build.Run.Store.Added.{build-IsNewBuild}
use gobuild.Build.Run.Store.Restored.{IsRestored, build-IsRestored}
use gobuild.Build.Run.Store.Refused.{IsIntact, build-IsKept}
use gobuild.Cleanup.{
  cleanup_binaries, FileAge, clean_dir, clean_found, since, not_walked, not_stat, no_access_time,
}
use gobuild.Cleanup.Restored.{cleaned}
use gobuild.History.{logged, IsFresh, History, started, builds, cleans, others}

module _ (h : HashTree) where
  -- The representation looks at the records, the hashes and the numbers of the directories.
  Represents-same :
      (log : List BuildResult) (s s' : Store)
      → s'.records ≡ s.records
      → s'.hashes ≡ s.hashes
      → ((p : Bytes) → number_file (s'.dirs p) ≡ number_file (s.dirs p))
      → Represents h log s
      → Represents h log s'
  Represents-same log s s' r k n v = record {
    records = r ∙ v.records;
    hashes = ap length k ∙ v.hashes;
    whole = v.whole;
    dirs = λ p. n p ∙ v.dirs p;
  }

  IsFresh-Represents : (s : Store) → IsHashTree h → IsFresh s → Represents h [] s
  IsFresh-Represents s t f = record {
    records = unfold file_of in f.no_records;
    hashes = omega (arith, ap length f.no_hashes, t.empty);
    whole = tt;
    dirs = λ p. unfold find_from in f.no_numbers p;
  }

  IsKept-Represents :
      (log : List BuildResult) (s s' : Store)
      → IsKept s s'
      → Represents h log s
      → Represents h log s'
  IsKept-Represents log s s' k =
      Represents-same log s s' k.records k.hashes
        (λ p. ap (λ (m : Bytes → Option Dir). number_file (m p)) k.dirs)

  -- A directory that gets a binary keeps its number.
  IsRestored-Represents :
      (log : List BuildResult) (exp_sum : Bytes) (w w' : Server) (v : ℤ) (br : BuildResult)
      → IsRestored h exp_sum w v br w'
      → Represents h log w.store
      → Represents h log w'.store
  IsRestored-Represents log exp_sum w w' v br r =
      Represents-same log w.store w'.store r.records r.hashes λ p.
        ap (λ (m : Bytes → Option Dir). number_file (m p)) r.dirs
        ∙ elim (Bool-cases (eq_bytes p (h.store_dir br.spec))) [
          | inl here ↦ rw (here, (eq_bytes_iff p (h.store_dir br.spec)).0 here, r.was_there) refl
          | inr elsewhere ↦ rw elsewhere refl
        ]

  number_file-clean :
      (age : ℤ) (v : FileAge) (o : Option Dir) → number_file (clean_found age v o) ≡ number_file o
  number_file-clean age v none = refl
  number_file-clean age (since t f) (some d) = unfold clean_dir in ground arith
  number_file-clean age not_walked (some d) = unfold clean_dir in refl
  number_file-clean age not_stat (some d) = unfold clean_dir in refl
  number_file-clean age no_access_time (some d) = unfold clean_dir in refl

  cleaned-Represents :
      (log : List BuildResult) (age : ℤ) (visit : Bytes → FileAge) (w : Server)
      → Represents h log w.store
      → Represents h log (cleaned age visit w).store
  unfolding cleanup_binaries
  cleaned-Represents log age visit w =
      Represents-same log w.store (cleaned age visit w).store refl refl
        (λ p. number_file-clean age (visit p) (w.store.dirs p))

  module _ (t : IsHashTree h) (b : Calls) (d : Disk) (bs : BuildSpec) (log : List BuildResult)
      (w : Server) (v : Represents h log w.store) where
    -- The files of the build in its temporary directory are not of the log.
    in_build : Represents h log (put_tmp build_files (count_target bs w)).store
    in_build = Represents-same log w.store _ refl refl (λ p. refl) v

    unbuilt :
        (exp_sum : Bytes)
        → IsIntact (build b h d bs exp_sum w).1
        → ((n : ℤ) (br : BuildResult) → (build b h d bs exp_sum w).1 ≢ built n br)
        → Represents h log (build b h d bs exp_sum w).0.store
    unbuilt exp_sum i n = IsKept-Represents log w.store _ (build-IsKept b h d bs exp_sum w i n) v

    build-Represents :
        (exp_sum : Bytes)
        → IsIntact (build b h d bs exp_sum w).1
        → Represents h
            (logged exp_sum (build b h d bs exp_sum w).1 log)
            (build b h d bs exp_sum w).0.store
    build-Represents exp_sum i = go exp_sum (build b h d bs exp_sum w).1 refl i
      where
        go :
            (e : Bytes) (o : Outcome)
            → (build b h d bs e w).1 ≡ o
            → IsIntact (build b h d bs e w).1
            → Represents h (logged e o log) (build b h d bs e w).0.store
        go [] (built n br) q i =
            let new = build-IsNewBuild b h d bs w n br q in
            IsAdded-Represents h log br new.number _ _ in_build new.added t
        go (c ∷ e) (built n br) q i =
            IsRestored-Represents log (c ∷ e) (count_target bs w) _ n br
              ((build-IsRestored b h d bs (c ∷ e) w n br (λ k. ground (arith, k)) q).1) v
        go [] (failed x) q i = unbuilt [] i (λ n br k. ground (arith, sym q ∙ k))
        go [] crashed q i = unbuilt [] i (λ n br k. ground (arith, sym q ∙ k))
        go (c ∷ e) (failed x) q i = unbuilt (c ∷ e) i (λ n br k. ground (arith, sym q ∙ k))
        go (c ∷ e) crashed q i = unbuilt (c ∷ e) i (λ n br k. ground (arith, sym q ∙ k))

    new_number :
        (n : ℤ) (br : BuildResult) → (build b h d bs [] w).1 ≡ built n br → n ≡ pos (length log)
    new_number n br q =
        let new = build-IsNewBuild b h d bs w n br q in
        new.number_eq ∙ ap pos (number_eq h log br new.number _ _ in_build new.added)

  pub History-Represents :
      {log : List BuildResult} {w : Server}
      → IsHashTree h
      → History h log w
      → Represents h log w.store
  History-Represents t (started w f) = IsFresh-Represents w.store t f
  History-Represents t (builds {log} {w} r b d bs exp_sum i) =
      build-Represents t b d bs log w (History-Represents t r) exp_sum i
  History-Represents t (cleans {log} {w} r age visit) =
      cleaned-Represents log age visit w (History-Represents t r)
  History-Represents t (others {log} {w} r targets links) =
      Represents-same log w.store w.store refl refl (λ p. refl) (History-Represents t r)

  module _ {log : List BuildResult} {w : Server} (t : IsHashTree h)
      (history : History h log w) where
    -- In a history, a build for which no sum is expected returns as the number of its record how
    -- many results the log had before.
    pub build-numbers :
        (b : Calls) (d : Disk) (bs : BuildSpec) (n : ℤ) (br : BuildResult)
        → (build b h d bs [] w).1 ≡ built n br
        → n ≡ pos (length log)
    build-numbers b d bs = new_number t b d bs log w (History-Represents t history)

    -- After a history, in which no addSum fails after its first permanent write, with a hash tree
    -- that has its laws, ReadRecords returns the texts of the results that the builds of the history have added, from a position on and in their order,
    -- and fails for no records and for more than the log has, while the offset fits an int64.
    pub read_records-refines :
        (i k : ℕ)
        → i * disk_record_size < 2 ^ 63
        → read_records w.store.records (pos i) (pos k) ≡ read_log log i k
    read_records-refines = read_records-Represents h log w.store (History-Represents t history)

    -- After a history, in which no addSum fails after its first permanent write, with a hash tree
    -- that has its laws, lookupResult finds for a specification
    -- the first result of the log with its directory, under its number, with the binary if the
    -- directory has it, and no other result, where sizes and offsets fit an int64.
    pub lookup_result-refines :
        (bs : BuildSpec)
        → All HasFit log
        → length log * disk_record_size < 2 ^ 63
        → lookup_result h bs w.store
          ≡ ok (
              answer (w.store.dirs (h.store_dir bs)) (find_from h.store_dir (h.store_dir bs) 0 log))
    lookup_result-refines bs fits small =
        lookup_result-Represents h log w.store (History-Represents t history) fits small bs
