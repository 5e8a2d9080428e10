-- ===== src/Cleanup/Restored.antt =====
-- cleanup.go, gobuild.go: a binary that the cleanup removed and that is built again.
use gobuild.Tlog.Lookup.{lookup_result-some}
use gobuild.Common.{
  ◌≡◌, ◌≢◌, refl, sym, ap, ◌∙◌, true, Option, none, some, [], Bytes, arith, eq_bytes_self,
}
use gobuild.Common.Int.{ℤ}
use gobuild.Spec.{BuildSpec}
use gobuild.Record.{BuildResult}
use gobuild.Tlog.{Dir, Store, HashTree, Disk}
use gobuild.Tlog.Read.{lookup_result, found_in}
use gobuild.Build.Run.{Calls}
use gobuild.Build.Run.Store.{Server, built, build, count_target}
use gobuild.Build.Run.Store.Restored.{IsRestored, build-IsRestored}
use gobuild.Cleanup.{
  FileAge, since, not_walked, not_stat, no_access_time, clean_dir, cleanup_binaries,
}

-- All that the cleanup does to a directory is undone by a binary.
clean_dir-refilled :
    (age : ℤ) (v : FileAge) (d : Dir)
    → d.has_binary ≡ true
    → record (clean_dir age v d) { has_binary = true } ≡ d
unfolding clean_dir
clean_dir-refilled age (since t f) d e = ground arith
clean_dir-refilled age not_walked d e = ground arith
clean_dir-refilled age not_stat d e = ground arith
clean_dir-refilled age no_access_time d e = ground arith

-- lookupResult looks at the records and at the directory of the specification.
lookup_result_same :
    (h : HashTree) (bs : BuildSpec) (s s' : Store)
    → s'.records ≡ s.records
    → s'.dirs (h.store_dir bs) ≡ s.dirs (h.store_dir bs)
    → lookup_result h bs s' ≡ lookup_result h bs s
lookup_result_same h bs s s' r e = go (s.dirs (h.store_dir bs)) refl
  where
    go :
        (o : Option Dir)
        → s.dirs (h.store_dir bs) ≡ o
        → lookup_result h bs s' ≡ lookup_result h bs s
    go none q = unfold lookup_result in rw (e, q, lookup_result) refl
    go (some d) q =
        lookup_result-some h bs s' d (e ∙ q)
        ∙ ap (λ file. found_in file d d.record_number) r
        ∙ sym (lookup_result-some h bs s d q)

abbrev pub cleaned : ℤ → (Bytes → FileAge) → Server → Server
cleaned age visit w = record w { store = cleanup_binaries age visit w.store }

module _ (b : Calls) (h : HashTree) (d : Disk) (age : ℤ) (visit : Bytes → FileAge) where
  -- When a build for which a sum is expected returns a result after a cleanup, lookupResult finds for
  -- its specification what it found before the cleanup, where the directory had its binary then.
  pub build-cleaned :
      (bs : BuildSpec) (exp_sum : Bytes) (w : Server) (v : ℤ) (br : BuildResult) (dir : Dir)
      → exp_sum ≢ []
      → w.store.dirs (h.store_dir bs) ≡ some dir
      → dir.has_binary ≡ true
      → (build b h d bs exp_sum (cleaned age visit w)).1 ≡ built v br
      → lookup_result h bs (build b h d bs exp_sum (cleaned age visit w)).0.store
        ≡ lookup_result h bs w.store
  build-cleaned bs exp_sum w v br dir n there full q =
      let (spec_eq, r) = build-IsRestored b h d bs exp_sum (cleaned age visit w) v br n q in
      go spec_eq r
    where
      w' : Server
      w' = (build b h d bs exp_sum (cleaned age visit w)).0

      go :
          br.spec ≡ bs
          → IsRestored h exp_sum (count_target bs (cleaned age visit w)) v br w'
          → lookup_result h bs w'.store ≡ lookup_result h bs w.store
      go spec_eq r =
          lookup_result_same h bs w.store w'.store (r.records ∙ (unfold cleanup_binaries in refl))
            (refilled ∙ sym there)
        where
          p_eq : h.store_dir br.spec ≡ h.store_dir bs
          p_eq = ap h.store_dir spec_eq

          emptied : some r.dir ≡ some (clean_dir age (visit (h.store_dir bs)) dir)
          emptied = sym r.was_there ∙ (rw p_eq (unfold cleanup_binaries in rw there refl))

          same_dir : r.dir ≡ clean_dir age (visit (h.store_dir bs)) dir
          same_dir = ground (arith, emptied)

          refilled : w'.store.dirs (h.store_dir bs) ≡ some dir
          refilled =
              ap (λ (m : Bytes → Option Dir). m (h.store_dir bs)) r.dirs
              ∙ rw (p_eq, eq_bytes_self (h.store_dir bs), same_dir)
                  (ap some (clean_dir-refilled age (visit (h.store_dir bs)) dir full))
