-- ===== src/Get/Verified.antt =====
-- get.go: the files that the get command writes.
use gobuild.Common.{
  ◌≡◌, ◌≢◌, refl, sym, ap, ◌∙◌, subst, ◌⊎◌, inl, inr, Bool, true, false, not, ◌&&◌, ◌||◌,
  Bool-cases, if_intro, if◌then◌else◌, Option, none, some, [], Bytes, eq_bytes, eq_bytes_iff,
  eq_bytes_ne, arith, Result, ok, err, bind-eq-ok, guard-eq-ok, or_fail-eq-ok,
}
use gobuild.Spec.{BuildSpec, to_text}
use gobuild.Record.{BuildResult, RecordError, parse_record}
use gobuild.Common.{codes}
use gobuild.Get.Client.{ClientOps, ClientError}
use gobuild.Get.{
  contents, no_response, bad_status, not_gzip, cut_off, not_closed, is_fatal, Options, Download,
  Remote, Files, Fetched, GetFailure, or_no_record, wanted_spec, checked_result, put_file,
  config_path, make_client, with_data, with_client, put_in_dst, save, fetch, clean_up, is_there,
  with_temp, destination, download_result, get_result, get,
}

-- The file at `q` holds a binary that has been verified: it is the destination of the result that
-- the log has for the specification, there was no file, and the contents have the sum of
-- the result, which is the sum that is asked for, if one is.
pub record IsVerified (r : Remote) (o : Options) (arg : Bytes) (f : Files) (q : Bytes)
    (c : Option Bytes) : Type 0 where
  pub bs : BuildSpec
  pub wanted : wanted_spec r o arg ≡ ok bs
  pub ops : ClientOps
  pub client : (make_client r o f).1 ≡ ok ops
  pub msg : Bytes
  pub found : (r.lookup ops (to_text bs) (make_client r o f).0).1 ≡ some msg
  pub br : BuildResult
  pub parsed : parse_record msg ≡ ok br
  pub place : q ≡ destination r o br
  pub was_absent : is_there (f q) ≡ false
  pub buf : Bytes
  pub content : c ≡ some buf
  pub sum_eq : r.sum_of buf ≡ br.sum
  pub asked : (o.sum ≡ []) ⊎ ((o.sum ≡ br.sum) × (to_text br.spec ≡ to_text bs))

put_file-other : (p q : Bytes) (c : Option Bytes) (f : Files) → q ≢ p → put_file p c f q ≡ f q
put_file-other p q c f n = rw (eq_bytes_ne q p n) refl

module _ (r : Remote) (ops : ClientOps) (br : BuildResult) (dst q : Bytes) where
  -- The file at `q` is as it was, or it is the destination and has contents with the sum.
  abbrev IsKept : Option Bytes → Files → Type 0
  IsKept c f =
      (f q ≡ c) ⊎ ((q ≡ dst) × ((buf : Bytes) × (f q ≡ some buf) × (r.sum_of buf ≡ br.sum)))

  module _ (temp : Bytes) (n : q ≢ temp) (c : Option Bytes) where
    kept : (t : Option Bytes) (f : Files) → f q ≡ c → IsKept c (put_file temp t f)
    kept t f e = inl (put_file-other temp q t f n ∙ e)

    put_in_dst-IsKept :
        (buf : Bytes) (f : Files)
        → r.sum_of buf ≡ br.sum
        → f q ≡ c
        → IsKept c (put_in_dst r temp dst buf f).0
    unfolding put_in_dst
    put_in_dst-IsKept buf f s e =
        if_intro (λ (x : Fetched). IsKept c x.0) r.stat_fails _ _ (λ k. inl e)
          (λ k.
            if_intro (λ (x : Fetched). IsKept c x.0) r.close_fails _ _ (λ k. inl e)
              (λ k.
                if_intro (λ (x : Fetched). IsKept c x.0) r.rename_fails _ _ (λ k. inl e)
                  (λ k. elim (Bool-cases (eq_bytes q dst)) [
                    | inl there ↦ inr ((eq_bytes_iff q dst).0 there, (buf, rw there refl, s))
                    | inr other ↦ inl (rw other (put_file-other temp q none f n ∙ e))
                  ])))

    save-IsKept : (x : Download) (f : Files) → f q ≡ c → IsKept c (save r br temp dst f x).0
    save-IsKept no_response f e = inl e
    save-IsKept (bad_status k) f e = inl e
    save-IsKept not_gzip f e = inl e
    save-IsKept (cut_off buf) f e = kept (some buf) f e
    save-IsKept (not_closed buf) f e = kept (some buf) f e
    save-IsKept (contents buf) f e =
        if_intro (λ (x : Fetched). IsKept c x.0) (not (eq_bytes (r.sum_of buf) br.sum)) _ _
          (λ k. kept (some buf) f e)
          (λ k.
            put_in_dst-IsKept buf (put_file temp (some buf) f)
              ((eq_bytes_iff (r.sum_of buf) br.sum).0 (ground (arith, k)))
              (put_file-other temp q (some buf) f n ∙ e))

    removed : (t : Bool) (f : Files) → IsKept c f → IsKept c (if t then f else put_file temp none f)
    removed t f h =
        if_intro (λ (x : Files). IsKept c x) t _ _ (λ k. h)
          (λ k. elim h [
            | inl e ↦ kept none f e
            | inr (p, (buf, e, s)) ↦ inr (p, (buf, put_file-other temp q none f n ∙ e, s))
          ])

    clean_up-IsKept : (x : Fetched) → IsKept c x.0 → IsKept c (clean_up r temp x).0
    clean_up-IsKept (f, ok u) h = h
    clean_up-IsKept (f, err e) h = removed (is_fatal e || r.remove_fails) f h

  with_temp-IsKept :
      (f : Files) (t : Option Bytes) → t ≢ some q → IsKept (f q) (with_temp r ops br dst f t).0
  with_temp-IsKept f none n = inl refl
  with_temp-IsKept f (some temp) n =
      clean_up-IsKept temp other (f q) (fetch r ops br temp dst (put_file temp (some []) f)) (
        unfold fetch in
        save-IsKept temp other (f q) _ (put_file temp (some []) f)
          (put_file-other temp q (some []) f other))
    where
      other : q ≢ temp
      other e = n (ap some (sym e))

or_no_record-ok :
    (x : Result RecordError BuildResult) (br : BuildResult) → or_no_record x ≡ ok br → x ≡ ok br
or_no_record-ok (ok b) br h = ground arith
or_no_record-ok (err e) br h = absurd (ground arith)

-- The two checks of the flag -sum
asked-cases :
    (o : Options) (sum key key' : Bytes)
    → not (not (eq_bytes key key') && not (eq_bytes o.sum [])) ≡ true
    → not (not (eq_bytes o.sum []) && not (eq_bytes o.sum sum)) ≡ true
    → (o.sum ≡ []) ⊎ ((o.sum ≡ sum) × (key ≡ key'))
asked-cases o sum key key' a b =
    ground (arith, eq_bytes_iff o.sum [], eq_bytes_iff o.sum sum, eq_bytes_iff key key')

-- What the result that is downloaded has gone through.
checked_result-ok :
    (o : Options) (bs : BuildSpec) (x : Option Bytes) (br : BuildResult)
    → checked_result o bs x ≡ ok br
    → (msg : Bytes) × (x ≡ some msg)
      × (parse_record msg ≡ ok br)
      × ((o.sum ≡ []) ⊎ ((o.sum ≡ br.sum) × (to_text br.spec ≡ to_text bs)))
unfolding checked_result
checked_result-ok o bs x br h =
    let (msg, found, h1) = bind-eq-ok _ _ h in
    let (b, parsed, h2) = bind-eq-ok _ _ h1 in
    let (key, h3) =
      guard-eq-ok (not (not (eq_bytes (to_text b.spec) (to_text bs)) && not (eq_bytes o.sum []))) _
        _ h2 in
    let (sum, h4) =
      guard-eq-ok (not (not (eq_bytes o.sum []) && not (eq_bytes o.sum b.sum))) _ _ h3 in
    let same : b ≡ br = ground (arith, h4) in
    (
      msg,
      or_fail-eq-ok _ _ found,
      or_no_record-ok _ b parsed ∙ ap ok same,
      subst (λ (x : BuildResult). (o.sum ≡ []) ⊎ ((o.sum ≡ x.sum) × (to_text x.spec ≡ to_text bs)))
          same (asked-cases o b.sum (to_text b.spec) (to_text bs) key sum),
    )

-- For a path that is not one of the client of the log
module _ (r : Remote) (o : Options) (arg : Bytes) (f : Files) (q : Bytes)
    (not_temp : r.temp_file ≢ some q) (not_key : q ≢ config_path r (codes "key"))
    (not_looked_up : (ops : ClientOps) (key : Bytes) (g : Files)
      → (r.lookup ops key g).0 q ≡ g q) where
  Keeps : Fetched → Type 0
  Keeps x = (x.0 q ≡ f q) ⊎ IsVerified r o arg f q (x.0 q)

  module _ (bs : BuildSpec) (wanted : wanted_spec r o arg ≡ ok bs) (ops : ClientOps)
      (client : (make_client r o f).1 ≡ ok ops) where
    downloaded-Keeps :
        (x : Files × Option Bytes)
        → r.lookup ops (to_text bs) (make_client r o f).0 ≡ x
        → x.0 q ≡ f q
        → (br : BuildResult) → checked_result o bs x.1 ≡ ok br
        → Keeps (download_result r o ops br x.0)
    unfolding Keeps download_result
    downloaded-Keeps x e same br k =
        if_intro Keeps (is_there (x.0 (destination r o br))) _ _ (λ a. inl same)
          (λ a. (elim (with_temp-IsKept r ops br (destination r o br) q x.0 r.temp_file not_temp) [
            | inl unchanged ↦ inl (unchanged ∙ same)
            | inr (place, (buf, content, sum_eq)) ↦
                let (msg, found, parsed, asked) = checked_result-ok o bs x.1 br k in
                inr (record {
                  bs = bs;
                  wanted = wanted;
                  ops = ops;
                  client = client;
                  msg = msg;
                  found = ap (λ (y : Files × Option Bytes). y.1) e ∙ found;
                  br = br;
                  parsed = parsed;
                  place = place;
                  was_absent = ap is_there (sym same) ∙ ap (λ w. is_there (x.0 w)) place ∙ a;
                  buf = buf;
                  content = content;
                  sum_eq = sum_eq;
                  asked = asked;
                })
          ]))

    with_data-Keeps :
        (x : Files × Option Bytes)
        → r.lookup ops (to_text bs) (make_client r o f).0 ≡ x
        → x.0 q ≡ f q
        → Keeps (with_data r o bs ops x)
    unfolding Keeps
    with_data-Keeps x e same = go (checked_result o bs x.1) refl
      where
        go :
            (y : Result GetFailure BuildResult)
            → checked_result o bs x.1 ≡ y
            → Keeps (get_result r o ops x.0 y)
        go (err z) k = inl same
        go (ok br) k =
            if_intro Keeps (not o.download) _ _ (λ a. inl same)
              (λ a. downloaded-Keeps x e same br k)

  make_client-other : (make_client r o f).0 q ≡ f q
  make_client-other =
      unfold make_client in put_file-other (config_path r (codes "key")) q _ f not_key

  -- Whatever the get command ends with, it changes no file but that of the verifier key, those that
  -- the lookup of the client writes, the temporary one and a destination that was not there, which
  -- holds then a binary with the sum of the result that the log has, and of the flag -sum if it is
  -- given.
  pub get-IsVerified : ((get r o arg f).0 q ≡ f q) ⊎ IsVerified r o arg f q ((get r o arg f).0 q)
  unfolding Keeps
  get-IsVerified = go (wanted_spec r o arg) refl
    where
      go : (x : Result GetFailure BuildSpec) → wanted_spec r o arg ≡ x → Keeps (get r o arg f)
      go (err e) k = inl (unfold get in rw k refl)
      go (ok bs) k = made (make_client r o f).1 refl
        where
          made :
              (y : Result ClientError ClientOps) → (make_client r o f).1 ≡ y → Keeps (get r o arg f)
          made (err e) l = subst Keeps (sym (whole (err e) l)) (inl make_client-other)
            where
              whole :
                  (y : Result ClientError ClientOps)
                  → (make_client r o f).1 ≡ y
                  → get r o arg f ≡ with_client r o bs ((make_client r o f).0, y)
              whole y l = unfold get in rw (k, sym l) refl
          made (ok ops) l = subst Keeps (sym whole) (
              with_data-Keeps bs k ops l _ refl
                (not_looked_up ops (to_text bs) (make_client r o f).0 ∙ make_client-other))
            where
              whole :
                  get r o arg f
                  ≡ with_data r o bs ops (r.lookup ops (to_text bs) (make_client r o f).0)
              whole = unfold get in rw k (ap (λ y. with_client r o bs ((make_client r o f).0, y)) l)
