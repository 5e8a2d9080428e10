-- ===== src/Access/Responses.antt =====
-- accesslog.go: logResponseWriter, which logs a request when its handler first writes.
use gobuild.Common.{
  subst, append_assoc, ℕ, Bool, true, false, ◌≡◌, refl, sym, ap, ◌∙◌, ltb, if◌then◌else◌, Option,
  none, some, List, [], ◌∷◌, ◌++◌, Bytes, length, append-nil,
}

-- What a handler calls.
pub data ResponseCall : Type 0 where
  write : Bytes → ResponseCall
  write_header : ℕ → ResponseCall
  flush : ResponseCall

-- The writer with what it passes on, and the channel of lines, as the statuses of those that wait.
pub record ResponseLog : Type 0 where
  pub logged : Bool
  pub passed : List ResponseCall
  pub waiting : List ℕ

-- make(chan logLine, 1024)
abbrev pub log_capacity : ℕ
log_capacity = 1024

-- LogStatus
unfoldable pub log_status : ℕ → ResponseLog → ResponseLog
log_status status s = record s {
  logged = true;
  waiting = if ltb (length s.waiting) log_capacity then s.waiting ++ status ∷ [] else s.waiting;
}

abbrev pass : ResponseCall → ResponseLog → ResponseLog
pass c s = record s { passed = s.passed ++ c ∷ [] }

-- Write, WriteHeader and Flush, whose writer flushes.
unfoldable pub respond : ResponseCall → ResponseLog → ResponseLog
unfolding log_status
respond (write buf) s = pass (write buf) (if s.logged then s else log_status 200 s)
respond (write_header status) s =
    pass (write_header status) (if s.logged then s else log_status status s)
respond flush s = pass flush s

-- A handler; logHandler.ServeHTTP gives it a writer that has not logged.
unfoldable pub respond_all : List ResponseCall → ResponseLog → ResponseLog
respond_all [] s = s
respond_all (c ∷ cs) s = respond_all cs (respond c s)

unfoldable pub serve_logged : List ResponseCall → List ℕ → ResponseLog
serve_logged cs waiting = respond_all cs (record { logged = false; passed = []; waiting = waiting })

-- The status of the first header, or 200 for a write before it.
unfoldable pub first_status : List ResponseCall → Option ℕ
first_status [] = none
first_status (write buf ∷ cs) = some 200
first_status (write_header status ∷ cs) = some status
first_status (flush ∷ cs) = first_status cs

abbrev pub to_list : Option ℕ → List ℕ
to_list none = []
to_list (some n) = n ∷ []

if_true {ℓ} : {A : Type ℓ} (b : Bool) (x y : A) → b ≡ true → (if b then x else y) ≡ x
if_true true x y e = refl
if_true false x y e = cc

respond-logged : (c : ResponseCall) (s : ResponseLog) → s.logged ≡ true → respond c s ≡ pass c s
unfolding respond
respond-logged (write buf) s e = ap (pass (write buf)) (if_true s.logged s _ e)
respond-logged (write_header n) s e = ap (pass (write_header n)) (if_true s.logged s _ e)
respond-logged flush s e = refl

-- Once the request is logged, the rest is passed on.
respond_all-logged :
    (cs : List ResponseCall) (s : ResponseLog)
    → s.logged ≡ true
    → respond_all cs s ≡ record s { passed = s.passed ++ cs }
unfolding respond_all
respond_all-logged [] s e = ap (λ p. record s { passed = p }) (sym (append-nil s.passed))
respond_all-logged (c ∷ cs) s e =
    ap (respond_all cs) (respond-logged c s e)
    ∙ respond_all-logged cs (pass c s) e
    ∙ ap (λ p. record s { passed = p }) (append_assoc s.passed (c ∷ []) cs)

-- The lines after a request with this status: none is added where the channel is full.
unfoldable pub logged_lines : Option ℕ → List ℕ → List ℕ
logged_lines none waiting = waiting
logged_lines (some n) waiting =
    if ltb (length waiting) log_capacity then waiting ++ n ∷ [] else waiting

if_false {ℓ} : {A : Type ℓ} (b : Bool) (x y : A) → b ≡ false → (if b then x else y) ≡ y
if_false true x y e = cc
if_false false x y e = refl

Ends : List ResponseCall → Option ℕ → ResponseLog → ResponseLog → Type 0
Ends cs o s s' = (s'.passed ≡ s.passed ++ cs) × (s'.waiting ≡ logged_lines o s.waiting)

-- After the call that logs
Ends-logged :
    (c : ResponseCall) (n : ℕ) (cs : List ResponseCall) (s : ResponseLog)
    → respond c s ≡ pass c (log_status n s)
    → Ends (c ∷ cs) (some n) s (respond_all (c ∷ cs) s)
unfolding Ends respond_all log_status logged_lines
Ends-logged c n cs s e =
    subst (Ends (c ∷ cs) (some n) s) (sym whole) (append_assoc s.passed (c ∷ []) cs, refl)
  where
    end : ResponseLog
    end = record (pass c (log_status n s)) { passed = (s.passed ++ c ∷ []) ++ cs }

    whole : respond_all (c ∷ cs) s ≡ end
    whole = ap (respond_all cs) e ∙ respond_all-logged cs (pass c (log_status n s)) refl

unlogged :
    (cs : List ResponseCall) (s : ResponseLog)
    → s.logged ≡ false
    → Ends cs (first_status cs) s (respond_all cs s)
unfolding respond_all first_status respond logged_lines Ends
unlogged [] s e = (sym (append-nil s.passed), refl)
unlogged (write buf ∷ cs) s e =
    Ends-logged (write buf) 200 cs s (ap (pass (write buf)) (if_false s.logged s _ e))
unlogged (write_header n ∷ cs) s e =
    Ends-logged (write_header n) n cs s (ap (pass (write_header n)) (if_false s.logged s _ e))
unlogged (flush ∷ cs) s e =
    let (p, w) = unlogged cs (pass flush s) e in (p ∙ append_assoc s.passed (flush ∷ []) cs, w)

-- Every call of a handler is passed on, in order. Its request gives one line, with the status of the
-- first header, or 200 for a write before it; no line, where it writes nothing or the channel of
-- lines is full.
pub serve_logged-once :
    (cs : List ResponseCall) (waiting : List ℕ)
    → ((serve_logged cs waiting).passed ≡ cs)
      × ((serve_logged cs waiting).waiting ≡ logged_lines (first_status cs) waiting)
unfolding serve_logged Ends
serve_logged-once cs waiting =
    unlogged cs (record { logged = false; passed = []; waiting = waiting }) refl
