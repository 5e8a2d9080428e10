-- ===== src/Access/Written.antt =====
-- accesslog.go: where each line is written.
use gobuild.Common.{
  ◌⊎◌, ℕ, Bool, true, false, ◌==◌, ◌≡◌, refl, sym, ap, ◌∙◌, if◌then◌else◌, none, List, [], ◌∷◌,
  ◌++◌, Bytes, All, append_assoc, append-nil, arith, inl, inr, Bool-cases, ==_iff,
}
use gobuild.Access.{LogLine, log_round}
use gobuild.Access.Batches.{flatten, IsBatch, log_round-AreBatches}
use gobuild.Access.Files.{
  LogFiles, LogFaults, Handle, no_file, opened, closed, lines_text, write_lines, append_text,
  write_batches, access_round,
}

-- The texts of the lines of a date.
unfoldable pub texts_of : ℕ → List LogLine → Bytes
texts_of d [] = []
texts_of d (l ∷ ls) = let rest = texts_of d ls in if l.date == d then l.text ++ rest else rest

-- The file at hand, if there is one, is open.
abbrev pub IsOpen : Handle → Type 0
IsOpen no_file = Unit
IsOpen (opened d) = Unit
IsOpen (closed d) = ⊥

abbrev pub no_faults : LogFaults
no_faults = record { open_fails = false; log_write = none }

texts_of-append :
    (d : ℕ) (xs ys : List LogLine) → texts_of d (xs ++ ys) ≡ texts_of d xs ++ texts_of d ys
unfolding texts_of
texts_of-append d [] ys = refl
texts_of-append d (x ∷ xs) ys = step (x.date == d) _ _ _ (texts_of-append d xs ys)
  where
    step :
        (b : Bool) (a c e : Bytes)
        → a ≡ c ++ e
        → (if b then x.text ++ a else a) ≡ (if b then x.text ++ c else c) ++ e
    step true a c e h = ap (λ y. x.text ++ y) h ∙ sym (append_assoc x.text c e)
    step false a c e h = h

-- All lines of a batch are of its date, and none of another.
texts_of-batch :
    (d e : ℕ) (ls : List LogLine)
    → All (λ m. m.date ≡ e) ls
    → texts_of d ls ≡ (if e == d then lines_text ls else [])
unfolding texts_of lines_text
texts_of-batch d e [] h = ground arith
texts_of-batch d e (l ∷ ls) (q, h) = ground (arith, texts_of-batch d e ls h)

write_lines-texts :
    (l : LogLine) (ls : List LogLine) (s : LogFiles) (d : ℕ)
    → IsOpen s.handle
    → All (λ m. m.date ≡ l.date) ls
    → IsOpen (write_lines no_faults l ls s).handle
      × ((write_lines no_faults l ls s).files d ≡ s.files d ++ texts_of d (l ∷ ls))
write_lines-texts l ls s d o h = go s.handle refl o
  where
    text : Bytes
    text = lines_text (l ∷ ls)

    Result_ok : LogFiles → Type 0
    Result_ok s' = IsOpen s'.handle × (s'.files d ≡ s.files d ++ texts_of d (l ∷ ls))

    put : (if d == l.date then s.files d ++ text else s.files d) ≡ s.files d ++ texts_of d (l ∷ ls)
    put = put_if (Bool-cases (d == l.date))
      where
        put_if :
            (d == l.date ≡ true) ⊎ (d == l.date ≡ false)
            → (if d == l.date then s.files d ++ text else s.files d)
              ≡ s.files d ++ texts_of d (l ∷ ls)
        put_if (inl same) =
            rw (same, texts_of-batch d l.date (l ∷ ls) (refl, h)) (ground (arith, same))
        put_if (inr other) =
            rw (other, texts_of-batch d l.date (l ∷ ls) (refl, h))
              (ground (arith, other, append-nil (s.files d)))

    go : (k : Handle) → s.handle ≡ k → IsOpen k → Result_ok (write_lines no_faults l ls s)
    go no_file e o = unfold write_lines append_text in rw e (tt, put)
    go (closed c) e o = absurd o
    go (opened c) e o = elim (Bool-cases (l.date == c)) [
      | inl same ↦
          let e' : s.handle ≡ opened l.date = e ∙ ap opened (sym ((==_iff l.date c).0 same)) in
          let self : (l.date == l.date) ≡ true = ground arith in
          unfold write_lines append_text in rw (e', self) (tt, put)
      | inr other ↦ unfold write_lines append_text in rw (e, other) (tt, put)
    ]

write_batches-texts :
    (bs : List (List LogLine)) (s : LogFiles) (d : ℕ)
    → IsOpen s.handle
    → All IsBatch bs
    → (write_batches no_faults bs s).files d ≡ s.files d ++ texts_of d (flatten bs)
unfolding write_batches
write_batches-texts [] s d o h = unfold texts_of in sym (append-nil (s.files d))
write_batches-texts ([] ∷ bs) s d o (h, hs) = absurd h
write_batches-texts ((l ∷ ls) ∷ bs) s d o (h, hs) =
    let (o', first) = write_lines-texts l ls s d o h in
    write_batches-texts bs (write_lines no_faults l ls s) d o' hs
    ∙ ap (λ x. x ++ texts_of d (flatten bs)) first
    ∙ append_assoc (s.files d) (texts_of d (l ∷ ls)) (texts_of d (flatten bs))
    ∙ ap (λ x. s.files d ++ x) (sym (texts_of-append d (l ∷ ls) (flatten bs)))

-- In a round in which no call on the files fails, with a file at hand that is open or with none,
-- the file of each date gets the texts of the lines of that date, once and in order.
pub access_round-texts :
    (l : LogLine) (ls : List LogLine) (s : LogFiles) (d : ℕ)
    → IsOpen s.handle
    → (access_round no_faults l ls s).files d ≡ s.files d ++ texts_of d (l ∷ ls)
unfolding access_round
access_round-texts l ls s d o =
    let (all, batches) = log_round-AreBatches l ls in
    write_batches-texts (log_round l ls) s d o batches ∙ ap (λ x. s.files d ++ texts_of d x) all
