-- ===== src/Access/Batches.antt =====
-- accesslog.go: the batches of lines that are written to one file.
use gobuild.Common.{
  ℕ, ◌≡◌, ◌==◌, ==_iff, refl, sym, ap, subst, ◌∙◌, if_intro, List, [], ◌∷◌, ◌++◌, All, All-append,
  append_assoc,
}
use gobuild.Access.{LogLine, gather, log_round}

abbrev pub flatten : List (List LogLine) → List LogLine
flatten [] = []
flatten (b ∷ bs) = b ++ flatten bs

-- The lines of a batch have the date of its first line, which names the file.
abbrev pub IsBatch : List LogLine → Type 0
IsBatch [] = ⊥
IsBatch (l ∷ ls) = All (λ m. m.date ≡ l.date) ls

-- The batches hold the lines in order, and each is of one date.
abbrev pub AreBatches : List LogLine → List (List LogLine) → Type 0
AreBatches lines batches = (flatten batches ≡ lines) × All IsBatch batches

gather-AreBatches :
    (first : LogLine) (lines : List LogLine) (last : ℕ) (ls : List LogLine)
    → first.date ≡ last
    → All (λ m. m.date ≡ first.date) lines
    → AreBatches ((first ∷ lines) ++ ls) (gather (first ∷ lines) last ls)
gather-AreBatches first lines last [] d h = unfold gather in (refl, (h, tt))
gather-AreBatches first lines last (l ∷ ls) d h =
    go
      (λ q.
        gather-AreBatches first (lines ++ l ∷ []) l.date ls q
          (All-append (λ m. m.date ≡ first.date) lines (l ∷ []) h (sym q, tt)))
      (gather-AreBatches l [] l.date ls refl tt)
  where
    go :
        (first.date ≡ l.date
          → AreBatches
              (((first ∷ lines) ++ l ∷ []) ++ ls)
              (gather ((first ∷ lines) ++ l ∷ []) l.date ls))
        → AreBatches (l ∷ ls) (gather (l ∷ []) l.date ls)
        → AreBatches ((first ∷ lines) ++ l ∷ ls) (gather (first ∷ lines) last (l ∷ ls))
    go same next =
        unfold gather in
        if_intro (AreBatches ((first ∷ lines) ++ l ∷ ls)) (l.date == last) _ _
          (λ e.
            subst (λ w. AreBatches w (gather ((first ∷ lines) ++ l ∷ []) l.date ls))
              (append_assoc (first ∷ lines) (l ∷ []) ls)
              (same (d ∙ sym ((==_iff l.date last).0 e))))
          (λ e. (ap (λ x. (first ∷ lines) ++ x) next.0, (h, next.1)))

-- The lines of a round are handed to writeLog once and in order, in batches of one date.
pub log_round-AreBatches : (l : LogLine) (ls : List LogLine) → AreBatches (l ∷ ls) (log_round l ls)
unfolding log_round
log_round-AreBatches l ls = gather-AreBatches l [] l.date ls refl tt
