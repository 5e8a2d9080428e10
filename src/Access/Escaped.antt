-- ===== src/Access/Escaped.antt =====
-- accesslog.go: what noctl makes of a text.
use gobuild.Common.{
  length-append, ℕ, suc, ◌+◌, ltb, ◌≡◌, refl, sym, ap, ◌∙◌, true, false, ◌&&◌, inl, inr, Bool-cases,
  if◌then◌else◌, [], ◌∷◌, ◌++◌, append_assoc, append-nil, length, take, take-append, Bytes, arith,
}
use gobuild.Access.{hex_escape, is_nil, escape_loop, noctl}

-- The text with each control character escaped, and the others as they are.
abbrev pub escaped : Bytes → Bytes
escaped [] = []
escaped (c ∷ s) = (if ltb c b' ' then hex_escape c else c ∷ []) ++ escaped s

abbrev shown : ℕ → Bytes
shown c = if ltb c b' ' then hex_escape c else c ∷ []

is_nil-append : (r x : Bytes) → is_nil r ≡ false → is_nil (r ++ x) ≡ false
is_nil-append [] x h = absurd (ground arith)
is_nil-append (c ∷ r) x h = refl

is_nil-append_escape : (r : Bytes) (c : ℕ) → is_nil (r ++ hex_escape c) ≡ false
unfolding hex_escape
is_nil-append_escape [] c = refl
is_nil-append_escape (d ∷ r) c = refl

escape_loop-step :
    (whole : Bytes) (i : ℕ) (r : Bytes) (c : ℕ) (s : Bytes)
    → is_nil r ≡ false
    → escape_loop whole i r (c ∷ s) ≡ escape_loop whole (i + 1) (r ++ shown c) s
unfolding escape_loop
escape_loop-step whole i r c s h = elim (Bool-cases (ltb 0 i)) [
  | inl later ↦ elim (Bool-cases (ltb c b' ')) [
    | inl control ↦ rw (later, h, control) refl
    | inr plain ↦ rw (later, h, plain) refl
  ]
  | inr first ↦ elim (Bool-cases (ltb c b' ')) [
    | inl control ↦ rw (first, h, control) refl
    | inr plain ↦ rw (first, h, plain) refl
  ]
]

-- Once something is built, the loop escapes the rest.
escape_loop-built :
    (whole : Bytes) (i : ℕ) (r s : Bytes)
    → is_nil r ≡ false
    → escape_loop whole i r s ≡ r ++ escaped s
escape_loop-built whole i r [] h = unfold escape_loop in sym (append-nil r)
escape_loop-built whole i r (c ∷ s) h =
    escape_loop-step whole i r c s h
    ∙ escape_loop-built whole (i + 1) (r ++ shown c) s (is_nil-append r (shown c) h)
    ∙ append_assoc r (shown c) (escaped s)

-- The part before the first control character
front :
    (before s : Bytes)
    → (if ltb 0 (length before) && true then take (length before) (before ++ s) else []) ≡ before
front [] s = refl
front (c ∷ before) s =
    let positive : ltb 0 (suc (length before)) ≡ true = ground arith in
    rw positive (ap (◌∷◌ c) (take-append before s (length before) refl))

escape_loop-first :
    (before : Bytes) (c : ℕ) (s : Bytes)
    → ltb c b' ' ≡ true
    → escape_loop (before ++ c ∷ s) (length before) [] (c ∷ s)
      ≡ escape_loop (before ++ c ∷ s) (length before + 1) (before ++ hex_escape c) s
unfolding escape_loop
escape_loop-first before c s control = rw (control, front before (c ∷ s)) refl

escape_loop-skip :
    (before : Bytes) (c : ℕ) (s : Bytes)
    → ltb c b' ' ≡ false
    → escape_loop (before ++ c ∷ s) (length before) [] (c ∷ s)
      ≡ escape_loop ((before ++ c ∷ []) ++ s) (length (before ++ c ∷ [])) [] s
unfolding escape_loop
escape_loop-skip before c s plain =
    rw (plain, append_assoc before (c ∷ []) s, length-append before (c ∷ [])) refl

-- What noctl returns from what the loop has built.
abbrev or_whole : Bytes → Bytes → Bytes
or_whole whole r = if is_nil r then whole else r

-- Up to the first control character nothing is built.
escape_loop-start :
    (before s : Bytes)
    → or_whole (before ++ s) (escape_loop (before ++ s) (length before) [] s) ≡ before ++ escaped s
escape_loop-start before [] = unfold escape_loop in refl
escape_loop-start before (c ∷ s) = go (escape_loop-start (before ++ c ∷ []) s)
  where
    go :
        or_whole
            ((before ++ c ∷ []) ++ s)
            (escape_loop ((before ++ c ∷ []) ++ s) (length (before ++ c ∷ [])) [] s)
          ≡ (before ++ c ∷ []) ++ escaped s
        → or_whole (before ++ c ∷ s) (escape_loop (before ++ c ∷ s) (length before) [] (c ∷ s))
          ≡ before ++ escaped (c ∷ s)
    go ih = elim (Bool-cases (ltb c b' ')) [
      | inl control ↦
          let built =
            escape_loop-first before c s control
            ∙ escape_loop-built (before ++ c ∷ s) (length before + 1) (before ++ hex_escape c) s
                (is_nil-append_escape before c) in
          ap (or_whole (before ++ c ∷ s)) built
          ∙ rw
              (
                is_nil-append (before ++ hex_escape c) (escaped s) (is_nil-append_escape before c),
                control,
              )
              (append_assoc before (hex_escape c) (escaped s))
      | inr plain ↦ rw plain (
          ap (or_whole (before ++ c ∷ s)) (escape_loop-skip before c s plain)
          ∙ ap
              (λ w.
                or_whole w (escape_loop ((before ++ c ∷ []) ++ s) (length (before ++ c ∷ [])) [] s))
              (sym (append_assoc before (c ∷ []) s))
          ∙ ih
          ∙ append_assoc before (c ∷ []) (escaped s))
    ]

-- noctl escapes the control characters of a text and leaves the other characters as they are.
pub noctl-escaped : (s : Bytes) → noctl s ≡ escaped s
noctl-escaped s = unfold noctl in escape_loop-start [] s
