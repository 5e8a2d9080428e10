-- ===== src/Build/Recent/Resumed.antt =====
-- recentbuilds.go, gobuild.go: the recent links that are read at startup, and those of builds that
-- run one after another.
use gobuild.Common.{drop-drop}
use gobuild.Common.{
  drop-drop, drop-nil, drop-append_short, if◌then◌else◌, ℕ, suc, ◌+◌, ◌-◌, ltb, ◌≡◌, refl, sym, ap,
  ◌∙◌, inl, inr, Bool-cases, Option, List, [], ◌∷◌, ◌++◌, map, Bytes, length, drop, length-append,
  length-drop, append_assoc, append-nil, arith, ok,
}
use gobuild.Record.{BuildResult, parse_record}
use gobuild.Build.Run.Store.{push_recent}
use gobuild.Sdk.Targets.Use.{count_up}
use gobuild.Build.Recent.{Recent, result_link, read_loop}

-- The links after builds with these results, one after the other.
abbrev pub pushed : List Bytes → List BuildResult → List Bytes
pushed links [] = links
pushed links (br ∷ brs) = pushed (push_recent (result_link br) links) brs

-- The records are those of the results.
abbrev pub AreRecords : List Bytes → List BuildResult → Type 0
AreRecords [] [] = Unit
AreRecords (msg ∷ msgs) (br ∷ brs) = (parse_record msg ≡ ok br) × AreRecords msgs brs
AreRecords [] (br ∷ brs) = ⊥
AreRecords (msg ∷ msgs) [] = ⊥

abbrev pub last_ten : List Bytes → List Bytes
last_ten links = drop (length links - 10) links

pub push_recent_lem :
    (l : Bytes) (links : List Bytes) → push_recent l links ≡ last_ten (links ++ l ∷ [])
unfolding push_recent
push_recent_lem l links = elim (Bool-cases (ltb 10 (length (links ++ l ∷ [])))) [
  | inl long ↦ rw long refl
  | inr short ↦
      let none_left : 0 ≡ length (links ++ l ∷ []) - 10 = ground (arith, short) in
      rw short (ap (λ k. drop k (links ++ l ∷ [])) none_left)
]

-- What is dropped early would be dropped later.
last_ten-push :
    (l : Bytes) (links : List Bytes)
    → last_ten (last_ten links ++ l ∷ []) ≡ last_ten (links ++ l ∷ [])
last_ten-push l links =
    rw
      (
        sym (drop-append_short k links (l ∷ []) (omega arith)),
        drop-drop (length (drop k (links ++ l ∷ [])) - 10) k (links ++ l ∷ []),
      )
      (ap (λ n. drop n (links ++ l ∷ [])) count)
  where
    k : ℕ
    k = length links - 10

    count : k + (length (drop k (links ++ l ∷ [])) - 10) ≡ length (links ++ l ∷ []) - 10
    count = rw (length-drop k (links ++ l ∷ []), length-append links (l ∷ [])) (omega arith)

pub pushed_lem :
    (links : List Bytes) (brs : List BuildResult)
    → pushed (last_ten links) brs ≡ last_ten (links ++ map result_link brs)
pushed_lem links [] = rw (append-nil links) refl
pushed_lem links (br ∷ brs) =
    ap (λ x. pushed x brs)
      (push_recent_lem (result_link br) (last_ten links) ∙ last_ten-push (result_link br) links)
    ∙ pushed_lem (links ++ result_link br ∷ []) brs
    ∙ ap last_ten (append_assoc links (result_link br ∷ []) (map result_link brs))

-- The link of record `i` is kept where those before it are dropped.
kept_links :
    (keep i : ℕ) (l : Bytes) (ls links : List Bytes)
    → (if ltb i keep then links else links ++ l ∷ []) ++ drop (keep - (i + 1)) ls
      ≡ links ++ drop (keep - i) (l ∷ ls)
kept_links keep i l ls links = elim (Bool-cases (ltb i keep)) [
  | inl early ↦
      let one_less : suc (keep - (i + 1)) ≡ keep - i = ground (arith, early) in
      rw early (ap (λ k. links ++ drop k (l ∷ ls)) one_less)
  | inr late ↦
      let none_here : 0 ≡ keep - i = ground (arith, late) in
      let none_left : keep - (i + 1) ≡ 0 = ground (arith, late) in
      rw (late, none_left)
        (append_assoc links (l ∷ []) ls ∙ ap (λ k. links ++ drop k (l ∷ ls)) none_here)
]

-- The record `r` after the result `br` at number `i`
abbrev with_result : ℕ → ℕ → BuildResult → Recent → Recent
with_result keep i br r = record {
  use_counts = count_up (br.spec.goos ++ (b'/' ∷ br.spec.goarch)) r.use_counts;
  links = if ltb i keep then r.links else r.links ++ result_link br ∷ [];
}

read_loop-step :
    (keep i : ℕ) (msg : Bytes) (msgs : List Bytes) (br : BuildResult) (r : Recent)
    → parse_record msg ≡ ok br
    → read_loop keep i (msg ∷ msgs) r ≡ read_loop keep (i + 1) msgs (with_result keep i br r)
unfolding read_loop
read_loop-step keep i msg msgs br r p = rw p refl

read_loop_lem :
    (keep i : ℕ) (msgs : List Bytes) (brs : List BuildResult) (r : Recent)
    → AreRecords msgs brs
    → (r' : Recent) × (read_loop keep i msgs r ≡ ok r')
      × (r'.links ≡ r.links ++ drop (keep - i) (map result_link brs))
read_loop_lem keep i [] [] r h =
    (r, unfold read_loop in refl, rw (drop-nil (keep - i), append-nil r.links) refl)
read_loop_lem keep i [] (br ∷ brs) r h = elim h [ ]
read_loop_lem keep i (msg ∷ msgs) [] r h = elim h [ ]
read_loop_lem keep i (msg ∷ msgs) (br ∷ brs) r (p, h) =
    let (r', read, links) = read_loop_lem keep (i + 1) msgs brs (with_result keep i br r) h in
    (
      r',
      read_loop-step keep i msg msgs br r p ∙ read,
      links ∙ kept_links keep i (result_link br) (map result_link brs) r.links,
    )

parsed-length :
    (msgs : List Bytes) (brs : List BuildResult)
    → AreRecords msgs brs
    → length msgs ≡ length (map result_link brs)
parsed-length [] [] h = refl
parsed-length [] (br ∷ brs) h = elim h [ ]
parsed-length (msg ∷ msgs) [] h = elim h [ ]
parsed-length (msg ∷ msgs) (br ∷ brs) (p, h) = ap suc (parsed-length msgs brs h)

-- The links that are read at startup from the records of some results are those that the builds
-- with these results had left, one after the other.
pub read_loop-pushed :
    (msgs : List Bytes) (brs : List BuildResult) (counts : Bytes → Option ℕ)
    → AreRecords msgs brs
    → (r : Recent) × (read_loop
          (length msgs - 10)
          0
          msgs
          (record { use_counts = counts; links = [] })
        ≡ ok r)
      × (r.links ≡ pushed [] brs)
read_loop-pushed msgs brs counts h =
    let (r, read, links) =
      read_loop_lem (length msgs - 10) 0 msgs brs (record { use_counts = counts; links = [] }) h in
    (r, read, links ∙ ap (λ k. drop k (map result_link brs)) count ∙ sym (pushed_lem [] brs))
  where
    count : length msgs - 10 - 0 ≡ length (map result_link brs) - 10
    count = rw (parsed-length msgs brs h) (omega arith)
