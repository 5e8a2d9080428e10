-- ===== src/Tests/Access.antt =====
-- Instances of the theorems about the access log.
use gobuild.Common.{◌≡◌, [], ◌∷◌, codes}
use gobuild.Access.{LogLine}
use gobuild.Common.{◌++◌, List}
use gobuild.Access.Files.{LogFiles, opened, access_round}
use gobuild.Access.Written.{no_faults, texts_of, access_round-texts}
use gobuild.Access.Responses.{
  ResponseCall, write, write_header, serve_logged, first_status, logged_lines, serve_logged-once,
}

abbrev before_midnight : LogLine
before_midnight = record { text = codes "first\n"; date = 20261126 }

abbrev after_midnight : LogLine
after_midnight = record { text = codes "second\n"; date = 20261127 }

abbrev yesterday_open : LogFiles
yesterday_open = record { handle = opened 20261126; files = λ d. codes "start\n" }

access_round-texts_example :
    (access_round no_faults before_midnight (after_midnight ∷ []) yesterday_open).files 20261127
    ≡ yesterday_open.files 20261127 ++ texts_of 20261127 (before_midnight ∷ after_midnight ∷ [])
access_round-texts_example =
    access_round-texts before_midnight (after_midnight ∷ []) yesterday_open 20261127 tt

-- A handler that writes a header and a text
abbrev not_found_calls : List ResponseCall
not_found_calls = write_header 404 ∷ write (codes "no") ∷ []

serve_logged-once_example :
    ((serve_logged not_found_calls (200 ∷ [])).passed ≡ not_found_calls)
    × ((serve_logged not_found_calls (200 ∷ [])).waiting
        ≡ logged_lines (first_status not_found_calls) (200 ∷ []))
serve_logged-once_example = serve_logged-once not_found_calls (200 ∷ [])
