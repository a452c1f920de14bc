-- ===== src/Store/Runs.antt =====
-- Runs of the store of internal/store/store.go.
use audio_server.Common.{◌≡◌, refl, true, none, List, [], ◌∷◌, inr}
use audio_server.Segment.Text.{Text}
use audio_server.Store.Files.{Directory, path, written, renaming_fails, contents, read}
use audio_server.Store.Refines.{
  Operation, writes, deletes, sweeps, run_all, promise_all, read-run_all,
}

abbrev empty : Directory
empty name = none

abbrev job : Text
job = 97 ∷ 98 ∷ []

abbrev day : List Operation
day =
    writes written 100 job (1 ∷ 2 ∷ [])
    ∷ writes renaming_fails 200 job (3 ∷ [])
    ∷ writes written 300 (97 ∷ []) (4 ∷ [])
    ∷ sweeps 50 140 true (λ name. true)
    ∷ deletes true (97 ∷ [])
    ∷ []

read-run_all_example :
    read true job (run_all day empty) ≡ contents true (promise_all job day (empty (path job)))
read-run_all_example = read-run_all true job day empty

kept_until_stale : read true job (run_all day empty) ≡ inr (1 ∷ 2 ∷ [])
unfolding read run_all promise_all
kept_until_stale = refl
