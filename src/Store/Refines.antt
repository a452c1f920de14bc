-- ===== src/Store/Refines.antt =====
-- internal/store/store.go as a map from job ids to audio.
use audio_server.Common.{
  ℕ, ◌≡◌, refl, ap, ◌∙◌, ◌+◌, ◌==◌, ltb, ◌&&◌, not, if◌then◌else◌, Bool, true, false, Option, none,
  some, Option-cases, Bool-cases, inl, inr, List, [], ◌∷◌, arith,
}
use audio_server.Segment.Text.{Text}
use audio_server.Store.Files.{
  same_name, File, Directory, put, dot_pcm, path, Writing, written, renaming_fails, writing_fails,
  new_file, write, contents, read, delete, deleted, is_stale, keep, sweep,
}
use audio_server.Store.Names.{same_name→eq, same_name-append, same_name-tmp, has_suffix-path}

pub data Operation : Type 0 where
  writes : Writing → ℕ → Text → List ℕ → Operation
  deletes : Bool → Text → Operation
  sweeps : ℕ → ℕ → Bool → (Text → Bool) → Operation

unfoldable pub run : Operation → Directory → Directory
unfolding write delete sweep
run (writes how now job_id audio) d = (write how now job_id audio d).0
run (deletes removable job_id) d = (delete removable job_id d).0
run (sweeps ttl now listed removable) d = sweep ttl now listed removable d

unfoldable pub run_all : List Operation → Directory → Directory
unfolding run
run_all [] d = d
run_all (op ∷ ops) d = run_all ops (run op d)

-- The promise: one job's file, without names and temporary files.
abbrev pub is_written : Writing → Bool
is_written written = true
is_written renaming_fails = false
is_written (writing_fails left) = false

abbrev pub expires : ℕ → ℕ → File → Bool
expires ttl now f = not (ttl == 0) && not f.is_dir && ltb (f.mod_time + ttl) now

abbrev pub drop_if : (File → Bool) → Option File → Option File
drop_if gone none = none
drop_if gone (some f) = if gone f then none else some f

unfoldable pub promise : Text → Operation → Option File → Option File
unfolding path same_name
promise id (writes how now job_id audio) f =
    if is_written how && same_name job_id id then some (new_file audio now) else f
promise id (deletes removable job_id) f = if removable && same_name job_id id then none else f
promise id (sweeps ttl now listed removable) f =
    drop_if (λ f. expires ttl now f && listed && removable (path id)) f

unfoldable pub promise_all : Text → List Operation → Option File → Option File
unfolding promise
promise_all id [] f = f
promise_all id (op ∷ ops) f = promise_all id ops (promise id op f)

run-promise :
    (id : Text) (op : Operation) (d : Directory) → run op d (path id) ≡ promise id op (d (path id))
unfolding run promise write delete deleted sweep keep is_stale put path
run-promise id (writes (writing_fails left) now job_id audio) d =
    ground (arith, same_name-tmp job_id id)
run-promise id (writes renaming_fails now job_id audio) d = ground (arith, same_name-tmp job_id id)
run-promise id (writes written now job_id audio) d =
    ground (arith, same_name-tmp job_id id, same_name-append job_id id dot_pcm)
run-promise id (deletes removable job_id) d = elim (Option-cases (d (path job_id))) [
  | inl n ↦ elim (Bool-cases (same_name job_id id)) [
    | inl e ↦ ground (arith, n, e, ap (λ t. d (path t)) (same_name→eq job_id id e))
    | inr e ↦ ground (arith, n, e)
  ]
  | inr (f, n) ↦ rw (run, delete, n) (ground (arith, same_name-append job_id id dot_pcm))
]
run-promise id (sweeps ttl now listed removable) d = elim (Option-cases (d (path id))) [
  | inl n ↦ rw n (ground arith)
  | inr (f, n) ↦ rw n (ground (arith, has_suffix-path id))
]

run_all-promise :
    (id : Text) (ops : List Operation) (d : Directory)
    → run_all ops d (path id) ≡ promise_all id ops (d (path id))
unfolding run_all promise_all
run_all-promise id [] d = refl
run_all-promise id (op ∷ ops) d =
    run_all-promise id ops (run op d) ∙ ap (promise_all id ops) (run-promise id op d)

-- After any sequence of Write, Delete and sweep, however the file system answers, Read answers for
-- a job id as if there were one file for each job: the last Write that succeeded sets it, a Delete
-- of that id or a sweep after its time removes it, and calls for other ids and failed calls leave
-- it as it is.
pub read-run_all :
    (readable : Bool) (id : Text) (ops : List Operation) (d : Directory)
    → read readable id (run_all ops d) ≡ contents readable (promise_all id ops (d (path id)))
unfolding read
read-run_all readable id ops d = ap (contents readable) (run_all-promise id ops d)
