-- ===== src/Store/Files.antt =====
-- Write, Read, Delete and sweep of internal/store/store.go over the directory that the store was
-- made with. Job ids have no path separator. How the calls of package os end is a parameter of
-- each operation; times are nanoseconds, and a TTL that is not positive is 0.
use audio_server.Common.{
  ℕ, ◌+◌, ◌==◌, ltb, ◌&&◌, ◌||◌, not, if◌then◌else◌, Bool, true, false, Option, none, some, List,
  [], ◌∷◌, ◌++◌, ◌⊎◌, inl, inr,
}
use audio_server.Segment.Text.{Text}

unfoldable pub same_name : Text → Text → Bool
same_name [] [] = true
same_name (c ∷ cs) (d ∷ ds) = (c == d) && same_name cs ds
same_name _ _ = false

pub record File : Type 0 where
  pub is_dir : Bool
  pub data_of : List ℕ
  pub mod_time : ℕ

abbrev pub Directory : Type 0
Directory = Text → Option File

pub data Error : Type 0 where
  not_found read_failed write_failed rename_failed delete_failed : Error

unfoldable pub put : Text → Option File → Directory → Directory
unfolding same_name
put name f d other = if same_name name other then f else d other

abbrev pub dot_pcm : Text
dot_pcm = 46 ∷ 112 ∷ 99 ∷ 109 ∷ []

abbrev pub dot_tmp : Text
dot_tmp = 46 ∷ 116 ∷ 109 ∷ 112 ∷ []

unfoldable pub path : Text → Text
path job_id = job_id ++ dot_pcm

-- How os.WriteFile and os.Rename end: a failed write leaves what it wrote of the file.
pub data Writing : Type 0 where
  written renaming_fails : Writing
  writing_fails : Option File → Writing

abbrev pub new_file : List ℕ → ℕ → File
new_file audio now = record { is_dir = false; data_of = audio; mod_time = now }

-- Rename moves the temporary file over the old one.
unfoldable pub write : Writing → ℕ → Text → List ℕ → Directory → Directory × Option Error
unfolding put path
write (writing_fails left) now job_id audio d =
    (put (path job_id ++ dot_tmp) left d, some write_failed)
write renaming_fails now job_id audio d =
    (put (path job_id ++ dot_tmp) (some (new_file audio now)) d, some rename_failed)
write written now job_id audio d =
    let d' = put (path job_id ++ dot_tmp) (some (new_file audio now)) d in
    (put (path job_id) (some (new_file audio now)) (put (path job_id ++ dot_tmp) none d'), none)

abbrev pub contents : Bool → Option File → Error ⊎ List ℕ
contents readable none = inl not_found
contents readable (some f) = if readable && not f.is_dir then inr f.data_of else inl read_failed

unfoldable pub read : Bool → Text → Directory → Error ⊎ List ℕ
unfolding path
read readable job_id d = contents readable (d (path job_id))

unfoldable pub deleted : Bool → Text → Directory → Option File → Directory × Option Error
unfolding put
deleted removable name d none = (d, none)
deleted removable name d (some f) =
    if removable then (put name none d, none) else (d, some delete_failed)

unfoldable pub delete : Bool → Text → Directory → Directory × Option Error
unfolding path deleted
delete removable job_id d = deleted removable (path job_id) d (d (path job_id))

-- strings.HasSuffix.
unfoldable pub has_suffix : Text → Text → Bool
unfolding same_name
has_suffix suffix [] = same_name suffix []
has_suffix suffix (c ∷ cs) = let rest = has_suffix suffix cs in same_name suffix (c ∷ cs) || rest

unfoldable pub is_stale : ℕ → ℕ → Text → File → Bool
unfolding has_suffix
is_stale ttl now name f = not f.is_dir && has_suffix dot_pcm name && ltb (f.mod_time + ttl) now

abbrev pub unless : Bool → File → Option File
unless gone f = if gone then none else some f

unfoldable pub keep : ℕ → ℕ → (Text → Bool) → Text → Option File → Option File
unfolding is_stale
keep ttl now removable name none = none
keep ttl now removable name (some f) = unless (is_stale ttl now name f && removable name) f

-- The loop of sweep deletes each entry by a test of its own; `listed` says whether os.ReadDir
-- succeeds, `removable` whether the information and the removal of an entry do.
unfoldable pub sweep : ℕ → ℕ → Bool → (Text → Bool) → Directory → Directory
unfolding keep
sweep ttl now listed removable d name =
    if (ttl == 0) || not listed then d name else keep ttl now removable name (d name)
