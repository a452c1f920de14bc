-- ===== src/Store/Names.antt =====
-- The names of the files of internal/store/store.go.
use audio_server.Common.{
  ℕ, ◌≡◌, refl, ap, ◌∙◌, length, length-append, Bool-cases, inl, inr, true, false, [], ◌∷◌, ◌++◌,
  arith,
}
use audio_server.Segment.Text.{Text}
use audio_server.Store.Files.{same_name, dot_pcm, dot_tmp, path, has_suffix}

pub same_name_refl : (t : Text) → same_name t t ≡ true
unfolding same_name
same_name_refl [] = refl
same_name_refl (c ∷ cs) = ground (arith, same_name_refl cs)

pub same_name→eq : (s t : Text) → same_name s t ≡ true → s ≡ t
unfolding same_name
same_name→eq [] [] h = refl
same_name→eq (c ∷ cs) (d ∷ ds) h =
    ap (λ e. e ∷ cs) (ground (arith, h))
    ∙ ap (λ es. d ∷ es) (same_name→eq cs ds (ground (arith, h)))
same_name→eq [] (d ∷ ds) h = ground (arith, h)
same_name→eq (c ∷ cs) [] h = ground (arith, h)

length-same_name : (s t : Text) → same_name s t ≡ true → length s ≡ length t
unfolding same_name
length-same_name [] [] h = refl
length-same_name (c ∷ cs) (d ∷ ds) h = ground (arith, length-same_name cs ds (ground (arith, h)))
length-same_name [] (d ∷ ds) h = ground (arith, h)
length-same_name (c ∷ cs) [] h = ground (arith, h)

longer : (c : ℕ) (s suffix : Text) → same_name suffix (c ∷ s ++ suffix) ≡ false
longer c s suffix = elim (Bool-cases (same_name suffix (c ∷ s ++ suffix))) [
  | inl h ↦ ground (arith, length-same_name suffix (c ∷ s ++ suffix) h, length-append s suffix)
  | inr h ↦ h
]

same_name_sym : (s t : Text) → same_name s t ≡ same_name t s
unfolding same_name
same_name_sym [] [] = refl
same_name_sym (c ∷ cs) (d ∷ ds) = ground (arith, same_name_sym cs ds)
same_name_sym [] (d ∷ ds) = refl
same_name_sym (c ∷ cs) [] = refl

pub same_name-append : (s t suffix : Text) → same_name (s ++ suffix) (t ++ suffix) ≡ same_name s t
unfolding same_name
same_name-append [] [] suffix = same_name_refl suffix
same_name-append (c ∷ cs) (d ∷ ds) suffix = ground (arith, same_name-append cs ds suffix)
same_name-append [] (d ∷ ds) suffix = longer d ds suffix
same_name-append (c ∷ cs) [] suffix = same_name_sym (c ∷ cs ++ suffix) suffix ∙ longer c cs suffix

-- The last letter of a text that is not empty.
abbrev last : ℕ → Text → ℕ
last d [] = d
last d (c ∷ cs) = last c cs

last-append : (d : ℕ) (s : Text) (c : ℕ) (cs : Text) → last d (s ++ c ∷ cs) ≡ last c cs
last-append d [] c cs = refl
last-append d (e ∷ es) c cs = last-append e es c cs

last-same_name : (d : ℕ) (s t : Text) → same_name s t ≡ true → last d s ≡ last d t
unfolding same_name
last-same_name d [] [] h = refl
last-same_name d (c ∷ cs) (e ∷ es) h =
    last-same_name c cs es (ground (arith, h)) ∙ ap (λ f. last f es) (ground (arith, h))
last-same_name d [] (e ∷ es) h = ground (arith, h)
last-same_name d (c ∷ cs) [] h = ground (arith, h)

-- A temporary file has the name of no job's file.
pub same_name-tmp : (s t : Text) → same_name ((s ++ dot_pcm) ++ dot_tmp) (t ++ dot_pcm) ≡ false
same_name-tmp s t = elim (Bool-cases (same_name ((s ++ dot_pcm) ++ dot_tmp) (t ++ dot_pcm))) [
  | inl h ↦ ground (
    arith,
    last-same_name 0 ((s ++ dot_pcm) ++ dot_tmp) (t ++ dot_pcm) h,
    last-append 0 (s ++ dot_pcm) 46 (116 ∷ 109 ∷ 112 ∷ []),
    last-append 0 t 46 (112 ∷ 99 ∷ 109 ∷ []),
  )
  | inr h ↦ h
]

pub has_suffix-path : (t : Text) → has_suffix dot_pcm (path t) ≡ true
unfolding has_suffix path same_name
has_suffix-path [] = refl
has_suffix-path (c ∷ cs) = ground (arith, has_suffix-path cs)
