-- ===== src/Corpus/Files.antt =====
-- What Finish of internal/sttcorpus/sttcorpus.go leaves of the files that are there.
use audio_server.Common.{
  ℕ, suc, ◌≤◌, ◌≡◌, inl, inr, refl, ap, ◌∙◌, if_both, true, false, Option, none, some, ◌⊎◌, arith,
  List, [], ◌∷◌, length, ==_refl,
}
use audio_server.Corpus.Types.{
  FilePath, upload, session, line, path_eq, Entry, Line, Recorder, Session, Error, write_failed,
  Disk,
}
use audio_server.Corpus.Record.{
  encode_pcm, window, slice, line_entry, put_file, write_clip, add_row, then_rows, add_line,
  finish_lines,
}

pub path_eq_refl : (p : FilePath) → path_eq p p ≡ true
path_eq_refl (upload a) = ==_refl a
path_eq_refl (session a) = ==_refl a
path_eq_refl (line a i) = ground (arith, ==_refl a, ==_refl i)

-- A path that no line from index `i` on has.
abbrev pub IsBefore : ℕ → ℕ → FilePath → Type 0
IsBefore id i p = (j : ℕ) → i ≤ j → path_eq (line id j) p ≡ false

write_clip-other :
    (disk : Disk) (p q : FilePath) (o : Option (List ℕ)) (r : Recorder)
    → path_eq p q ≡ false
    → (write_clip disk p o r).1.files q ≡ r.files q
unfolding write_clip
write_clip-other disk p q none r h = refl
write_clip-other disk p q (some wav) r h =
    if_both (λ (x : (Error ⊎ ℕ) × Recorder). x.1.files q ≡ r.files q) (disk.writes p)
      (inr (length wav), put_file p wav r) (inl write_failed, r) (rw h refl) refl

add_row-files : (row : Entry) (x : (Error ⊎ List Entry) × Recorder) → (add_row row x).1 ≡ x.1
add_row-files row (inl e, r) = refl
add_row-files row (inr rows, r) = refl

then_rows-files :
    (q : FilePath) (x : (Error ⊎ ℕ) × Recorder) (row : Entry)
    (k : Recorder → (Error ⊎ List Entry) × Recorder)
    → ((r : Recorder) → (k r).1.files q ≡ r.files q)
    → (then_rows x row k).1.files q ≡ x.1.files q
then_rows-files q (inl e, r) row k h = refl
then_rows-files q (inr n, r) row k h =
    ap (λ (x : Recorder). x.files q) (add_row-files row (k r)) ∙ h r

add_line-before :
    (disk : Disk) (s : Session) (id i : ℕ) (l : Line) (w : Option (ℕ × ℕ))
    (k : Recorder → (Error ⊎ List Entry) × Recorder) (q : FilePath) (r : Recorder)
    → path_eq (line id i) q ≡ false
    → ((r : Recorder) → (k r).1.files q ≡ r.files q)
    → (add_line disk s id i l w k r).1.files q ≡ r.files q
unfolding add_line
add_line-before disk s id i l none k q r ne h = h r
add_line-before disk s id i l (some w) k q r ne h =
    then_rows-files q (write_clip disk (line id i) (encode_pcm (slice s w) s.sample_rate) r)
      (line_entry s id i l) k h
    ∙ write_clip-other disk (line id i) q (encode_pcm (slice s w) s.sample_rate) r ne

pub finish_lines-before :
    (disk : Disk) (s : Session) (id i : ℕ) (ls : List Line) (q : FilePath) (r : Recorder)
    → IsBefore id i q
    → (finish_lines disk s id i ls r).1.files q ≡ r.files q
unfolding finish_lines
finish_lines-before disk s id i [] q r h = refl
finish_lines-before disk s id i (l ∷ ls) q r h =
    add_line-before disk s id i l (window s l) (finish_lines disk s id (suc i) ls) q r
      (h i (omega arith))
      (λ r'. finish_lines-before disk s id (suc i) ls q r' (λ j le. h j (omega (arith, le))))
