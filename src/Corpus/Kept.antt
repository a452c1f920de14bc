-- ===== src/Corpus/Kept.antt =====
-- Each row that Finish of internal/sttcorpus/sttcorpus.go appends has its audio.
use audio_server.Common.{
  ℕ, zero, suc, ◌+◌, ◌*◌, ◌-◌, ◌==◌, ◌≤◌, ◌<◌, ltb, ◌≡◌, inl, inr, refl, sym, ap, ◌∙◌, subst, ◌||◌,
  is_empty, false, Option, none, some, ◌⊎◌, arith, List, [], ◌∷◌, All, get_elem?, take, drop,
  length, Bool-cases,
}
use audio_server.Wav.Bytes.{samples}
use audio_server.Wav.Parse.{Audio, parse}
use audio_server.Wav.Encode.{encode}
use audio_server.Wav.RoundTrip.{parse-encode}
use audio_server.Corpus.Types.{FilePath, line, Entry, Line, Recorder, Session, Error, Disk}
use audio_server.Corpus.Record.{
  encode_pcm, window, slice, line_entry, put_file, write_clip, add_row, then_rows, add_line,
  finish_lines,
}
use audio_server.Corpus.Files.{path_eq_refl, IsBefore, finish_lines-before}

abbrev pub Files : Type 0
Files = FilePath → Option (List ℕ)

-- A file that reads as audio of a rate and samples.
abbrev pub HasAudio : Files → FilePath → ℕ → List ℕ → Type 0
HasAudio files p rate xs =
    (wav : List ℕ) × (files p ≡ some wav)
    × (parse wav ≡ inr (record { sample_rate = rate; samples = xs }))

abbrev pub AreBytes : List ℕ → Type 0
AreBytes = All (λ b. b < 256)

samples-fit : (pcm : List ℕ) → AreBytes pcm → All (λ x. x < 65536) (samples pcm)
unfolding samples
samples-fit [] h = tt
samples-fit (a ∷ []) h = tt
samples-fit (a ∷ b ∷ pcm) h = (omega (arith, h.0, h.1.0), samples-fit pcm h.1.1)

pub take-AreBytes : (n : ℕ) (pcm : List ℕ) → AreBytes pcm → AreBytes (take n pcm)
take-AreBytes zero pcm h = tt
take-AreBytes (suc n) [] h = tt
take-AreBytes (suc n) (b ∷ pcm) h = (h.0, take-AreBytes n pcm h.1)

pub drop-AreBytes : (n : ℕ) (pcm : List ℕ) → AreBytes pcm → AreBytes (drop n pcm)
drop-AreBytes zero pcm h = h
drop-AreBytes (suc n) [] h = tt
drop-AreBytes (suc n) (b ∷ pcm) h = drop-AreBytes n pcm h.1

nonempty : (xs : List ℕ) → is_empty xs ≡ false → 0 < length xs
nonempty [] h = absurd (cc h)
nonempty (x ∷ xs) h = omega arith

-- What Encode accepts.
encode-some :
    (a : Audio) (wav : List ℕ)
    → encode a ≡ some wav
    → (0 < a.sample_rate) × (0 < length a.samples) × (length a.samples * 2 ≤ 4294967259)
unfolding encode
encode-some a wav e = elim (Bool-cases ((a.sample_rate == 0) || is_empty a.samples)) [
  | inl h ↦ absurd (ground (arith, e, h))
  | inr h ↦ elim (Bool-cases (ltb 4294967259 (length a.samples * 2))) [
    | inl l ↦ absurd (ground (arith, e, h, l))
    | inr l ↦ (ground (arith, h), nonempty a.samples (ground (arith, h)), ground (arith, l))
  ]
]

pub parse-encode_pcm :
    (pcm : List ℕ) (rate : ℕ) (wav : List ℕ)
    → AreBytes pcm
    → rate < 4294967296
    → encode_pcm pcm rate ≡ some wav
    → parse wav ≡ inr (record { sample_rate = rate; samples = samples pcm })
unfolding encode_pcm
parse-encode_pcm pcm rate wav h hr e =
    let a : Audio = record { sample_rate = rate; samples = samples pcm } in
    let (pr, pn, pl) = encode-some a wav e in
    let (bytes, q, p) = parse-encode a pr hr pn pl (samples-fit pcm h) in
    subst (λ b. parse b ≡ inr a) (some_injective (sym q ∙ e)) p
  where
    some_injective : {b c : List ℕ} → some b ≡ some c → b ≡ c
    some_injective q = cc

module _ (s : Session) where
  -- The row of a clip of the line at an index: its text and the samples of its window.
  pub record IsClip (i : ℕ) (ls : List Line) (files : Files) (row : Entry) : Type 0 where
    pub at : ℕ
    pub of : Line
    pub from_to : ℕ × ℕ
    pub index : row.line_index ≡ some (i + at)
    pub there : get_elem? ls at ≡ some of
    pub within : window s of ≡ some from_to
    pub same_text : row.text ≡ of.text
    pub kept : HasAudio files row.audio s.sample_rate (samples (slice s from_to))

  abbrev pub AreClips : ℕ → List Line → (Error ⊎ List Entry) × Recorder → Type 0
  AreClips i ls (inl e, r) = Unit
  AreClips i ls (inr rows, r) = All (IsClip i ls r.files) rows

  next-IsClip :
      (i : ℕ) (l : Line) (ls : List Line) (files : Files) (row : Entry)
      → IsClip (suc i) ls files row
      → IsClip i (l ∷ ls) files row
  next-IsClip i l ls files row c = record {
    at = suc c.at;
    of = c.of;
    from_to = c.from_to;
    index = c.index ∙ ap some (omega arith);
    there = c.there;
    within = c.within;
    same_text = c.same_text;
    kept = c.kept;
  }

  next-All :
      (i : ℕ) (l : Line) (ls : List Line) (files : Files) (rows : List Entry)
      → All (IsClip (suc i) ls files) rows
      → All (IsClip i (l ∷ ls) files) rows
  next-All i l ls files [] h = tt
  next-All i l ls files (row ∷ rows) h =
      (next-IsClip i l ls files row h.0, next-All i l ls files rows h.1)

  next-AreClips :
      (i : ℕ) (l : Line) (ls : List Line) (x : (Error ⊎ List Entry) × Recorder)
      → AreClips (suc i) ls x
      → AreClips i (l ∷ ls) x
  next-AreClips i l ls (inl e, r) h = tt
  next-AreClips i l ls (inr rows, r) h = next-All i l ls r.files rows h

  first-AreClips :
      (id i : ℕ) (l : Line) (ls : List Line) (w : ℕ × ℕ) (wav : List ℕ)
      (x : (Error ⊎ List Entry) × Recorder)
      → window s l ≡ some w
      → x.1.files (line id i) ≡ some wav
      → parse wav ≡ inr (record { sample_rate = s.sample_rate; samples = samples (slice s w) })
      → AreClips (suc i) ls x
      → AreClips i (l ∷ ls) (add_row (line_entry s id i l) x)
  first-AreClips id i l ls w wav (inl e, r) q f p h = tt
  first-AreClips id i l ls w wav (inr rows, r) q f p h = (
    record {
      at = 0;
      of = l;
      from_to = w;
      index = ap some (omega arith);
      there = refl;
      within = q;
      same_text = refl;
      kept = (wav, f, p);
    },
    next-All i l ls r.files rows h,
  )

  line-IsBefore : (id i : ℕ) → IsBefore id (suc i) (line id i)
  line-IsBefore id i j le = ground (arith, le)

  module _ (bytes_ok : AreBytes s.pcm) (rate_ok : s.sample_rate < 4294967296) (disk : Disk)
      (id : ℕ) where
    slice-parse :
        (w : ℕ × ℕ) (wav : List ℕ)
        → encode_pcm (slice s w) s.sample_rate ≡ some wav
        → parse wav ≡ inr (record { sample_rate = s.sample_rate; samples = samples (slice s w) })
    slice-parse (a, b) wav e =
        parse-encode_pcm (slice s (a, b)) s.sample_rate wav
          (take-AreBytes (b - a) (drop a s.pcm) (drop-AreBytes a s.pcm bytes_ok)) rate_ok e

    clip-AreClips :
        (i : ℕ) (l : Line) (ls : List Line) (w : ℕ × ℕ) (o : Option (List ℕ)) (r : Recorder)
        → window s l ≡ some w
        → encode_pcm (slice s w) s.sample_rate ≡ o
        → ((r : Recorder) → AreClips (suc i) ls (finish_lines disk s id (suc i) ls r))
        → AreClips i (l ∷ ls) (
            then_rows
              (write_clip disk (line id i) o r)
              (line_entry s id i l)
              (finish_lines disk s id (suc i) ls))
    unfolding write_clip
    clip-AreClips i l ls w none r q e h = tt
    clip-AreClips i l ls w (some wav) r q e h = elim (Bool-cases (disk.writes (line id i))) [
      | inl ok ↦ rw ok (
          first-AreClips id i l ls w wav
            (finish_lines disk s id (suc i) ls (put_file (line id i) wav r)) q
            (finish_lines-before disk s id (suc i) ls (line id i) (put_file (line id i) wav r)
                (line-IsBefore id i)
              ∙ rw (path_eq_refl (line id i)) refl)
            (slice-parse w wav e) (h (put_file (line id i) wav r)))
      | inr bad ↦ rw bad tt
    ]

    add_line-AreClips :
        (i : ℕ) (l : Line) (ls : List Line) (w : Option (ℕ × ℕ)) (r : Recorder)
        → window s l ≡ w
        → ((r : Recorder) → AreClips (suc i) ls (finish_lines disk s id (suc i) ls r))
        → AreClips i (l ∷ ls) (add_line disk s id i l w (finish_lines disk s id (suc i) ls) r)
    unfolding add_line
    add_line-AreClips i l ls none r q h =
        next-AreClips i l ls (finish_lines disk s id (suc i) ls r) (h r)
    add_line-AreClips i l ls (some w) r q h =
        clip-AreClips i l ls w (encode_pcm (slice s w) s.sample_rate) r q refl h

    pub finish_lines-AreClips :
        (i : ℕ) (ls : List Line) (r : Recorder) → AreClips i ls (finish_lines disk s id i ls r)
    unfolding finish_lines
    finish_lines-AreClips i [] r = tt
    finish_lines-AreClips i (l ∷ ls) r =
        add_line-AreClips i l ls (window s l) r refl (finish_lines-AreClips (suc i) ls)
