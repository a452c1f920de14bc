-- ===== src/Analysis/Transcribe.antt =====
-- transcribeSegments of internal/analysisjob/manager.go.
use audio_server.Common.{
  ℕ, ◌+◌, suc, ◌/◌, ◌-◌, ltb, if◌then◌else◌, min, max, Option, List, [], ◌∷◌, take, drop, length,
}
use audio_server.Wav.Parse.{Audio}
use audio_server.Wav.Encode.{encode}
use audio_server.Int64.{origin, times, quotient}
use audio_server.Analysis.Types.{Floats, Segment}
use audio_server.Analysis.Effects.{
  Run, ok, need, encode_failed, transcribe_failed, Gate, within_function, ◌>>=◌,
}

-- The provider's call: the index of the segment and the WAV data give the text, if it succeeds. The
-- file name, the language and the model are passed on.
abbrev pub Transcriber : Type 0
Transcriber = ℕ → List ℕ → Option (List ℕ)

-- The samples of a span of milliseconds, cut to the audio.
unfoldable pub span_start : Audio → ℕ → ℕ
unfolding times quotient
span_start audio ms =
    max origin (min (origin + length audio.samples) (quotient (times ms audio.sample_rate) 1000))

unfoldable pub span_end : Audio → ℕ → ℕ → ℕ
unfolding times quotient
span_end audio start ms =
    max start (min (origin + length audio.samples) (quotient (times ms audio.sample_rate) 1000))

abbrev pub clip : Audio → ℕ → ℕ → Audio
clip audio start end = record audio {
  samples = take (end - start) (drop (start - origin) audio.samples);
}

module _ {F : Floats} where
  -- A clip with its segment's text.
  unfoldable pub transcribe_one : Transcriber → ℕ → Audio → Segment F → Run (Segment F)
  unfolding span_start span_end
  transcribe_one call i audio s =
      let start = span_start audio s.start_ms in
      let end = span_end audio start s.end_ms in
      if ltb (end - start) (audio.sample_rate / 4) then ok s else do
        wav ← need encode_failed (encode (clip audio start end))
        text ← need transcribe_failed (call i wav)
        ok (record s { text = text })

  unfoldable pub transcribe_from :
      Transcriber → ℕ → Audio → List (Segment F) → Run (List (Segment F))
  unfolding transcribe_one
  transcribe_from call i audio [] = ok []
  transcribe_from call i audio (s ∷ ss) = do
    s' ← transcribe_one call i audio s
    ss' ← transcribe_from call (suc i) audio ss
    ok (s' ∷ ss')

  unfoldable pub transcribe_segments :
      Gate → ℕ → Transcriber → Audio → List (Segment F) → Run (List (Segment F))
  unfolding transcribe_from within_function
  transcribe_segments gate id call audio segments =
      within_function gate id (transcribe_from call 0 audio segments)
