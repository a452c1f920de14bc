-- ===== src/Analysis/Samples.antt =====
-- collectSpeakerSamples of internal/analysisjob/manager.go: the map is a function of the speaker.
use audio_server.Common.{
  ℕ, ◌+◌, ◌-◌, ◌==◌, ltb, ◌||◌, if◌then◌else◌, min, max, List, [], ◌∷◌, ◌++◌, take, drop, length,
  update,
}
use audio_server.Int64.{origin}
use audio_server.Analysis.Types.{Floats, SpeakerTurn}

-- The bounds of a turn, cut to the samples.
unfoldable pub turn_start : {F : Floats} → ℕ → SpeakerTurn F → ℕ
turn_start size t = max origin (min (origin + size) t.start_sample)

unfoldable pub turn_end : {F : Floats} → ℕ → SpeakerTurn F → ℕ
unfolding turn_start
turn_end size t = max (turn_start size t) (min (origin + size) t.end_sample)

module _ {F : Floats} {Sample : Type 0} where
  unfoldable pub collect_turn :
      List Sample → ℕ → SpeakerTurn F → (ℕ → List Sample) → ℕ → List Sample
  unfolding turn_start turn_end
  collect_turn samples limit t result =
      let start = turn_start (length samples) t in
      let end = turn_end (length samples) t in
      let taken = result t.speaker_id in
      let remaining = limit - length taken in
      if (remaining == 0) || (start == end)
      then result
      else (let end' = if ltb remaining (end - start) then start + remaining else end in
          update result t.speaker_id (taken ++ take (end' - start) (drop (start - origin) samples)))

  unfoldable pub collect_from :
      List Sample → ℕ → List (SpeakerTurn F) → (ℕ → List Sample) → ℕ → List Sample
  unfolding collect_turn
  collect_from samples limit [] result = result
  collect_from samples limit (t ∷ ts) result =
      collect_from samples limit ts (collect_turn samples limit t result)

  unfoldable pub collect_speaker_samples : List Sample → List (SpeakerTurn F) → ℕ → ℕ → List Sample
  unfolding collect_from
  collect_speaker_samples samples turns limit = collect_from samples limit turns (λ id. [])
