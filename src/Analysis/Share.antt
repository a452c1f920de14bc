-- ===== src/Analysis/Share.antt =====
-- How much collectSpeakerSamples of internal/analysisjob/manager.go collects.
use audio_server.Common.{
  ℕ, leb, ltb, ◌&&◌, All, zero, suc, ◌+◌, ◌-◌, ◌≤◌, ◌==◌, ◌≡◌, inl, inr, if◌then◌else◌, min, arith,
  List, [], ◌∷◌, ◌++◌, take, drop, length, length-append, sum_by, Bool-cases,
}
use audio_server.Int64.{origin}
use audio_server.Analysis.Types.{Floats, SpeakerTurn}
use audio_server.Analysis.Samples.{
  turn_start, turn_end, collect_turn, collect_from, collect_speaker_samples,
}

length-drop : {A : Type 0} (n : ℕ) (xs : List A) → length (drop n xs) ≡ length xs - n
length-drop zero xs = omega arith
length-drop (suc n) [] = omega arith
length-drop (suc n) (x ∷ xs) = omega (arith, length-drop n xs)

length-take : {A : Type 0} (n : ℕ) (xs : List A) → length (take n xs) ≡ min n (length xs)
length-take zero xs = omega arith
length-take (suc n) [] = omega arith
length-take (suc n) (x ∷ xs) = omega (arith, length-take n xs)

-- How many of the first samples lie within a turn.
abbrev pub heard_in : {F : Floats} → ℕ → SpeakerTurn F → ℕ
heard_in zero t = 0
heard_in (suc i) t =
    let before = heard_in i t in
    if leb t.start_sample (origin + i) && ltb (origin + i) t.end_sample then suc before else before

-- The samples of a turn that are there, if it is the speaker's.
abbrev pub turn_share : {F : Floats} → ℕ → ℕ → SpeakerTurn F → ℕ
turn_share size id t = let n = heard_in size t in if t.speaker_id == id then n else 0

-- The bounds of a turn are in order and within the samples, so that slicing there does not panic.
abbrev pub IsWithin : {F : Floats} → ℕ → SpeakerTurn F → Type 0
IsWithin size t =
    (origin ≤ turn_start size t)
    × (turn_start size t ≤ turn_end size t)
    × (turn_end size t ≤ origin + size)

turn-IsWithin : {F : Floats} (size : ℕ) (t : SpeakerTurn F) → IsWithin size t
unfolding turn_start turn_end
turn-IsWithin size t = (omega arith, omega arith, omega arith)

turns-IsWithin : {F : Floats} (size : ℕ) (ts : List (SpeakerTurn F)) → All (IsWithin size) ts
turns-IsWithin size [] = tt
turns-IsWithin size (t ∷ ts) = (turn-IsWithin size t, turns-IsWithin size ts)

heard_in-span :
    {F : Floats} (size : ℕ) (t : SpeakerTurn F)
    → heard_in size t ≡ turn_end size t - turn_start size t
unfolding turn_start turn_end
heard_in-span zero t = omega arith
heard_in-span (suc i) t = ground (arith, heard_in-span i t)

-- A piece that is appended to the samples taken so far.
piece-length :
    {Sample : Type 0} (taken samples : List Sample) (k start : ℕ)
    → length (taken ++ take k (drop start samples)) ≡ length taken + min k (length samples - start)
piece-length taken samples k start = omega (
  arith,
  length-append taken (take k (drop start samples)),
  length-take k (drop start samples),
  length-drop start samples,
)

module _ {F : Floats} {Sample : Type 0} (samples : List Sample) (limit id : ℕ) where
  collect_turn-length :
      (t : SpeakerTurn F) (result : ℕ → List Sample)
      → length (result id) ≤ limit
      → length (collect_turn samples limit t result id)
        ≡ min limit (length (result id) + turn_share (length samples) id t)
  unfolding collect_turn
  collect_turn-length t result h = elim (Bool-cases (t.speaker_id == id)) [
    | inl e ↦ ground (
      arith,
      h,
      e,
      piece-length (result t.speaker_id) samples
          (turn_end (length samples) t - turn_start (length samples) t)
          (turn_start (length samples) t - origin),
      piece-length (result t.speaker_id) samples
          (turn_start (length samples) t
            + (limit - length (result t.speaker_id))
            - turn_start (length samples) t)
          (turn_start (length samples) t - origin),
      turn-IsWithin (length samples) t,
      heard_in-span (length samples) t,
    )
    | inr e ↦ ground (arith, h, e)
  ]

  collect_from-length :
      (ts : List (SpeakerTurn F)) (result : ℕ → List Sample)
      → length (result id) ≤ limit
      → length (collect_from samples limit ts result id)
        ≡ min limit (length (result id) + sum_by (turn_share (length samples) id) ts)
  unfolding collect_from
  collect_from-length [] result h = omega (arith, h)
  collect_from-length (t ∷ ts) result h =
      let one = collect_turn-length t result h in
      omega (
        arith,
        one,
        h,
        collect_from-length ts (collect_turn samples limit t result) (omega (arith, one)),
      )

-- The bounds of each turn, cut to the audio, are in order and within it. For every speaker,
-- collectSpeakerSamples returns as many samples as the audio has in all the speaker's turns,
-- together, but no more than the limit.
pub collect_speaker_samples-length :
    {F : Floats} {Sample : Type 0} (samples : List Sample) (turns : List (SpeakerTurn F))
    (limit id : ℕ)
    → All (IsWithin (length samples)) turns
      × (length (collect_speaker_samples samples turns limit id)
          ≡ min limit (sum_by (turn_share (length samples) id) turns))
unfolding collect_speaker_samples
collect_speaker_samples-length samples turns limit id = (
  turns-IsWithin (length samples) turns,
  omega (arith, collect_from-length samples limit id turns (λ k. []) (omega arith)),
)
