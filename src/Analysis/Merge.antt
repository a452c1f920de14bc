-- ===== src/Analysis/Merge.antt =====
-- mergeTurns of internal/analysisjob/manager.go. The segments so far are a list with the last one
-- first.
use audio_server.Common.{
  ℕ, ◌==◌, ltb, ◌&&◌, ◌||◌, if◌then◌else◌, is_empty, Bool, true, false, List, [], ◌∷◌, length,
}
use audio_server.Int64.{times, quotient}
use audio_server.Analysis.Types.{Floats, SpeakerTurn, Segment}

-- The boundaries of the turns that are not empty.
unfoldable pub boundaries : {F : Floats} → List (SpeakerTurn F) → List ℕ
boundaries [] = []
boundaries (t ∷ ts) =
    let rest = boundaries ts in
    if ltb t.start_sample t.end_sample then t.start_sample ∷ t.end_sample ∷ rest else rest

-- sort.Slice and sort.Strings on keys, which are equal only if they are the same.
unfoldable pub insert : ℕ → List ℕ → List ℕ
insert x [] = x ∷ []
insert x (y ∷ ys) = let rest = insert x ys in if ltb y x then y ∷ rest else x ∷ y ∷ ys

unfoldable pub sort : List ℕ → List ℕ
unfolding insert
sort [] = []
sort (x ∷ xs) = insert x (sort xs)

-- The loops that leave out a value equal to the last one kept.
unfoldable pub unique_after : ℕ → List ℕ → List ℕ
unique_after last [] = []
unique_after last (x ∷ xs) =
    let same = unique_after last xs in
    let rest = unique_after x xs in if last == x then same else x ∷ rest

unfoldable pub unique : List ℕ → List ℕ
unfolding unique_after
unique [] = []
unique (x ∷ xs) = x ∷ unique_after x xs

unfoldable pub same_strings : List ℕ → List ℕ → Bool
same_strings [] [] = true
same_strings [] (y ∷ ys) = false
same_strings (x ∷ xs) [] = false
same_strings (x ∷ xs) (y ∷ ys) = (x == y) && same_strings xs ys

module _ {F : Floats} where
  abbrev speaks : ℕ → ℕ → SpeakerTurn F → Bool
  speaks start end t = ltb t.start_sample end && ltb start t.end_sample

  unfoldable pub speakers_in : ℕ → ℕ → List (SpeakerTurn F) → List ℕ
  speakers_in start end [] = []
  speakers_in start end (t ∷ ts) =
      let rest = speakers_in start end ts in
      if speaks start end t then t.speaker_id ∷ rest else rest

  unfoldable pub confidence_in : ℕ → ℕ → F.Float → List (SpeakerTurn F) → F.Float
  confidence_in start end sum [] = sum
  confidence_in start end sum (t ∷ ts) =
      confidence_in start end (if speaks start end t then F.add sum t.confidence else sum) ts

  -- A segment that goes on where the last one of the same speakers ends is joined to it.
  unfoldable pub add_segment : Segment F → List (Segment F) → List (Segment F)
  unfolding same_strings
  add_segment s [] = s ∷ []
  add_segment s (last ∷ done) =
      if (last.end_ms == s.start_ms) && same_strings last.speaker_ids s.speaker_ids
      then record last {
        end_ms = s.end_ms;
        confidence = F.over (F.add last.confidence s.confidence) 2;
      }
        ∷ done
      else s ∷ last ∷ done

  unfoldable pub segment_of : List (SpeakerTurn F) → ℕ → ℕ → ℕ → List ℕ → Segment F
  unfolding confidence_in times quotient
  segment_of turns rate start end speakers = record {
    start_ms = quotient (times start 1000) rate;
    end_ms = quotient (times end 1000) rate;
    speaker_ids = speakers;
    confidence = F.over (confidence_in start end F.zero turns) (length speakers);
    overlap = ltb 1 (length speakers);
    text = [];
  }

  -- The loop over the pairs of neighbouring boundaries.
  unfoldable pub merge_from :
      List (SpeakerTurn F) → ℕ → ℕ → List ℕ → List (Segment F) → List (Segment F)
  unfolding speakers_in sort unique add_segment segment_of
  merge_from turns rate start [] done = done
  merge_from turns rate start (end ∷ ends) done =
      let speakers = speakers_in start end turns in
      let s = segment_of turns rate start end (unique (sort speakers)) in
      merge_from turns rate end ends (if is_empty speakers then done else add_segment s done)

  unfoldable pub merge_all : List (SpeakerTurn F) → ℕ → List ℕ → List (Segment F)
  unfolding merge_from
  merge_all turns rate [] = []
  merge_all turns rate (start ∷ ends) = merge_from turns rate start ends []

  unfoldable pub reverse_onto : List (Segment F) → List (Segment F) → List (Segment F)
  reverse_onto [] done = done
  reverse_onto (s ∷ ss) done = reverse_onto ss (s ∷ done)

  unfoldable pub merge_turns : List (SpeakerTurn F) → ℕ → List (Segment F)
  unfolding boundaries sort unique merge_all reverse_onto
  merge_turns turns rate =
      if (rate == 0) || is_empty turns
      then []
      else reverse_onto (merge_all turns rate (unique (sort (boundaries turns)))) []
