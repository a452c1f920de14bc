-- ===== src/Analysis/Timeline.antt =====
-- mergeTurns of internal/analysisjob/manager.go makes a timeline.
use audio_server.Common.{
  ℕ, ◌<◌, ◌≤◌, ◌==◌, ltb, ◌≡◌, inl, inr, refl, ◌∙◌, ◌&&◌, ◌||◌, if_both, is_empty, false, arith,
  List, [], ◌∷◌, length, All, Bool-cases,
}
use audio_server.Int64.{Fits, times, quotient, to_ms-le_mono}
use audio_server.Analysis.Types.{Floats, SpeakerTurn, Segment}
use audio_server.Analysis.Merge.{
  boundaries, insert, sort, unique_after, unique, same_strings, speakers_in, add_segment,
  segment_of, merge_from, merge_all, reverse_onto, merge_turns,
}

-- Values from a bound on that do not fall, and values above a bound that rise.
abbrev pub Rises : ℕ → List ℕ → Type 0
Rises l [] = Unit
Rises l (x ∷ xs) = (l ≤ x) × Rises x xs

abbrev Above : ℕ → List ℕ → Type 0
Above l [] = Unit
Above l (x ∷ xs) = (l < x) × Above x xs

-- Values in strictly ascending order.
abbrev pub IsAscending : List ℕ → Type 0
IsAscending [] = Unit
IsAscending (x ∷ xs) = Above x xs

insert-Rises : (l x : ℕ) (xs : List ℕ) → l ≤ x → Rises l xs → Rises l (insert x xs)
unfolding insert
insert-Rises l x [] h r = (h, tt)
insert-Rises l x (y ∷ ys) h r = elim (Bool-cases (ltb y x)) [
  | inl c ↦ rw c (r.0, insert-Rises y x ys (ground (arith, c)) r.1)
  | inr c ↦ rw c (h, (ground (arith, c), r.1))
]

pub sort-Rises : (xs : List ℕ) → Rises 0 (sort xs)
unfolding sort
sort-Rises [] = tt
sort-Rises (x ∷ xs) = insert-Rises 0 x (sort xs) (omega arith) (sort-Rises xs)

unique_after-Above : (l : ℕ) (xs : List ℕ) → Rises l xs → Above l (unique_after l xs)
unfolding unique_after
unique_after-Above l [] r = tt
unique_after-Above l (x ∷ xs) r = elim (Bool-cases (l == x)) [
  | inl c ↦ rw c (unique_after-Above l xs (weaken l x xs (ground (arith, c)) r.1))
  | inr c ↦ rw c ((ground (arith, c, r.0)), unique_after-Above x xs r.1)
]
  where
    weaken : (l x : ℕ) (xs : List ℕ) → l ≤ x → Rises x xs → Rises l xs
    weaken l x [] h r = tt
    weaken l x (y ∷ ys) h r = (omega (arith, h, r.0), r.1)

pub unique-IsAscending : (xs : List ℕ) → Rises 0 xs → IsAscending (unique xs)
unfolding unique
unique-IsAscending [] r = tt
unique-IsAscending (x ∷ xs) r = unique_after-Above x xs r.1

is_empty-insert : (x : ℕ) (xs : List ℕ) → is_empty (insert x xs) ≡ false
unfolding insert
is_empty-insert x [] = refl
is_empty-insert x (y ∷ ys) = ground arith

is_empty-unique : (xs : List ℕ) → is_empty (unique xs) ≡ is_empty xs
unfolding unique
is_empty-unique [] = refl
is_empty-unique (x ∷ xs) = refl

is_empty-sort : (xs : List ℕ) → is_empty (sort xs) ≡ is_empty xs
unfolding sort
is_empty-sort [] = refl
is_empty-sort (x ∷ xs) = is_empty-insert x (sort xs)

-- The thousandfolds of the positions are int64.
abbrev pub AllFit : List ℕ → Type 0
AllFit = All Fits

insert-AllFit : (x : ℕ) (xs : List ℕ) → Fits x → AllFit xs → AllFit (insert x xs)
unfolding insert
insert-AllFit x [] f h = (f, tt)
insert-AllFit x (y ∷ ys) f h = if_both AllFit (ltb y x) _ _ (h.0, insert-AllFit x ys f h.1) (f, h)

sort-AllFit : (xs : List ℕ) → AllFit xs → AllFit (sort xs)
unfolding sort
sort-AllFit [] h = tt
sort-AllFit (x ∷ xs) h = insert-AllFit x (sort xs) h.0 (sort-AllFit xs h.1)

unique_after-AllFit : (l : ℕ) (xs : List ℕ) → AllFit xs → AllFit (unique_after l xs)
unfolding unique_after
unique_after-AllFit l [] h = tt
unique_after-AllFit l (x ∷ xs) h =
    if_both AllFit (l == x) _ _ (unique_after-AllFit l xs h.1) (h.0, unique_after-AllFit x xs h.1)

unique-AllFit : (xs : List ℕ) → AllFit xs → AllFit (unique xs)
unfolding unique
unique-AllFit [] h = tt
unique-AllFit (x ∷ xs) h = (h.0, unique_after-AllFit x xs h.1)

module _ {F : Floats} where
  -- A segment of at least one speaker, each named once, with its flag for overlap.
  pub record IsSegment (s : Segment F) : Type 0 where
    pub ascending : IsAscending s.speaker_ids
    pub spoken : is_empty s.speaker_ids ≡ false
    pub overlaps : s.overlap ≡ ltb 1 (length s.speaker_ids)
    pub forward : s.start_ms ≤ s.end_ms

  -- A turn whose start and end, in thousands, are int64.
  abbrev pub IsBounded : SpeakerTurn F → Type 0
  IsBounded t = Fits t.start_sample × Fits t.end_sample

  boundaries-AllFit : (ts : List (SpeakerTurn F)) → All IsBounded ts → AllFit (boundaries ts)
  unfolding boundaries
  boundaries-AllFit [] h = tt
  boundaries-AllFit (t ∷ ts) h =
      if_both AllFit (ltb t.start_sample t.end_sample) _ _
        (h.0.0, (h.0.1, boundaries-AllFit ts h.1)) (boundaries-AllFit ts h.1)

  -- Segments with the last one first, which ends by a time.
  abbrev EndsBy : ℕ → List (Segment F) → Type 0
  EndsBy m [] = Unit
  EndsBy m (s ∷ ss) = (s.end_ms ≤ m) × IsSegment s × EndsBy s.start_ms ss

  -- Segments one after the other from a time on.
  abbrev pub IsTimeline : ℕ → List (Segment F) → Type 0
  IsTimeline m [] = Unit
  IsTimeline m (s ∷ ss) = (m ≤ s.start_ms) × IsSegment s × IsTimeline s.end_ms ss

  add_segment-EndsBy :
      (s : Segment F) (done : List (Segment F))
      → IsSegment s
      → EndsBy s.start_ms done
      → EndsBy s.end_ms (add_segment s done)
  unfolding add_segment
  add_segment-EndsBy s [] ok h = (omega arith, ok, tt)
  add_segment-EndsBy s (last ∷ done) ok (le, ok', h) =
      if_both (EndsBy s.end_ms)
        ((last.end_ms == s.start_ms) && same_strings last.speaker_ids s.speaker_ids) _ _
        (
          omega arith,
          record {
            ascending = ok'.ascending;
            spoken = ok'.spoken;
            overlaps = ok'.overlaps;
            forward = omega (arith, ok'.forward, le, ok.forward);
          },
          h,
        )
        (omega arith, ok, (le, ok', h))

  later-EndsBy : (m n : ℕ) (done : List (Segment F)) → m ≤ n → EndsBy m done → EndsBy n done
  later-EndsBy m n [] h e = tt
  later-EndsBy m n (s ∷ ss) h (le, ok, rest) = (omega (arith, h, le), ok, rest)

  segment_of-IsSegment :
      (turns : List (SpeakerTurn F)) (rate start end : ℕ) (speakers : List ℕ)
      → 0 < rate
      → Fits start
      → Fits end
      → start ≤ end
      → is_empty speakers ≡ false
      → IsSegment (segment_of turns rate start end (unique (sort speakers)))
  unfolding segment_of
  segment_of-IsSegment turns rate start end speakers r f g le h = record {
    ascending = unique-IsAscending (sort speakers) (sort-Rises speakers);
    spoken = is_empty-unique (sort speakers) ∙ is_empty-sort speakers ∙ h;
    overlaps = refl;
    forward = to_ms-le_mono start end rate r f g le;
  }

  -- The time at which merged segments end.
  abbrev Ended : List (Segment F) → Type 0
  Ended done = (m : ℕ) × EndsBy m done

  merge_from-Ended :
      (turns : List (SpeakerTurn F)) (rate start : ℕ) (ends : List ℕ) (done : List (Segment F))
      → 0 < rate
      → AllFit (start ∷ ends)
      → Above start ends
      → EndsBy (quotient (times start 1000) rate) done
      → Ended (merge_from turns rate start ends done)
  unfolding merge_from
  merge_from-Ended turns rate start [] done r f a e = (quotient (times start 1000) rate, e)
  merge_from-Ended turns rate start (end ∷ ends) done r f a e =
      let speakers = speakers_in start end turns in
      let s = segment_of turns rate start end (unique (sort speakers)) in
      let le : quotient (times start 1000) rate ≤ quotient (times end 1000) rate =
        to_ms-le_mono start end rate r f.0 f.1.0 (omega (arith, a.0)) in
      elim (Bool-cases (is_empty (speakers_in start end turns))) [
        | inl h ↦ rw h (
            merge_from-Ended turns rate end ends done r f.1 a.1 (
              later-EndsBy (quotient (times start 1000) rate) (quotient (times end 1000) rate) done
                le e))
        | inr h ↦ rw h (
            merge_from-Ended turns rate end ends (add_segment s done) r f.1 a.1 (
              add_segment-EndsBy s done
                (segment_of-IsSegment turns rate start end (speakers_in start end turns) r f.0 f.1.0
                  (omega (arith, a.0)) h)
                e))
      ]

  later-IsTimeline : (m n : ℕ) (ss : List (Segment F)) → m ≤ n → IsTimeline n ss → IsTimeline m ss
  later-IsTimeline m n [] h t = tt
  later-IsTimeline m n (s ∷ ss) h (le, ok, t) = (omega (arith, h, le), ok, t)

  reverse_onto-IsTimeline :
      (m : ℕ) (ss done : List (Segment F))
      → EndsBy m ss
      → IsTimeline m done
      → IsTimeline 0 (reverse_onto ss done)
  unfolding reverse_onto
  reverse_onto-IsTimeline m [] done e t = later-IsTimeline 0 m done (omega arith) t
  reverse_onto-IsTimeline m (s ∷ ss) done (le, ok, e) t =
      reverse_onto-IsTimeline s.start_ms ss (s ∷ done) e
        (omega arith, ok, later-IsTimeline s.end_ms m done le t)

  merge_all-Ended :
      (turns : List (SpeakerTurn F)) (rate : ℕ) (bs : List ℕ)
      → 0 < rate
      → AllFit bs
      → IsAscending bs
      → Ended (merge_all turns rate bs)
  unfolding merge_all
  merge_all-Ended turns rate [] r f a = (0, tt)
  merge_all-Ended turns rate (start ∷ ends) r f a =
      merge_from-Ended turns rate start ends [] r f a tt

  -- For turns whose starts and ends, in thousands, are int64, and any sample rate, the segments that
  -- mergeTurns returns come one after the other without overlap in time, none ends before it starts,
  -- and each has at least one speaker, its speakers once each in ascending order, and the flag for
  -- overlap exactly if they are several.
  pub merge_turns-IsTimeline :
      (turns : List (SpeakerTurn F)) (rate : ℕ)
      → All IsBounded turns
      → IsTimeline 0 (merge_turns turns rate)
  unfolding merge_turns
  merge_turns-IsTimeline turns rate bounded = elim (Bool-cases ((rate == 0) || is_empty turns)) [
    | inl h ↦ rw h tt
    | inr h ↦ rw h (
        let bs = unique (sort (boundaries turns)) in
        let (m, e) =
          merge_all-Ended turns rate bs (ground (arith, h))
            (unique-AllFit (sort (boundaries turns))
              (sort-AllFit (boundaries turns) (boundaries-AllFit turns bounded)))
            (unique-IsAscending (sort (boundaries turns)) (sort-Rises (boundaries turns))) in
        reverse_onto-IsTimeline m (merge_all turns rate bs) [] e tt)
  ]
