-- ===== src/Corpus/Windows.antt =====
-- The windows that Finish of internal/sttcorpus/sttcorpus.go cuts out of the audio of a session,
-- for times that do not overflow.
use audio_server.Common.{
  ℕ, zero, suc, List, [], ◌∷◌, All, get_elem?, ◌+◌, ◌-◌, ◌*◌, ◌/◌, ◌≤◌, ◌<◌, ◌≡◌, ◌∙◌, inl, inr,
  sym, ap, subst, is_empty, false, some, arith, length, leb, Bool-cases,
}
use native.Mathlib.Nat.{add-mul, mul-le-mul_right}
use audio_server.Int64.{origin, times, plus, quotient}
use audio_server.Corpus.Types.{Line, Session}
use audio_server.Corpus.Record.{byte_offset, window_of, window}

-- A time within 2^31 milliseconds of 0.
abbrev IsNear : ℕ → Type 0
IsNear p = (origin ≤ p + 2147483647) × (p ≤ origin + 2147483647)

times-above : (a k : ℕ) → a ≤ 2147483647 → k < 4294967296 → times (origin + a) k ≡ origin + a * k
unfolding times
times-above a k h g = omega (arith, add-mul origin a k, mul-le-mul_right k h, g)

times-below :
    (p b k : ℕ) → p + b ≡ origin → b ≤ 2147483647 → k < 4294967296 → times p k ≡ origin - b * k
unfolding times
times-below p b k e h g =
    omega (arith, sym (add-mul p b k) ∙ ap (λ x. x * k) e, mul-le-mul_right k h, g)

offset_above :
    (a k : ℕ)
    → a ≤ 2147483647
    → k < 4294967296
    → byte_offset (origin + a) k ≡ origin + a * k / 1000 * 2
unfolding byte_offset times quotient
offset_above a k h g = rw (times-above a k h g) (ground (arith, mul-le-mul_right k h, g))

offset_below :
    (p b k : ℕ) → p + b ≡ origin → b ≤ 2147483647 → k < 4294967296 → byte_offset p k ≤ origin
unfolding byte_offset times quotient
offset_below p b k e h g = rw (times-below p b k e h g) (ground (arith, mul-le-mul_right k h, g))

byte_offset-value :
    (p k : ℕ) → IsNear p → k < 4294967296 → byte_offset p k - origin ≡ (p - origin) * k / 1000 * 2
byte_offset-value p k (a, b) g = elim (Bool-cases (leb origin p)) [
  | inl h ↦
      (let e : origin + (p - origin) ≡ p = ground arith in
        subst (λ x. byte_offset x k - origin ≡ (p - origin) * k / 1000 * 2) e
          (omega (arith, offset_above (p - origin) k (omega arith) g)))
  | inr h ↦
      (let z : p - origin ≡ 0 = ground arith in
        rw z (ground (arith, offset_below p (origin - p) k (ground arith) (ground arith) g)))
]

plus-near :
    (p d : ℕ)
    → p ≤ origin + 1073741823
    → origin < d
    → d ≤ origin + 1073741823
    → plus p d ≡ p + d - origin
unfolding plus
plus-near p d h a b = omega (arith, h, a, b)

-- A line within 2^30 milliseconds of the start of the session, and at most as long.
pub record IsTimed (l : Line) : Type 0 where
  pub after : origin ≤ l.start_ms + 1073741823
  pub before : l.start_ms ≤ origin + 1073741823
  pub short : l.duration_ms ≤ origin + 1073741823

-- The window of a line: from the samples at its start to those at its end, inside the audio.
pub record IsCut (s : Session) (l : Line) (w : ℕ × ℕ) : Type 0 where
  pub starts : w.0 ≡ (l.start_ms - origin) * s.sample_rate / 1000 * 2
  pub ends : w.1 ≡ (l.start_ms + l.duration_ms - origin - origin) * s.sample_rate / 1000 * 2
  pub ordered : w.0 < w.1
  pub inside : w.1 ≤ length s.pcm
  pub said : is_empty l.text ≡ false
  pub lasts : origin < l.duration_ms

-- What window_of answers with.
window_of-some :
    (size start end : ℕ) (w : ℕ × ℕ)
    → window_of size start end ≡ some w
    → (w.0 ≡ start - origin) × (w.1 ≡ end - origin) × (w.0 < w.1) × (w.1 ≤ size)
unfolding window_of
window_of-some size start end (a, b) h =
    (ground (arith, h), ground (arith, h), ground (arith, h), ground (arith, h))

window-some :
    (s : Session) (l : Line) (w : ℕ × ℕ)
    → window s l ≡ some w
    → (is_empty l.text ≡ false)
      × (origin < l.duration_ms)
      × (window_of
            (length s.pcm)
            (byte_offset l.start_ms s.sample_rate)
            (byte_offset (plus l.start_ms l.duration_ms) s.sample_rate)
          ≡ some w)
unfolding window
window-some s l w h = ground (arith, h)

pub window-IsCut :
    (s : Session) (l : Line) (w : ℕ × ℕ)
    → s.sample_rate < 4294967296
    → IsTimed l
    → window s l ≡ some w
    → IsCut s l w
window-IsCut s l w g t h =
    let (said, lasts, h') = window-some s l w h in
    let (a, b, c, d) =
      window_of-some (length s.pcm) (byte_offset l.start_ms s.sample_rate)
        (byte_offset (plus l.start_ms l.duration_ms) s.sample_rate) w h' in
    let e = plus-near l.start_ms l.duration_ms t.before lasts t.short in
    record {
      starts =
          a
          ∙ byte_offset-value l.start_ms s.sample_rate
              (omega (arith, t.after), omega (arith, t.before)) g;
      ends =
          b
          ∙ ap (λ x. byte_offset x s.sample_rate - origin) e
          ∙ byte_offset-value (l.start_ms + l.duration_ms - origin) s.sample_rate
              (omega (arith, t.after, lasts), omega (arith, t.before, t.short)) g;
      ordered = c;
      inside = d;
      said = said;
      lasts = lasts;
    }

pub get_elem?-All :
    (P : Line → Type 0) (ls : List Line) (i : ℕ) (l : Line)
    → All P ls
    → get_elem? ls i ≡ some l
    → P l
get_elem?-All P [] i l h e = absurd (ground (arith, e))
get_elem?-All P (x ∷ ls) zero l h e = subst P (ground (arith, e)) h.0
get_elem?-All P (x ∷ ls) (suc i) l h e = get_elem?-All P ls i l h.1 e
