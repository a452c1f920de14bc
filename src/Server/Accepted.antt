-- ===== src/Server/Accepted.antt =====
-- What internal/server/server.go knows of a speech request that decodeAndRoute lets through.
use audio_server.Common.{
  ℕ, suc, ◌≡◌, refl, ap, sym, ◌∙◌, subst, ◌≤◌, ◌&&◌, ◌||◌, not, is_empty, length, Bool, true, false,
  Bool-cases, Option, none, some, Option-cases, List, [], ◌∷◌, ◌⊎◌, inl, inr, get_elem?, arith,
}
use audio_server.Segment.Text.{Text}
use audio_server.Server.Text.{
  Letters, text_eq, trim, equal_fold, auto, request_language, normalized_format,
}
use audio_server.Server.Types.{
  SpeechRequest, Provider, Voice, Failure, is_zero, below_quarter, above_four,
}
use audio_server.Server.Setup.{Config, Server, new}
use audio_server.Server.Route.{
  validate_speech, is_supported, supports_auto_language, find_voice, choose_voice, voice_or_auto,
  with_voice, resolve_voice, provider_for, status_of, Routed, routed, rejected, takes_reference,
  routed_to, route_to, with_format, decode_and_route,
}
use audio_server.Server.Known.{IsConfigured, Known, provider_for-new}

-- The voice is auto or a voice of the catalog that the asked one names.
abbrev pub IsOffered : Letters → Text → Text → List Voice → Type 0
IsOffered u asked voice catalog =
    ((voice ≡ auto) × (equal_fold u (voice_or_auto asked) auto ≡ true))
    ⊎ ((i : ℕ) × (v : Voice) × (get_elem? catalog i ≡ some v)
        × (v.voice ≡ voice)
        × (equal_fold u (trim v.voice) (voice_or_auto asked) ≡ true))

pub record IsValid (u : Letters) (s : Server) (req : SpeechRequest) : Type 0 where
  has_input : is_empty (trim req.input) ≡ false
  fits : length req.input ≤ s.max_input_chars
  format_supported : is_supported (normalized_format u req.response_format) ≡ true
  speed_in_range :
      (is_zero req.speed ≡ true)
      ⊎ ((below_quarter req.speed ≡ false) × (above_four req.speed ≡ false))

-- The request `req` became `out`, for the provider `p`.
pub record IsResolved (u : Letters) (p : Provider) (req out : SpeechRequest) : Type 0 where
  language_set : out.language ≡ request_language u req.language
  auto_allowed : (text_eq out.language auto && not (supports_auto_language p)) ≡ false
  offered :
      (catalog : List Voice) × (p.voices out.language ≡ inr catalog)
      × (is_empty catalog ≡ false)
      × IsOffered u req.voice out.voice catalog
  only : out ≡ record req { language = out.language; voice = out.voice }

find_voice-found :
    (u : Letters) (asked : Text) (catalog : List Voice) (voice : Text)
    → find_voice u asked catalog ≡ some voice
    → (i : ℕ) × (v : Voice) × (get_elem? catalog i ≡ some v)
      × (v.voice ≡ voice)
      × (equal_fold u (trim v.voice) asked ≡ true)
unfolding find_voice
find_voice-found u asked [] voice h = ground (arith, h)
find_voice-found u asked (v ∷ vs) voice h = elim (Bool-cases (equal_fold u (trim v.voice) asked)) [
  | inl e ↦ (0, v, refl, ground (arith, h, e), e)
  | inr e ↦
      let (i, v', at, same, named) = find_voice-found u asked vs voice (ground (arith, h, e)) in
      (suc i, v', at, same, named)
]

choose_voice-IsOffered :
    (u : Letters) (asked : Text) (answer : Failure ⊎ List Voice) (voice : Text)
    → choose_voice u (voice_or_auto asked) answer ≡ inr voice
    → (catalog : List Voice) × (answer ≡ inr catalog)
      × (is_empty catalog ≡ false)
      × IsOffered u asked voice catalog
unfolding choose_voice
choose_voice-IsOffered u asked (inl e) voice h = ground (arith, h)
choose_voice-IsOffered u asked (inr []) voice h = ground (arith, h)
choose_voice-IsOffered u asked (inr (v ∷ vs)) voice h =
    elim (Bool-cases (equal_fold u (voice_or_auto asked) auto)) [
      | inl e ↦ (v ∷ vs, refl, refl, inl (ground (arith, h, e), e))
      | inr e ↦ (
        v ∷ vs,
        refl,
        refl,
        inr (find_voice-found u (voice_or_auto asked) (v ∷ vs) voice (ground (arith, h, e))),
      )
    ]

with_voice-choice :
    (language : Text) (req out : SpeechRequest) (r : Failure ⊎ Text)
    → with_voice language req r ≡ inr out
    → (r ≡ inr out.voice)
      × (out.language ≡ language)
      × (out ≡ record req { language = language; voice = out.voice })
with_voice-choice language req out (inl e) h = ground (arith, h)
with_voice-choice language req out (inr v) h = subst Chosen (ground (arith, h)) (refl, refl, refl)
  where
    Chosen : SpeechRequest → Type 0
    Chosen o =
        (◌≡◌ {A = Failure ⊎ Text} (inr v) (inr o.voice))
        × (o.language ≡ language)
        × (o ≡ record req { language = language; voice = o.voice })

resolve_voice-IsResolved :
    (u : Letters) (p : Provider) (req out : SpeechRequest)
    → resolve_voice u p req ≡ inr out
    → IsResolved u p req out
unfolding resolve_voice
resolve_voice-IsResolved u p req out h =
    elim (Bool-cases
      (text_eq (request_language u req.language) auto && not (supports_auto_language p))) [
        | inl e ↦ ground (arith, h, e)
        | inr e ↦
            let language = request_language u req.language in
            let (answer, set, only) =
              with_voice-choice language req out
                (choose_voice u (voice_or_auto req.voice) (p.voices language))
                (ground (arith, h, e)) in
            let (catalog, found, filled, named) =
              choose_voice-IsOffered u req.voice (p.voices language) out.voice answer in
            record {
              language_set = set;
              auto_allowed =
                  subst (λ l. (text_eq l auto && not (supports_auto_language p)) ≡ false) (sym set)
                    e;
              offered = (catalog, ap p.voices set ∙ found, filled, named);
              only = only ∙ ap (λ l. record req { language = l; voice = out.voice }) (sym set);
            }
      ]

validate_speech-IsValid :
    (u : Letters) (s : Server) (req : SpeechRequest)
    → validate_speech u s req ≡ none
    → IsValid u s req
unfolding validate_speech
validate_speech-IsValid u s req h = record {
  has_input = ground (arith, h);
  fits = ground (arith, h);
  format_supported = ground (arith, h);
  speed_in_range = ground (arith, h);
}

-- What holds of the request `req`, let through as `out` to the provider `p`.
pub record IsAccepted (u : Letters) (cfg : Config) (s : Server) (req out : SpeechRequest)
    (p : Provider) : Type 0 where
  valid : IsValid u s req
  known : provider_for u s req.model req.language ≡ (some p, true)
  configured : IsConfigured cfg p
  reference_taken : (is_empty req.speaker_reference || takes_reference p) ≡ true
  resolved : IsResolved u p (with_format u req) out

abbrev pub IsErrorStatus : ℕ → Type 0
IsErrorStatus code = (code ≡ 400) ⊎ (code ≡ 500) ⊎ (code ≡ 503) ⊎ (code ≡ 504)

pub status_of-IsErrorStatus : (e : Failure) → IsErrorStatus (status_of e)
status_of-IsErrorStatus e = ground arith

abbrev pub Outcome : Letters → Config → Server → Option SpeechRequest → Routed → Type 0
Outcome u cfg s sent r =
    ((code : ℕ) × (r ≡ rejected code) × IsErrorStatus code)
    ⊎ ((req out : SpeechRequest) × (p : Provider) × (sent ≡ some req)
        × (r ≡ routed out p)
        × IsAccepted u cfg s req out p)

route_to-unknown :
    (u : Letters) (req : SpeechRequest) (answer : Option Provider × Bool)
    → answer.1 ≡ false
    → route_to u req answer ≡ rejected 400
unfolding route_to
route_to-unknown u req (p, false) h = refl
route_to-unknown u req (none, true) h = ground (arith, h)
route_to-unknown u req (some p, true) h = ground (arith, h)

routed_to-Outcome :
    (u : Letters) (cfg : Config) (s : Server) (req : SpeechRequest) (p : Provider)
    → IsValid u s req
    → provider_for u s req.model req.language ≡ (some p, true)
    → IsConfigured cfg p
    → (is_empty req.speaker_reference || takes_reference p) ≡ true
    → (answer : Failure ⊎ SpeechRequest) → resolve_voice u p (with_format u req) ≡ answer
    → Outcome u cfg s (some req) (routed_to p answer)
routed_to-Outcome u cfg s req p v k c t (inl e) q =
    inl (status_of e, refl, status_of-IsErrorStatus e)
routed_to-Outcome u cfg s req p v k c t (inr out) q = inr (
  req,
  out,
  p,
  refl,
  refl,
  record {
    valid = v;
    known = k;
    configured = c;
    reference_taken = t;
    resolved = resolve_voice-IsResolved u p _ out q;
  },
)

route_to-Outcome :
    (u : Letters) (cfg : Config) (s : Server) (req : SpeechRequest)
    → IsValid u s req
    → Known u cfg s req.model req.language
    → Outcome u cfg s
        (some req)
        (route_to u (with_format u req) (provider_for u s req.model req.language))
unfolding route_to
route_to-Outcome u cfg s req v (inl (k, _)) = inl (
  400,
  route_to-unknown u (with_format u req) (provider_for u s req.model req.language) k,
  inl refl,
)
route_to-Outcome u cfg s req v (inr (p, k, c)) =
    elim (Bool-cases (not (is_empty req.speaker_reference) && not (takes_reference p))) [
      | inl t ↦ inl (400, rw (k, t) refl, inl refl)
      | inr t ↦ rw (k, t) (routed_to-Outcome u cfg s req p v k c (ground (arith, t)) _ refl)
    ]

-- A request to a server that New made is rejected with one of the error statuses, or goes to a
-- provider of the configuration: then its text is not blank and within the limit, its format, its
-- speed, its language and its voice are ones that the server and the provider take, it has a
-- speaker reference only if the provider takes them, and only its format, its language and its
-- voice were changed. No provider that it meets is nil.
pub decode_and_route-IsAccepted :
    (u : Letters) (cfg : Config) (s : Server) (sent : Option SpeechRequest)
    → new cfg ≡ inr s
    → Outcome u cfg s sent (decode_and_route u s sent)
unfolding decode_and_route
decode_and_route-IsAccepted u cfg s none made = inl (400, refl, inl refl)
decode_and_route-IsAccepted u cfg s (some req) made =
    elim (Option-cases (validate_speech u s req)) [
      | inl q ↦ rw q (
          route_to-Outcome u cfg s req (validate_speech-IsValid u s req q)
            (provider_for-new u cfg s req.model req.language made))
      | inr (e, q) ↦ inl (400, rw q refl, inl refl)
    ]
