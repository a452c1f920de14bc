-- ===== src/Server/Decoded.antt =====
-- The requests that decodeMultipartSpeechRequest of internal/server/server.go makes of forms.
use audio_server.Common.{
  ℕ, ◌==◌, ◌≡◌, ◌≢◌, ◌≤◌, refl, ap, subst, sym, is_empty, length, true, false, Bool-cases, Option,
  none, some, List, [], ◌∷◌, ◌⊎◌, inl, inr, All, arith,
}
use audio_server.Segment.Text.{Text}
use audio_server.Server.Text.{trim}
use audio_server.Server.Types.{SpeechRequest, finite}
use audio_server.Server.Form.{
  model_field, input_field, voice_field, language_field, response_format_field,
  provider_options_field, speaker_reference_text_field, Field, FileField, speaker_reference_file,
  emotion_reference_file, unknown_file, code, Upload, Form, Parsers, FormError, bad_speed,
  bad_stream, check_values, check_files, speaker_files, form_value, speed_field, stream_field,
  parsed, filled, with_reference, text_fields, checked, decode_form, ◌>>=◌,
}

-- A known field of values, given at most once; and a known field of files, with one file.
abbrev pub IsKnownValue : Field × List Text → Type 0
IsKnownValue entry = ((code entry.0 == 0) ≡ false) × (length entry.1 ≤ 1)

abbrev pub IsKnownFile : FileField × List Upload → Type 0
IsKnownFile entry = (entry.0 ≡ speaker_reference_file) × (length entry.1 ≡ 1)

-- A field that is blank, with its default, or that parses.
abbrev pub IsParsed : {A : Type 0} → A → (Text → Option A) → Text → A → Type 0
IsParsed default parse raw value =
    ((is_empty (trim raw) ≡ true) × (value ≡ default)) ⊎ (parse (trim raw) ≡ some value)

-- The reference of a request: none, or the content of the only file, which is not empty.
abbrev pub HasReference : List Upload → SpeechRequest → Type 0
HasReference files req =
    ((length files ≢ 1) × (req.speaker_reference ≡ []) × (req.speaker_reference_filename ≡ []))
    ⊎ ((upload : Upload) × (files ≡ upload ∷ [])
        × (upload.content ≡ some req.speaker_reference)
        × (is_empty req.speaker_reference ≡ false)
        × (req.speaker_reference_filename ≡ upload.filename))

pub record IsDecoded (ps : Parsers) (form : Form) (req : SpeechRequest) : Type 0 where
  values_known : All IsKnownValue form.values
  files_known : All IsKnownFile form.files
  speed_parsed : IsParsed (finite false 0) ps.parse_float (form_value speed_field form) req.speed
  stream_parsed : IsParsed false ps.parse_bool (form_value stream_field form) req.stream
  reference : HasReference (speaker_files form.files) req
  same_model : req.model ≡ form_value model_field form
  same_input : req.input ≡ form_value input_field form
  same_voice : req.voice ≡ form_value voice_field form
  same_language : req.language ≡ form_value language_field form
  same_format : req.response_format ≡ form_value response_format_field form
  same_options : req.provider_options ≡ trim (form_value provider_options_field form)
  same_reference_text : req.speaker_reference_text ≡ form_value speaker_reference_text_field form

check_values-All :
    (values : List (Field × List Text)) → check_values values ≡ none → All IsKnownValue values
unfolding check_values
check_values-All [] h = tt
check_values-All ((f, vs) ∷ rest) h =
    ((ground (arith, h), ground (arith, h)), check_values-All rest (ground (arith, h)))

check_files-All :
    (files : List (FileField × List Upload)) → check_files files ≡ none → All IsKnownFile files
unfolding check_files
check_files-All [] h = tt
check_files-All ((speaker_reference_file, us) ∷ rest) h =
    ((refl, ground (arith, h)), check_files-All rest (ground (arith, h)))
check_files-All ((emotion_reference_file, us) ∷ rest) h = ground (arith, h)
check_files-All ((unknown_file name, us) ∷ rest) h = ground (arith, h)

parsed-IsParsed :
    {A : Type 0} (e : FormError) (default : A) (parse : Text → Option A) (raw : Text) (value : A)
    → parsed e default parse raw ≡ inr value
    → IsParsed default parse raw value
unfolding parsed
parsed-IsParsed e default parse raw value h = elim (Bool-cases (is_empty (trim raw))) [
  | inl b ↦ inl (b, ground (arith, h, b))
  | inr b ↦ inr (ground (arith, h, b))
]

checked-none : (o : Option FormError) (u : Unit {0}) → checked o ≡ inr u → o ≡ none
checked-none none u h = refl
checked-none (some e) u h = ground (arith, h)

then_inv :
    {A B : Type 0} (r : FormError ⊎ A) (k : A → FormError ⊎ B) (b : B)
    → (r >>= k) ≡ inr b
    → (a : A) × (r ≡ inr a) × (k a ≡ inr b)
then_inv (inl e) k b h = ground (arith, h)
then_inv (inr a) k b h = (a, refl, h)

-- A request that differs from `req` at most in its reference.
abbrev Only : SpeechRequest → SpeechRequest → Type 0
Only req out = out ≡ record req {
  speaker_reference = out.speaker_reference;
  speaker_reference_filename = out.speaker_reference_filename;
}

abbrev Referenced : List Upload → SpeechRequest → SpeechRequest → Type 0
Referenced files req out = HasReference files out × Only req out

filled-Referenced :
    (upload : Upload) (content : Option (List ℕ)) (req out : SpeechRequest)
    → upload.content ≡ content
    → filled upload.filename content req ≡ inr out
    → Referenced (upload ∷ []) req out
filled-Referenced upload none req out q h = ground (arith, h)
filled-Referenced upload (some []) req out q h = ground (arith, h)
filled-Referenced upload (some (b ∷ bs)) req out q h =
    subst (Referenced (upload ∷ []) req) (ground (arith, h))
      (inr (upload, refl, q, refl, refl), refl)

with_reference-Referenced :
    (files : List Upload) (req out : SpeechRequest)
    → req.speaker_reference ≡ []
    → req.speaker_reference_filename ≡ []
    → with_reference files req ≡ inr out
    → Referenced files req out
unfolding with_reference
with_reference-Referenced [] req out r f h =
    subst (Referenced [] req) (ground (arith, h)) (inl ((λ z. ground (arith, z)), r, f), refl)
with_reference-Referenced (u ∷ []) req out r f h = filled-Referenced u u.content req out refl h
with_reference-Referenced (u ∷ v ∷ us) req out r f h =
    subst (Referenced (u ∷ v ∷ us) req) (ground (arith, h))
      (inl ((λ z. ground (arith, z)), r, f), refl)

-- A request that is made of a form: each field of values in the body is known and was given at most
-- once; each text of the request is the first value of its own field, where the values in the URL
-- come before those of the body; a speed and a stream flag that are not blank were parsed; the only
-- kind of file is the speaker reference, which is a single one that is not empty and is the request's
-- reference, and without one the request has none.
pub decode_form-IsDecoded :
    (ps : Parsers) (form : Form) (req : SpeechRequest)
    → decode_form ps form ≡ inr req
    → IsDecoded ps form req
unfolding decode_form text_fields
decode_form-IsDecoded ps form req h =
    let (_, v, h1) = then_inv (checked (check_values form.values)) _ req h in
    let (_, f, h2) = then_inv (checked (check_files form.files)) _ req h1 in
    let (speed, s, h3) =
      then_inv (parsed bad_speed (finite false 0) ps.parse_float (form_value speed_field form)) _
        req h2 in
    let (stream, t, h4) =
      then_inv (parsed bad_stream false ps.parse_bool (form_value stream_field form)) _ req h3 in
    let base = record (text_fields form) { speed = speed; stream = stream } in
    let (reference, only) =
      with_reference-Referenced (speaker_files form.files) base req refl refl h4 in
    let same_speed = ap (λ r. r.speed) only in
    let same_stream = ap (λ r. r.stream) only in
    record {
      values_known = check_values-All form.values (checked-none (check_values form.values) _ v);
      files_known = check_files-All form.files (checked-none (check_files form.files) _ f);
      speed_parsed =
          subst (IsParsed (finite false 0) ps.parse_float (form_value speed_field form))
            (sym same_speed)
            (parsed-IsParsed bad_speed (finite false 0) ps.parse_float (form_value speed_field form)
              speed s);
      stream_parsed =
          subst (IsParsed false ps.parse_bool (form_value stream_field form)) (sym same_stream) (
            parsed-IsParsed bad_stream false ps.parse_bool (form_value stream_field form) stream t);
      reference = reference;
      same_model = ap (λ r. r.model) only;
      same_input = ap (λ r. r.input) only;
      same_voice = ap (λ r. r.voice) only;
      same_language = ap (λ r. r.language) only;
      same_format = ap (λ r. r.response_format) only;
      same_options = ap (λ r. r.provider_options) only;
      same_reference_text = ap (λ r. r.speaker_reference_text) only;
    }
