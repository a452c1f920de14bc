-- ===== src/Server/Form.antt =====
-- decodeMultipartSpeechRequest of internal/server/server.go, over the form that package
-- mime/multipart has parsed. The entries stand in the order in which Go ranges over its maps, which
-- may be any; a known key stands there once.
use audio_server.Common.{
  ℕ, ltb, ◌==◌, ◌++◌, if◌then◌else◌, is_empty, length, Bool, false, Option, none, some, List, [],
  ◌∷◌, ◌⊎◌, inl, inr,
}
use audio_server.Segment.Text.{Text}
use audio_server.Server.Text.{trim}
use audio_server.Server.Types.{Float, SpeechRequest, finite}

-- The names of the fields with values; a name that the code does not know is `unknown_value`.
pub data Field : Type 0 where
  model_field input_field voice_field language_field response_format_field : Field
  speed_field stream_field provider_options_field speaker_reference_text_field : Field
  unknown_value : Text → Field

-- The names of the fields with files.
pub data FileField : Type 0 where
  speaker_reference_file emotion_reference_file : FileField
  unknown_file : Text → FileField

abbrev pub code : Field → ℕ
code model_field = 1
code input_field = 2
code voice_field = 3
code language_field = 4
code response_format_field = 5
code speed_field = 6
code stream_field = 7
code provider_options_field = 8
code speaker_reference_text_field = 9
code (unknown_value name) = 0

-- An uploaded file; `content` is `none` where it cannot be opened or read.
pub record Upload : Type 0 where
  pub filename : Text
  pub content : Option (List ℕ)

-- `query` has the values in the URL, which FormValue reads before the form's.
pub record Form : Type 0 where
  pub query : List (Field × List Text)
  pub values : List (Field × List Text)
  pub files : List (FileField × List Upload)

-- strconv.ParseFloat and strconv.ParseBool.
pub record Parsers : Type 0 where
  pub parse_float : Text → Option Float
  pub parse_bool : Text → Option Bool

pub data FormError : Type 0 where
  unknown_field repeated_field separate_emotion unknown_file_field many_files : FormError
  bad_speed bad_stream unreadable_file empty_file : FormError

unfoldable pub check_values : List (Field × List Text) → Option FormError
check_values [] = none
check_values ((f, vs) ∷ rest) =
    let later = check_values rest in
    if code f == 0
    then some unknown_field
    else if ltb 1 (length vs)
    then some repeated_field
    else later

unfoldable pub check_files : List (FileField × List Upload) → Option FormError
check_files [] = none
check_files ((emotion_reference_file, us) ∷ rest) = some separate_emotion
check_files ((unknown_file name, us) ∷ rest) = some unknown_file_field
check_files ((speaker_reference_file, us) ∷ rest) =
    let later = check_files rest in if length us == 1 then later else some many_files

-- All values of a field, in the order of the entries.
unfoldable pub values_of : Field → List (Field × List Text) → List Text
values_of f [] = []
values_of f ((g, vs) ∷ rest) =
    let later = values_of f rest in if code f == code g then vs ++ later else later

abbrev pub first : List Text → Text
first [] = []
first (v ∷ vs) = v

-- http.Request.FormValue.
unfoldable pub form_value : Field → Form → Text
unfolding values_of
form_value f form = first (values_of f form.query ++ values_of f form.values)

unfoldable pub speaker_files : List (FileField × List Upload) → List Upload
speaker_files [] = []
speaker_files ((speaker_reference_file, us) ∷ rest) = us ++ speaker_files rest
speaker_files ((emotion_reference_file, us) ∷ rest) = speaker_files rest
speaker_files ((unknown_file name, us) ∷ rest) = speaker_files rest

abbrev pub or_error : {A : Type 0} → FormError → Option A → FormError ⊎ A
or_error e none = inl e
or_error e (some a) = inr a

-- A blank field leaves the default; another one has to parse.
unfoldable pub parsed : {A : Type 0} → FormError → A → (Text → Option A) → Text → FormError ⊎ A
unfolding trim
parsed e default parse raw =
    if is_empty (trim raw) then inr default else or_error e (parse (trim raw))

abbrev pub filled : Text → Option (List ℕ) → SpeechRequest → FormError ⊎ SpeechRequest
filled name none req = inl unreadable_file
filled name (some []) req = inl empty_file
filled name (some (b ∷ bs)) req =
    inr (record req { speaker_reference = b ∷ bs; speaker_reference_filename = name })

-- Only a single file is read.
unfoldable pub with_reference : List Upload → SpeechRequest → FormError ⊎ SpeechRequest
with_reference (upload ∷ []) req = filled upload.filename upload.content req
with_reference [] req = inr req
with_reference (u ∷ v ∷ us) req = inr req

unfoldable pub text_fields : Form → SpeechRequest
unfolding form_value trim
text_fields form = record {
  model = form_value model_field form;
  input = form_value input_field form;
  voice = form_value voice_field form;
  language = form_value language_field form;
  response_format = form_value response_format_field form;
  speed = finite false 0;
  provider_options = trim (form_value provider_options_field form);
  stream = false;
  speaker_reference = [];
  speaker_reference_filename = [];
  speaker_reference_text = form_value speaker_reference_text_field form;
}

infixl 20 ◌>>=◌
abbrev pub ◌>>=◌ : {A B : Type 0} → FormError ⊎ A → (A → FormError ⊎ B) → FormError ⊎ B
inl e >>= k = inl e
inr a >>= k = k a

abbrev pub checked : Option FormError → FormError ⊎ Unit {0}
checked none = inr tt
checked (some e) = inl e

unfoldable pub decode_form : Parsers → Form → FormError ⊎ SpeechRequest
unfolding check_values check_files form_value parsed text_fields with_reference speaker_files
decode_form ps form = do
  _ ← checked (check_values form.values)
  _ ← checked (check_files form.files)
  speed ← parsed bad_speed (finite false 0) ps.parse_float (form_value speed_field form)
  stream ← parsed bad_stream false ps.parse_bool (form_value stream_field form)
  with_reference (speaker_files form.files)
      (record (text_fields form) { speed = speed; stream = stream })
