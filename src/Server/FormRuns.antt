-- ===== src/Server/FormRuns.antt =====
-- Runs of the reading of forms and of the API key of internal/server/server.go.
use audio_server.Common.{◌≡◌, refl, ◌++◌, true, false, none, some, [], ◌∷◌, inr}
use audio_server.Segment.Text.{Text}
use audio_server.Server.Text.{trim, trim_start, trim_end}
use audio_server.Server.Types.{SpeechRequest, nan}
use audio_server.Server.Setup.{Server}
use audio_server.Server.Form.{
  input_field, speed_field, speaker_reference_file, Form, Parsers, check_values, check_files,
  values_of, form_value, parsed, text_fields, with_reference, speaker_files, decode_form,
}
use audio_server.Server.Decoded.{IsDecoded, decode_form-IsDecoded}
use audio_server.Server.Auth.{bearer, auth}
use audio_server.Server.Keys.{Judged, auth-Judged}
use audio_server.Server.Runs.{server}

abbrev parsers : Parsers
parsers = record { parse_float = λ t. some nan; parse_bool = λ t. none }

-- An input, the speed NaN and a reference.
abbrev form : Form
form = record {
  query = [];
  values = (input_field, (72 ∷ 105 ∷ []) ∷ []) ∷ (speed_field, (78 ∷ 97 ∷ 78 ∷ []) ∷ []) ∷ [];
  files =
      (speaker_reference_file, record { filename = 97 ∷ []; content = some (1 ∷ 2 ∷ []) } ∷ [])
      ∷ [];
}

abbrev decoded : SpeechRequest
decoded = record {
  model = [];
  input = 72 ∷ 105 ∷ [];
  voice = [];
  language = [];
  response_format = [];
  speed = nan;
  provider_options = [];
  stream = false;
  speaker_reference = 1 ∷ 2 ∷ [];
  speaker_reference_filename = 97 ∷ [];
  speaker_reference_text = [];
}

decodes : decode_form parsers form ≡ inr decoded
unfolding decode_form check_values check_files values_of form_value parsed text_fields
    with_reference speaker_files trim trim_start trim_end audio_server.Segment.Text.is_space
decodes = refl

decode_form-IsDecoded_example : IsDecoded parsers form decoded
decode_form-IsDecoded_example = decode_form-IsDecoded parsers form decoded decodes

abbrev key : Text
key = 107 ∷ 49 ∷ []

abbrev locked : Server
locked = record server { api_key = key }

key_is_trimmed : trim locked.api_key ≡ locked.api_key
unfolding trim trim_start trim_end audio_server.Segment.Text.is_space
key_is_trimmed = refl

auth-Judged_example :
    (auth locked (record { authorization = bearer ++ locked.api_key; x_api_key = [] }) ≡ true)
    × Judged locked (record { authorization = []; x_api_key = key })
auth-Judged_example =
    auth-Judged locked (record { authorization = []; x_api_key = key }) [] key_is_trimmed
