-- ===== src/Server/Auth.antt =====
-- auth and bearerToken of internal/server/server.go.
use audio_server.Common.{if◌then◌else◌, is_empty, Bool, true, false, [], ◌∷◌}
use audio_server.Segment.Text.{Text}
use audio_server.Server.Text.{text_eq, trim, after_prefix}
use audio_server.Server.Setup.{Server}

-- "Bearer ".
abbrev pub bearer : Text
bearer = 66 ∷ 101 ∷ 97 ∷ 114 ∷ 101 ∷ 114 ∷ 32 ∷ []

abbrev pub token_of : Text × Bool → Text
unfolding trim
token_of (rest, true) = trim rest
token_of (rest, false) = []

unfoldable pub bearer_token : Text → Text
unfolding after_prefix trim
bearer_token header = token_of (after_prefix bearer header)

-- The headers Authorization and X-API-Key of a request; a missing one is empty.
pub record Headers : Type 0 where
  pub authorization : Text
  pub x_api_key : Text

abbrev pub or_key : Text → Text → Text
or_key [] key = key
or_key (c ∷ cs) key = c ∷ cs

-- Whether auth lets the request on to the handler; otherwise it answers 401.
unfoldable pub auth : Server → Headers → Bool
unfolding bearer_token text_eq
auth s h =
    if is_empty s.api_key
    then true
    else text_eq (or_key (bearer_token h.authorization) h.x_api_key) s.api_key
