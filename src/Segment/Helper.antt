-- ===== src/Segment/Helper.antt =====
-- The call of the sentence splitter in internal/segment/segment.go, from how the subprocess ended.
use audio_server.Common.{
  if◌then◌else◌, is_empty, Bool, not, Option, none, some, ◌⊎◌, inl, inr, List, [],
}
use audio_server.Segment.Text.{Text, fields}

pub data Error : Type 0 where
  run_failed unreadable reported : Error

-- The decoded output, if it is JSON: the sentences and the error text. `exits_well` says that the
-- process exited without an error.
pub record Answer : Type 0 where
  pub decoded : Option (List Text × Text)
  pub exits_well : Bool

abbrev pub judge : Bool → Option (List Text × Text) → Error ⊎ List Text
judge exits_well none = inl (if not exits_well then run_failed else unreadable)
judge exits_well (some (sentences, error)) =
    if not (is_empty error)
    then inl reported
    else if not exits_well
    then inl run_failed
    else inr sentences

-- A text of spaces only has no sentences, and no process is run for it.
unfoldable pub segment : Answer → Text → Error ⊎ List Text
unfolding fields
segment a text = if is_empty (fields text) then inr [] else judge a.exits_well a.decoded
