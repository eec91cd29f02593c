-- ===== src/Realtime/Receiver.antt =====
-- The messages of the Realtime API that the receiver reads.
use talk_go.Prelude.{
  Bool, Option, Text, [], if◌then◌else◌, nat_eq, none, some, text_eq, txt, ◌==◌, ◌||◌,
}

-- `wsMessage`, with its raw JSON fields as text. `kind` is the field `Type`.
pub record WsMessage : Type 0 where
  pub kind : Text
  pub delta : Text
  pub error : Text
  pub part : Text

pub record ContentPart : Type 0 where
  pub audio : Text
  pub transcript : Text
  pub text : Text

-- encoding/base64, and encoding/json for `contentPart` and `apiError`; what cannot be parsed has an
-- empty code.
pub record Codecs : Type 0 where
  pub encode : Text → Text
  pub decode : Text → Option Text
  pub parse_part : Text → Option ContentPart
  pub parse_code : Text → Text

-- The cases of the switch. `other` are those that change nothing.
pub data Kind : Type 0 where
  audio_delta transcript_delta transcript_done content_part_done error : Kind
  response_created response_done other : Kind

unfoldable pub kind_of : Text → Kind
kind_of t =
    if t == txt "response.output_audio.delta"
    then audio_delta
    else if t == txt "response.output_audio_transcript.delta"
    then transcript_delta
    else if t == txt "response.output_audio_transcript.done"
    then transcript_done
    else if t == txt "response.content_part.done"
    then content_part_done
    else if t == txt "error"
    then error
    else if t == txt "response.created"
    then response_created
    else if t == txt "response.done"
    then response_done
    else other

-- The codes after which the receiver goes on.
unfoldable pub is_warning : Text → Bool
is_warning code =
    code == txt "unknown_parameter"
    || code == txt "invalid_value"
    || code == txt "input_audio_buffer_commit_empty"
    || code == txt "conversation_already_has_active_response"

-- The audio of a part, where there is any.
unfoldable pub part_audio : Codecs → ContentPart → Option Text
part_audio codecs part = if part.audio == [] then none else elim (codecs.decode part.audio) [
  | none ↦ none
  | some decoded ↦ if decoded == [] then none else some decoded
]

unfoldable pub part_text : ContentPart → Text
part_text part = if part.transcript == [] then part.text else part.transcript
