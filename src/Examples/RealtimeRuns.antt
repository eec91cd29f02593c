-- ===== src/Examples/RealtimeRuns.antt =====
-- A stream of the Realtime API.
use talk_go.Prelude.{
  List, Text, [], false, length, nat_eq, none, refl, some, text_eq, true, txt, ℕ, ◌++◌, ◌∷◌, ◌≡◌,
  ◌≤◌,
}
use talk_go.Realtime.Receiver.{Codecs}
use talk_go.Realtime.{
  Event, cancels, ticks, input_ends, receiver_quits, delivers, takes_audio, frame_in, hears, Stream,
  connected, run, sent, append_audio, close_message,
}
use talk_go.Realtime.Protocol.{Talk, run-Talk}
use talk_go.Realtime.Lossless.{waiting, audio_lossless}
use talk_go.Realtime.Said.{audio_of, transcripts_of, messages, client}
use talk_go.Realtime.Transcripts.{transcripts_in_order}
use talk_go.Realtime.Open.{input_ends-uncommitted}
use mathlib.Core.List.{Sublist as IsSublist}

-- Audio and codes stand for themselves, and a part is its transcript.
abbrev codecs : Codecs
codecs = record {
  encode = λ t. t;
  decode = λ t. some t;
  parse_part = λ t. some (record { audio = t; transcript = t; text = [] });
  parse_code = λ t. t;
}

abbrev message : Text → Text → Event
message kind v = hears (some (record { kind = kind; delta = v; error = v; part = v }))

abbrev events : List Event
events =
    frame_in (txt "a") true
    ∷ ticks
    ∷ message (txt "response.created") []
    ∷ frame_in (txt "b") true
    ∷ ticks
    ∷ message (txt "response.output_audio.delta") (txt "x")
    ∷ delivers
    ∷ message (txt "response.content_part.done") (txt "y")
    ∷ cancels
    ∷ receiver_quits
    ∷ takes_audio
    ∷ input_ends
    ∷ []

run-Talk_example :
    let s = run codecs (connected (txt "u")) events in
    (n : ℕ) × Talk n s.response_active s.commit_left s.sender_on s.wire
    × (s.sender_on ≡ true → n ≡ s.pending_frames)
run-Talk_example = run-Talk codecs (txt "u") events

audio_lossless_example :
    let s = run codecs (connected (txt "u")) events in
    (lost : List Text) × audio_of codecs (messages s.wire)
      ≡ s.taken_audio ++ s.audio_ch ++ waiting s.sending ++ lost
    × length lost ≤ 1
    × (s.ctx_done ≡ false → lost ≡ [])
    × length s.audio_ch ≤ 8
audio_lossless_example = audio_lossless codecs (txt "u") events

transcripts_in_order_example :
    let s = run codecs (connected (txt "u")) events in
    let said = transcripts_of codecs [] (messages s.wire) in
    IsSublist (s.taken_transcripts ++ s.transcript_ch) said
    × length s.transcript_ch ≤ 4
    × (s.receiver_on ≡ true
        → s.sending ≡ none
        → length said ≤ 4
        → s.taken_transcripts ++ s.transcript_ch ≡ said)
transcripts_in_order_example = transcripts_in_order codecs (txt "u") events

-- A frame comes in while a response is active.
abbrev busy : Stream
busy = record {
  ctx_done = false;
  sender_on = true;
  receiver_on = true;
  sent_frames = 3;
  pending_frames = 2;
  response_active = true;
  commit_left = [];
  ending = false;
  transcript_buf = [];
  sending = none;
  audio_ch = [];
  transcript_ch = [];
  wire = sent (append_audio (txt "a")) ∷ [];
  taken_audio = [];
  taken_transcripts = [];
}

input_ends-uncommitted_example :
    let after = run codecs busy (input_ends ∷ message (txt "response.done") [] ∷ ticks ∷ []) in
    after.pending_frames ≡ 2
    × client after.wire ≡ client (sent (append_audio (txt "a")) ∷ []) ++ close_message ∷ []
input_ends-uncommitted_example =
    input_ends-uncommitted codecs busy (message (txt "response.done") [] ∷ ticks ∷ []) refl refl
      refl
