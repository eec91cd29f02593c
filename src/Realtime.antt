-- ===== src/Realtime.antt =====
-- internal/adapters/translator/openai_realtime.go: the goroutines of `TranslateStream` as steps on a
-- shared state, in any order. Whoever sends on `audioIn`, ticks, cancels the context, answers on the
-- WebSocket, or takes from the channels is outside. A write of `commit` and of the close message is
-- only tried; its error is ignored in the source too.
pub mod Receiver
pub mod Dial
pub mod Protocol
pub mod Said
pub mod Ear
pub mod Lossless
pub mod Spoken
pub mod Transcripts
pub mod Open
use talk_go.Prelude.{
  Bool, List, Option, Text, [], drop, false, if◌then◌else◌, inl, inr, length, ltb, nat_eq, none,
  some, take, text_eq, true, ℕ, ◌&&◌, ◌++◌, ◌+◌, ◌==◌, ◌||◌, ◌∷◌, ◌⊎◌,
}
use talk_go.Realtime.Dial.{Config, apply_defaults, instructions, url}
use talk_go.Realtime.Receiver.{
  Kind, audio_delta, transcript_delta, transcript_done, content_part_done, error, response_created,
  response_done, other, Codecs, WsMessage, ContentPart, kind_of, is_warning, part_audio, part_text,
}

-- What the client writes on the WebSocket.
pub data Outgoing : Type 0 where
  session_update : Text → Outgoing
  append_audio : Text → Outgoing
  commit_audio create_response close_message : Outgoing

-- What passes over the WebSocket, either way.
pub data Wire : Type 0 where
  sent : Outgoing → Wire
  heard : WsMessage → Wire

-- `commit_left` is what the sender has still to write of a commit, and `ending` whether it stops then.
-- `sending` is what the receiver waits to put on `audioCh`, with the transcript that it offers then.
-- `wire` and the two `taken` lists are records of what has happened, the oldest first. The channels
-- are closed when the receiver is gone, the connection when the sender is gone too.
pub record Stream : Type 0 where
  pub ctx_done : Bool
  pub sender_on : Bool
  pub receiver_on : Bool
  pub sent_frames : ℕ
  pub pending_frames : ℕ
  pub response_active : Bool
  pub commit_left : List Outgoing
  pub ending : Bool
  pub transcript_buf : Text
  pub sending : Option (Text × Text)
  pub audio_ch : List Text
  pub transcript_ch : List Text
  pub wire : List Wire
  pub taken_audio : List Text
  pub taken_transcripts : List Text

-- What may happen next. `writes_on` is the next write of a commit. `frame_in` has the frame, and whether it can be written; `hears none` is a
-- read that fails. `sender_quits` and `receiver_quits` are the branches of `ctx.Done()`, and
-- `delivers` is the other branch of the receiver's.
pub data Event : Type 0 where
  cancels ticks writes_on input_ends sender_quits receiver_quits delivers takes_audio
        takes_transcript :
      Event
  frame_in : Text → Bool → Event
  hears : Option WsMessage → Event

-- The state once `session.update` is written.
unfoldable pub connected : Text → Stream
connected update = record {
  ctx_done = false;
  sender_on = true;
  receiver_on = true;
  sent_frames = 0;
  pending_frames = 0;
  response_active = false;
  commit_left = [];
  ending = false;
  transcript_buf = [];
  sending = none;
  audio_ch = [];
  transcript_ch = [];
  wire = sent (session_update update) ∷ [];
  taken_audio = [];
  taken_transcripts = [];
}

-- `commit`, up to its two writes: the flag is loaded once, and may change before they are done.
unfoldable pub commit : Stream → Stream
commit s =
    if s.pending_frames == 0 || s.response_active
    then s
    else record s { pending_frames = 0; commit_left = commit_audio ∷ create_response ∷ [] }

-- The deferred function of the sender, which then waits for the receiver.
unfoldable pub stop_sender : Stream → Stream
stop_sender s = record s { sender_on = false; wire = s.wire ++ sent close_message ∷ [] }

-- `audioIn` is closed: a commit, and the return after its writes.
unfoldable pub end_input : List Outgoing → Stream → Stream
end_input [] s = stop_sender s
end_input (o ∷ left) s = record s { ending = true }

-- The next write of a commit.
unfoldable pub write_on : List Outgoing → Stream → Stream
write_on [] s = s
write_on (o ∷ left) s =
    let s' : Stream = record s { commit_left = left; wire = s.wire ++ sent o ∷ [] } in
    elim left [ [] ↦ if s.ending then stop_sender s' else s' | p ∷ ps ↦ s' ]

abbrev pub is_done : List Outgoing → Bool
is_done [] = true
is_done (o ∷ os) = false

-- The sender is at its `select`.
abbrev pub selects : Stream → Bool
selects s = s.sender_on && is_done s.commit_left

-- A full channel drops the text.
unfoldable pub offer_transcript : Text → Stream → Stream
offer_transcript text s =
    if text == []
    then s
    else if ltb (length s.transcript_ch) 4
    then record s { transcript_ch = s.transcript_ch ++ text ∷ [] }
    else s

-- The top of the receiver's loop.
unfoldable pub again : Stream → Stream
again s = if s.ctx_done then record s { receiver_on = false } else s

-- The receiver waits for the service.
abbrev pub reading : Stream → Bool
reading s = elim s.sending [ none ↦ s.receiver_on | some _ ↦ false ]

-- The receiver's `select`, at what it waits to send.
unfoldable pub put : Option (Text × Text) → Stream → Stream
put none s = s
put (some (decoded, text)) s =
    if s.receiver_on && ltb (length s.audio_ch) 8
    then again
        (offer_transcript text (record s { sending = none; audio_ch = s.audio_ch ++ decoded ∷ [] }))
    else s

unfoldable pub give_up : Option (Text × Text) → Stream → Stream
give_up none s = s
give_up (some held) s = if s.ctx_done then record s { receiver_on = false; sending = none } else s

module _ (codecs : Codecs) where
  -- The switch of the receiver. A message with audio ends at the `select` that sends it.
  unfoldable pub switch : Kind → WsMessage → Stream → Stream
  switch audio_delta m s = if m.delta == [] then again s else elim (codecs.decode m.delta) [
    | none ↦ again s
    | some decoded ↦ record s { sending = some (decoded, []) }
  ]
  switch transcript_delta m s = again (record s { transcript_buf = s.transcript_buf ++ m.delta })
  switch transcript_done m s =
      again (record (offer_transcript s.transcript_buf s) { transcript_buf = [] })
  switch content_part_done m s = if m.part == [] then again s else elim (codecs.parse_part m.part) [
    | none ↦ again s
    | some part ↦ elim (part_audio codecs part) [
      | none ↦ again (offer_transcript (part_text part) s)
      | some decoded ↦ record s { sending = some (decoded, part_text part) }
    ]
  ]
  switch error m s =
      if is_warning (codecs.parse_code m.error) then again s else record s { receiver_on = false }
  switch response_created m s = again (record s { response_active = true })
  switch response_done m s = again (record s { response_active = false })
  switch other m s = again s

  unfoldable pub receive : Option WsMessage → Stream → Stream
  receive none s = record s { receiver_on = false }
  receive (some m) s = switch (kind_of m.kind) m (record s { wire = s.wire ++ heard m ∷ [] })

  unfoldable pub append_frame : Text → Bool → Stream → Stream
  append_frame frame written s =
      let s' : Stream = record s {
        sent_frames = s.sent_frames + 1;
        pending_frames = s.pending_frames + 1;
      } in
      if written
      then record s' { wire = s.wire ++ sent (append_audio (codecs.encode frame)) ∷ [] }
      else stop_sender s'

  unfoldable pub step : Stream → Event → Stream
  step s cancels = record s { ctx_done = true }
  step s ticks = if selects s then commit s else s
  step s writes_on = if s.sender_on then write_on s.commit_left s else s
  step s input_ends = if selects s then (let s' = commit s in end_input s'.commit_left s') else s
  step s (frame_in frame written) = if selects s then append_frame frame written s else s
  step s sender_quits = if selects s && s.ctx_done then stop_sender s else s
  step s (hears answer) = if reading s then receive answer s else s
  step s delivers = put s.sending s
  step s receiver_quits = give_up s.sending s
  step s takes_audio = record s {
    audio_ch = drop 1 s.audio_ch;
    taken_audio = s.taken_audio ++ take 1 s.audio_ch;
  }
  step s takes_transcript = record s {
    transcript_ch = drop 1 s.transcript_ch;
    taken_transcripts = s.taken_transcripts ++ take 1 s.transcript_ch;
  }

  unfoldable pub run : Stream → List Event → Stream
  run s [] = s
  run s (e ∷ es) = run (step s e) es

-- `NewOpenAIRealtimeTranslator` and `TranslateStream`: the connection is refused with the error of
-- the dial, or of the first write. The payload of `session.update` stands for its instructions.
unfoldable pub translate_stream :
    (Text → Option Text) → (Outgoing → Option Text) → Config → Text → Text → Text ⊎ Stream
translate_stream dial write cfg source_lang target_lang =
    let update = instructions source_lang target_lang in
    elim (dial (url (apply_defaults cfg))) [
      | some e ↦ inl e
      | none ↦ elim (write (session_update update)) [
        | some e ↦ inl e
        | none ↦ inr (connected update)
      ]
    ]
