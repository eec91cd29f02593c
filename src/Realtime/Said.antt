-- ===== src/Realtime/Said.antt =====
-- What the service says, by its messages: the audio and the transcripts.
use talk_go.Prelude.{
  List, Option, Text, [], append-nil, append_assoc, if◌then◌else◌, nat_eq, none, refl, some,
  text_eq, ◌++◌, ◌==◌, ◌∷◌, ◌≡◌,
}
use talk_go.Realtime.Receiver.{
  audio_delta, transcript_delta, transcript_done, content_part_done, kind_of, Kind, WsMessage,
  Codecs,
}
use talk_go.Realtime.{Wire, sent, heard, part_audio, part_text, Outgoing}

abbrev pub found : Option Text → List Text
found none = []
found (some v) = v ∷ []

-- A text that is not empty.
abbrev pub worded : Text → List Text
worded t = if t == [] then [] else t ∷ []

-- The messages of the service, and those of the client left out.
unfoldable pub messages : List Wire → List WsMessage
messages [] = []
messages (sent o ∷ ws) = messages ws
messages (heard m ∷ ws) = m ∷ messages ws

module _ (codecs : Codecs) where
  -- The audio in a message.
  unfoldable pub sounds : Kind → WsMessage → List Text
  sounds audio_delta m = if m.delta == [] then [] else found (codecs.decode m.delta)
  sounds content_part_done m = if m.part == [] then [] else elim (codecs.parse_part m.part) [
    | none ↦ []
    | some part ↦ found (part_audio codecs part)
  ]
  sounds _ m = []

  unfoldable pub audio_of : List WsMessage → List Text
  audio_of [] = []
  audio_of (m ∷ ms) = sounds (kind_of m.kind) m ++ audio_of ms

  -- The transcript that a message completes, after the deltas `buf`.
  unfoldable pub says : Kind → WsMessage → Text → List Text
  says transcript_done m buf = worded buf
  says content_part_done m buf =
      if m.part == []
      then []
      else elim (codecs.parse_part m.part) [ none ↦ [] | some part ↦ worded (part_text part) ]
  says _ m buf = []

-- The deltas since the last transcript that they have made.
unfoldable pub deltas : Kind → WsMessage → Text → Text
deltas transcript_delta m buf = buf ++ m.delta
deltas transcript_done m buf = []
deltas _ m buf = buf

unfoldable pub deltas_of : Text → List WsMessage → Text
deltas_of buf [] = buf
deltas_of buf (m ∷ ms) = deltas_of (deltas (kind_of m.kind) m buf) ms

module _ (codecs : Codecs) where
  unfoldable pub transcripts_of : Text → List WsMessage → List Text
  transcripts_of buf [] = []
  transcripts_of buf (m ∷ ms) =
      says codecs (kind_of m.kind) m buf ++ transcripts_of (deltas (kind_of m.kind) m buf) ms

pub messages-sent : (ws : List Wire) (o : Outgoing) → messages (ws ++ sent o ∷ []) ≡ messages ws
unfolding messages
messages-sent [] o = refl
messages-sent (sent o' ∷ ws) o = messages-sent ws o
messages-sent (heard m ∷ ws) o = rw (messages-sent ws o)

pub messages-heard :
    (ws : List Wire) (m : WsMessage) → messages (ws ++ heard m ∷ []) ≡ messages ws ++ m ∷ []
unfolding messages
messages-heard [] m = refl
messages-heard (sent o ∷ ws) m = messages-heard ws m
messages-heard (heard m' ∷ ws) m = rw (messages-heard ws m)

pub audio_of-snoc :
    (codecs : Codecs) (ms : List WsMessage) (m : WsMessage)
    → audio_of codecs (ms ++ m ∷ []) ≡ audio_of codecs ms ++ sounds codecs (kind_of m.kind) m
unfolding audio_of
audio_of-snoc codecs [] m = append-nil _
audio_of-snoc codecs (m' ∷ ms) m = simp (audio_of-snoc codecs ms m, append_assoc)

pub deltas_of-snoc :
    (buf : Text) (ms : List WsMessage) (m : WsMessage)
    → deltas_of buf (ms ++ m ∷ []) ≡ deltas (kind_of m.kind) m (deltas_of buf ms)
unfolding deltas_of
deltas_of-snoc buf [] m = refl
deltas_of-snoc buf (m' ∷ ms) m = deltas_of-snoc (deltas (kind_of m'.kind) m' buf) ms m

pub transcripts_of-snoc :
    (codecs : Codecs) (buf : Text) (ms : List WsMessage) (m : WsMessage)
    → transcripts_of codecs buf (ms ++ m ∷ [])
      ≡ transcripts_of codecs buf ms ++ says codecs (kind_of m.kind) m (deltas_of buf ms)
unfolding transcripts_of deltas_of
transcripts_of-snoc codecs buf [] m = append-nil _
transcripts_of-snoc codecs buf (m' ∷ ms) m =
    simp (transcripts_of-snoc codecs (deltas (kind_of m'.kind) m' buf) ms m, append_assoc)

-- The messages of the client.
unfoldable pub client : List Wire → List Outgoing
client [] = []
client (sent o ∷ ws) = o ∷ client ws
client (heard m ∷ ws) = client ws

pub client-sent : (ws : List Wire) (o : Outgoing) → client (ws ++ sent o ∷ []) ≡ client ws ++ o ∷ []
unfolding client
client-sent [] o = refl
client-sent (sent o' ∷ ws) o = rw (client-sent ws o)
client-sent (heard m ∷ ws) o = client-sent ws o

pub client-heard : (ws : List Wire) (m : WsMessage) → client (ws ++ heard m ∷ []) ≡ client ws
unfolding client
client-heard [] m = refl
client-heard (sent o ∷ ws) m = rw (client-heard ws m)
client-heard (heard m' ∷ ws) m = client-heard ws m
