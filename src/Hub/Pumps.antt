-- ===== src/Hub/Pumps.antt =====
-- internal/adapters/signaling/client.go: the read pump and the write pump of one client, and the
-- channel between them, in any order of their steps. What `dispatch` answers to a message is an
-- argument. The deadlines are left out: a write or a read may fail at any time.
pub mod InOrder
pub mod Stuck
use talk_go.Prelude.{
  Bool, List, Option, [], false, if◌then◌else◌, leb, length, ltb, nat_eq, none, some, text_eq, true,
  ◌++◌, ◌∷◌,
}
use talk_go.Hub.{Frame, send_buffer_size}

-- `sends f` waits in `c.send <- f` of `dispatch`; `done` has given the client to `unregister`.
pub data Reader : Type 0 where
  reads done : Reader
  sends : Frame → Reader

pub data Writer : Type 0 where
  waits gone : Writer
  writes : Frame → Writer

-- `accepted` are the frames that have been put in the channel, `written` those that are on the
-- socket, `lost` those whose write failed.
pub record Pumps : Type 0 where
  pub send : List Frame
  pub closed : Bool
  pub crashed : Bool
  pub reader : Reader
  pub writer : Writer
  pub accepted : List Frame
  pub written : List Frame
  pub lost : List Frame

abbrev pub new_pumps : Pumps
new_pumps = record {
  send = [];
  closed = false;
  crashed = false;
  reader = reads;
  writer = waits;
  accepted = [];
  written = [];
  lost = [];
}

-- A message comes in, with what it is answered; the reader gets its frame into the channel; a read
-- fails; another goroutine notifies the client; the writer takes the next frame; its write ends, or
-- its ping, well or with an error.
pub data Event : Type 0 where
  comes : Option Frame → Event
  enqueues fails takes : Event
  notifies : Frame → Event
  wrote pinged : Bool → Event

unfoldable pub accept : Pumps → Frame → Pumps
accept p f = record p { send = p.send ++ f ∷ []; accepted = p.accepted ++ f ∷ [] }

unfoldable pub read_step : Reader → Pumps → Option Frame → Pumps
read_step reads p none = p
read_step reads p (some f) = record p { reader = sends f }
read_step done p answer = p
read_step (sends f) p answer = p

-- The channel is closed only when the reader is done.
unfoldable pub enqueue : Reader → Pumps → Pumps
unfolding accept
enqueue reads p = p
enqueue done p = p
enqueue (sends f) p =
    if ltb (length p.send) send_buffer_size then record (accept p f) { reader = reads } else p

unfoldable pub fail : Reader → Pumps → Pumps
fail reads p = record p { reader = done; closed = true }
fail done p = p
fail (sends f) p = p

-- A send on a closed channel ends the program.
unfoldable pub notify_pumps : Pumps → Frame → Pumps
notify_pumps p f =
    if p.closed
    then record p { crashed = true }
    else if ltb (length p.send) send_buffer_size
    then accept p f
    else p

-- The writer takes a frame. From a full channel, the receive also puts the frame of the reader in, if
-- that waits to send, before anyone else can.
unfoldable pub hand_over : Bool → Pumps → Pumps
hand_over was_full p = if was_full then enqueue p.reader p else p

unfoldable pub take_next : Writer → List Frame → Pumps → Pumps
take_next waits [] p = if p.closed then record p { writer = gone } else p
take_next waits (f ∷ fs) p =
    hand_over (leb send_buffer_size (length (f ∷ fs))) (record p { writer = writes f; send = fs })
take_next gone fs p = p
take_next (writes g) fs p = p

unfoldable pub end_write : Writer → Pumps → Bool → Pumps
end_write waits p went_well = p
end_write gone p went_well = p
end_write (writes f) p true = record p { writer = waits; written = p.written ++ f ∷ [] }
end_write (writes f) p false = record p { writer = gone; lost = p.lost ++ f ∷ [] }

unfoldable pub end_ping : Writer → Pumps → Bool → Pumps
end_ping waits p true = p
end_ping waits p false = record p { writer = gone }
end_ping gone p went_well = p
end_ping (writes f) p went_well = p

unfoldable pub step : Pumps → Event → Pumps
step p (comes answer) = read_step p.reader p answer
step p enqueues = enqueue p.reader p
step p fails = fail p.reader p
step p takes = take_next p.writer p.send p
step p (notifies f) = notify_pumps p f
step p (wrote went_well) = end_write p.writer p went_well
step p (pinged went_well) = end_ping p.writer p went_well

unfoldable pub run : Pumps → List Event → Pumps
run p [] = p
run p (e ∷ es) = run (step p e) es
