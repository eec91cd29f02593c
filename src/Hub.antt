-- ===== src/Hub.antt =====
-- internal/adapters/signaling/hub.go, with the `Client` of client.go: the WebSocket clients and the
-- messages that wait for them. A `*Client` is a number, whose object is in `heap`. What the handler
-- answers is an argument. To send on a closed channel ends the program: `crashed`.
pub mod Safe
pub mod Members
pub mod NoCrash
pub mod Pumps
use talk_go.Prelude.{
  Bool, List, Option, Result, Text, [], contains, drop, err, false, get_elem?, if◌then◌else◌,
  length, ltb, nat_eq, none, not, ok, remove, some, take, text_eq, true, txt, ℕ, ◌&&◌, ◌++◌, ◌+◌,
  ◌==◌, ◌∷◌,
}
use talk_go.Prelude.Dict.{Dict, lookup, insert, erase}
use talk_go.Service.State.{Fields}
use talk_go.Service.Signal.{SignalingMessage, error_message, blank}

abbrev pub send_buffer_size : ℕ
send_buffer_size = 8

-- What is marshalled and sent: a map of texts, a response of the handler, or an error with the text
-- that the hub gives it.
pub data Frame : Type 0 where
  fields : Fields → Frame
  response : SignalingMessage → Frame
  failure : Text → Frame

pub record Client : Type 0 where
  pub room_id : Text
  pub session_id : Text
  pub send : List Frame
  pub closed : Bool

-- A call of `NotifySession` that has not ended: it has still to look its session up, or to send what
-- it has marshalled to the client that it has found.
pub data Notice : Type 0 where
  wanted : Text → Frame → Notice
  found : ℕ → Frame → Notice

-- `notices` are the calls of `NotifySession` on their way; `next` is the next new client; `disconnected` are the sessions for which `OnDisconnect` of the
-- handler has been called.
pub record Hub : Type 0 where
  pub heap : Dict ℕ Client
  pub clients : List ℕ
  pub session_clients : Dict Text ℕ
  pub room_clients : Dict Text (List ℕ)
  pub next : ℕ
  pub notices : List Notice
  pub disconnected : List Text
  pub crashed : Bool

abbrev pub new_hub : Hub
new_hub = record {
  heap = [];
  clients = [];
  session_clients = [];
  room_clients = [];
  next = 0;
  notices = [];
  disconnected = [];
  crashed = false;
}

unfoldable pub peers_of : Hub → Text → List ℕ
peers_of h room_id = elim (lookup room_id h.room_clients) [ none ↦ [] | some cs ↦ cs ]

-- `select { case c.send <- data: default: }`
unfoldable pub try_send : Hub → ℕ → Frame → Hub
try_send h c f = elim (lookup c h.heap) [
  | none ↦ h
  | some cl ↦
      if cl.closed
      then record h { crashed = true }
      else if ltb (length cl.send) send_buffer_size
      then record h { heap = insert c (record cl { send = cl.send ++ f ∷ [] }) h.heap }
      else h
]

-- `c.send <- b`: waits for the write pump if the buffer is full, and gets through while that runs:
-- see Pumps.
unfoldable pub wait_send : Hub → ℕ → Frame → Hub
wait_send h c f = elim (lookup c h.heap) [
  | none ↦ h
  | some cl ↦
      if cl.closed
      then record h { crashed = true }
      else record h { heap = insert c (record cl { send = cl.send ++ f ∷ [] }) h.heap }
]

unfoldable pub send_all : Hub → List ℕ → Frame → Hub
unfolding try_send
send_all h [] f = h
send_all h (c ∷ cs) f = send_all (try_send h c f) cs f

-- `ServeWS` makes a client, and the hub registers it.
unfoldable pub register : Hub → Text → Hub
register h room_id =
    let c = h.next in
    record h {
      heap =
          insert c (record { room_id = room_id; session_id = []; send = []; closed = false })
            h.heap;
      clients = c ∷ h.clients;
      room_clients =
          if room_id == []
          then h.room_clients
          else insert room_id (peers_of h room_id ++ c ∷ []) h.room_clients;
      next = c + 1;
    }

-- The client is out of its room.
unfoldable pub forget_peer : Hub → ℕ → Text → Dict Text (List ℕ)
forget_peer h c room_id =
    if room_id == []
    then h.room_clients
    else (let updated = remove c (peers_of h room_id) in
        if updated == []
        then erase room_id h.room_clients
        else insert room_id updated h.room_clients)

-- The part of `unregister` under the mutex.
unfoldable pub detach : Hub → ℕ → Client → Hub
detach h c cl = record h {
  heap = if contains c h.clients then insert c (record cl { closed = true }) h.heap else h.heap;
  clients = remove c h.clients;
  session_clients =
      if cl.session_id == [] then h.session_clients else erase cl.session_id h.session_clients;
  room_clients = forget_peer h c cl.room_id;
}

abbrev pub peer_left : Text → Frame
peer_left session_id = fields ((txt "type", txt "peer-left") ∷ (txt "session_id", session_id) ∷ [])

unfoldable pub unregister : Hub → ℕ → Hub
unregister h c = elim (lookup c h.heap) [
  | none ↦ h
  | some cl ↦
      let h' = detach h c cl in
      if cl.session_id == []
      then h'
      else (let told =
            (if cl.room_id == []
              then h'
              else send_all h' (peers_of h' cl.room_id) (peer_left cl.session_id)) in
          record told { disconnected = told.disconnected ++ cl.session_id ∷ [] })
]

-- `resp.Type == "joined" && resp.SessionID != ""`
unfoldable pub bind : Hub → ℕ → SignalingMessage → Hub
bind h c resp =
    if resp.kind == txt "joined" && not (resp.session_id == [])
    then (elim (lookup c h.heap) [
      | none ↦ h
      | some cl ↦ record h {
        heap = insert c (record cl { session_id = resp.session_id }) h.heap;
        session_clients = insert resp.session_id c h.session_clients;
      }
    ])
    else h

-- What the handler makes of a message: `none` if it is no JSON.
abbrev pub Answer : Type 0
Answer = Option (Result SignalingMessage)

unfoldable pub dispatch : Hub → ℕ → Answer → Hub
unfolding bind
dispatch h c none = wait_send h c (failure (txt "invalid JSON"))
dispatch h c (some (err e)) = wait_send h c (response (error_message e))
dispatch h c (some (ok resp)) =
    let h' = bind h c resp in if resp.kind == [] then h' else wait_send h' c (response resp)

-- A field named `type` would take the place of the type.
unfoldable pub with_fields : Fields → Fields → Fields
with_fields msg [] = msg
with_fields msg ((k, v) ∷ fs) = with_fields (insert k v msg) fs

-- `NotifySession` is called.
unfoldable pub notify_session : Hub → Text → Text → Fields → Hub
notify_session h session_id msg_type fs = record h {
  notices =
      h.notices ++ wanted session_id (fields (with_fields ((txt "type", msg_type) ∷ []) fs)) ∷ [];
}

-- The next step of a call of `NotifySession`: under the mutex it looks its session up; after that,
-- without the mutex, it sends.
unfoldable pub go_on : Hub → List Notice → List Notice → Option Notice → Hub
go_on h before after none = h
go_on h before after (some (wanted session_id f)) = elim (lookup session_id h.session_clients) [
  | none ↦ record h { notices = before ++ after }
  | some c ↦ record h { notices = before ++ found c f ∷ after }
]
go_on h before after (some (found c f)) = try_send (record h { notices = before ++ after }) c f

-- The n-th call goes on.
unfoldable pub advance : Hub → ℕ → Hub
advance h n = go_on h (take n h.notices) (drop (n + 1) h.notices) (get_elem? h.notices n)

-- The write pump takes the first frame.
unfoldable pub pump : Hub → ℕ → Hub
pump h c = elim (lookup c h.heap) [
  | none ↦ h
  | some cl ↦ record h { heap = insert c (record cl { send = drop 1 cl.send }) h.heap }
]

-- What can happen. The read pump of a client runs from its registration to its unregistration.
pub data Event : Type 0 where
  connects : Text → Event
  receives : ℕ → Answer → Event
  breaks : ℕ → Event
  notifies : Text → Text → Fields → Event
  pumps goes_on : ℕ → Event

unfoldable pub step : Hub → Event → Hub
step h (connects room_id) = register h room_id
step h (receives c answer) = if contains c h.clients then dispatch h c answer else h
step h (breaks c) = if contains c h.clients then unregister h c else h
step h (notifies session_id msg_type fs) = notify_session h session_id msg_type fs
step h (pumps c) = pump h c
step h (goes_on n) = advance h n

unfoldable pub run : Hub → List Event → Hub
run h [] = h
run h (e ∷ es) = run (step h e) es
