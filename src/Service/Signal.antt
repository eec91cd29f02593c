-- ===== src/Service/Signal.antt =====
-- `HandleSignaling` of internal/app/roomsvc/service.go and the messages of
-- internal/ports/driving/signaling.go.
use talk_go.Prelude.{
  Error, Option, Result, Text, [], err, if◌then◌else◌, nat_eq, none, ok, session_not_found, some,
  text_eq, txt, unknown_message_type, ℕ, ◌==◌, ◌∷◌,
}
use talk_go.Prelude.Dict.{lookup, insert}
use talk_go.Service.State.{Ports, Service, log, notify, peer_watch, peer_candidate}
use talk_go.Service.Join.{join_room, first_other}
use talk_go.Service.Leave.{leave_room}

-- `message` is the error whose text the field carries.
pub record SignalingMessage : Type 0 where
  pub kind : Text
  pub room_id : Text
  pub user_id : Text
  pub session_id : Text
  pub sdp : Text
  pub candidate : Text
  pub message : Option Error
  pub lang : Text
  pub name : Text
  pub reason : Text

abbrev pub blank : SignalingMessage
blank = record {
  kind = [];
  room_id = [];
  user_id = [];
  session_id = [];
  sdp = [];
  candidate = [];
  message = none;
  lang = [];
  name = [];
  reason = [];
}

abbrev pub error_message : Error → SignalingMessage
error_message e = record blank { kind = txt "error"; message = some e }

abbrev pub Response : Type 0
Response = Result SignalingMessage × Service

unfoldable pub set_name : Service → Text → Text → Service
set_name s sid name = elim (lookup sid s.sessions) [
  | none ↦ s
  | some sess ↦ record s { sessions = insert sid (record sess { name = name }) s.sessions }
]

-- The names of the two participants are exchanged.
unfoldable pub greet : Service → SignalingMessage → Text → Response
greet s msg sid =
    let resp = record blank { kind = txt "joined"; session_id = sid; room_id = msg.room_id } in
    elim (first_other msg.room_id sid s.sessions) [
      | none ↦ (ok resp, s)
      | some peer ↦ (
        ok (record resp { name = peer.name }),
        if peer.id == []
            then s
            else log s (notify peer.id (txt "peer-joined") ((txt "name", msg.name) ∷ [])),
      )
    ]

unfoldable pub handle_join : Ports → Service → SignalingMessage → ℕ → Response
unfolding set_name greet
handle_join ports s msg now =
    let (joined, s') = join_room ports s msg.room_id msg.user_id msg.lang now in
    elim joined [
      | err e ↦ (ok (error_message e), s')
      | ok sid ↦ greet (set_name s' sid msg.name) msg sid
    ]

unfoldable pub handle_offer_message : Ports → Service → SignalingMessage → Response
handle_offer_message ports s msg = elim (ports.handle_offer msg.session_id msg.sdp) [
  | some e ↦ (ok (error_message e), s)
  | none ↦
      let s' = log s (peer_watch msg.session_id) in
      elim (ports.create_answer msg.session_id) [
        | err e ↦ (ok (error_message e), s')
        | ok answer ↦ (
          ok (record blank { kind = txt "answer"; session_id = msg.session_id; sdp = answer }),
          s',
        )
      ]
]

unfoldable pub handle_leave : Ports → Service → SignalingMessage → Response
handle_leave ports s msg = elim (lookup msg.session_id s.sessions) [
  | none ↦ (ok (error_message session_not_found), s)
  | some sess ↦ (ok blank, (leave_room ports s sess.room_id sess.user_id).1)
]

unfoldable pub handle_signaling : Ports → Service → SignalingMessage → ℕ → Response
handle_signaling ports s msg now =
    if msg.kind == txt "join"
    then handle_join ports s msg now
    else if msg.kind == txt "offer"
    then handle_offer_message ports s msg
    else if msg.kind == txt "ice-candidate"
    then (ok blank, log s (peer_candidate msg.session_id msg.candidate))
    else if msg.kind == txt "leave"
    then handle_leave ports s msg
    else (err unknown_message_type, s)
