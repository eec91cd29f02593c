-- ===== src/Service/Delete.antt =====
-- `DeleteRoom` of internal/app/roomsvc/service.go.
use talk_go.Prelude.{
  Bool, Outcome, Text, [], err, if◌then◌else◌, length, ltb, nat_eq, none, ok, some, take, text_eq,
  ◌&&◌, ◌++◌, ◌==◌, ◌∷◌,
}
use talk_go.Prelude.Dict.{Dict, lookup, insert, erase}
use talk_go.Session.{disconnect}
use talk_go.Room.{close}
use talk_go.Repository.{find_by_id, delete}
use talk_go.Service.State.{Service, log, colon, put_room, peer_close, cancel_pipeline}

-- `len(key) > len(prefix) && key[:len(prefix)] == prefix`
unfoldable pub has_prefix : Text → Text → Bool
has_prefix prefix key = ltb (length prefix) (length key) && take (length prefix) key == prefix

-- The session of an entry is disconnected, its peer connection closed, and both forgotten.
unfoldable pub drop_entry : Service → Text → Text → Service
drop_entry s key sid = elim (lookup sid s.sessions) [
  | none ↦ record s { lookups = erase key s.lookups }
  | some sess ↦
      let s' = log s (peer_close sid) in
      record s' {
        sessions = erase sid (insert sid (disconnect sess).1 s.sessions);
        lookups = erase key s.lookups;
      }
]

-- `for key, sessID := range s.lookup`
unfoldable pub drop_entries : Text → Dict Text Text → Service → Service
drop_entries prefix [] s = s
drop_entries prefix ((key, sid) ∷ entries) s =
    drop_entries prefix entries (if has_prefix prefix key then drop_entry s key sid else s)

unfoldable pub drop_pipeline : Service → Text → Service
drop_pipeline s room_id = elim (lookup room_id s.pipelines) [
  | none ↦ s
  | some p ↦ record (log s (cancel_pipeline room_id)) { pipelines = erase room_id s.pipelines }
]

unfoldable pub delete_room : Service → Text → Outcome Service
delete_room s room_id = elim (find_by_id s.repo room_id) [
  | err e ↦ (some e, s)
  | ok r ↦
      let s₁ = put_room s (close r) in
      let s₂ = drop_entries (room_id ++ colon ∷ []) s₁.lookups s₁ in
      let s₃ = drop_pipeline s₂ room_id in (none, record s₃ { repo = delete s₃.repo room_id })
]
