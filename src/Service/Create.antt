-- ===== src/Service/Create.antt =====
-- `CreateRoom`, `RoomExists`, `FindByShortCode` and `UpdateLastActivity` of
-- internal/app/roomsvc/service.go.
use talk_go.Prelude.{
  Bool, Error, Option, Outcome, Result, Text, err, false, if◌then◌else◌, none, ok, room_not_found,
  short_code_exhausted, some, suc, true, zero, ℕ, ◌+◌,
}
use talk_go.Room.{Room, new_room, generate_short_code}
use talk_go.Repository.{Repository, save, find_by_id, find_by_short_code, update_last_activity}
use talk_go.Service.State.{Ports, Service, attempts}

-- `errors.Is(err, driving.ErrRoomNotFound)`
abbrev pub is_room_not_found : Error → Bool
is_room_not_found room_not_found = true
is_room_not_found _ = false

-- The loop of `CreateRoom`, with the attempts left and the number of codes drawn before.
unfoldable pub draw_code : Ports → Repository → ℕ → ℕ → Result Text × ℕ
draw_code ports repo zero drawn = (err short_code_exhausted, drawn)
draw_code ports repo (suc n) drawn = elim (generate_short_code (ports.entropy drawn)) [
  | err e ↦ (err e, drawn + 1)
  | ok code ↦ elim (find_by_short_code repo code) [
    | ok existing ↦ draw_code ports repo n (drawn + 1)
    | err e ↦ if is_room_not_found e then (ok code, drawn + 1) else (err e, drawn + 1)
  ]
]

-- What follows the loop.
unfoldable pub save_coded : Ports → Service → Room → Result Text × ℕ → Result Room × Service
save_coded ports s r (err e, drawn) = (err e, record s { drawn = drawn })
save_coded ports s r (ok code, drawn) =
    let r' = record r { short_code = code } in
    let s' = record s { drawn = drawn } in
    elim (ports.save_room r') [
      | some e ↦ (err e, s')
      | none ↦ (ok r', record s' { repo = save s.repo r' })
    ]

unfoldable pub create_room : Ports → Service → Text → Text → ℕ → Result Room × Service
create_room ports s source_lang target_lang now =
    let s' = record s { created = s.created + 1 } in
    elim (new_room (ports.uuid s.created) source_lang target_lang now) [
      | err e ↦ (err e, s')
      | ok r ↦ save_coded ports s' r (draw_code ports s.repo (attempts s.config) s.drawn)
    ]

unfoldable pub room_exists : Service → Text → Option Error
room_exists s room_id = elim (find_by_id s.repo room_id) [ err e ↦ some e | ok r ↦ none ]

unfoldable pub find_room_by_short_code : Service → Text → Result Room
find_room_by_short_code s code = find_by_short_code s.repo code

unfoldable pub update_room_activity : Service → Text → ℕ → Outcome Service
update_room_activity s room_id now =
    let (e, repo) = update_last_activity s.repo room_id now in (e, record s { repo = repo })
