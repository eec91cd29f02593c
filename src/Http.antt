-- ===== src/Http.antt =====
-- The handlers of internal/adapters/http/server.go, as functions from a request to the response. A
-- body that is not the JSON expected is `none`. Log lines are left out.
pub mod Statuses
pub mod Serve
pub mod RoomQuota
use talk_go.Prelude.{
  Bool, Error, List, Option, Text, [], err, false, if◌then◌else◌, invalid_language_code, leb,
  length, ltb, nat_eq, negsuc, none, not, ok, pos, room_closed, room_full, room_not_found, some,
  take, text_eq, txt, ℕ, ℤ, ◌&&◌, ◌++◌, ◌==◌, ◌∷◌,
}
use talk_go.Room.{Room}
use talk_go.RateLimiter.{RateLimiter, allow}
use talk_go.Service.State.{Ports, Service}
use talk_go.Service.Create.{create_room, room_exists, find_room_by_short_code, is_room_not_found}
use talk_go.Service.Delete.{delete_room}

-- `error_text` is the text of an error, and `rate_limited` the body of a refused request, with the
-- value of its header `Retry-After`. `upgraded` is a request that the hub takes over. `health` has
-- the fields of the health check.
pub data Body : Type 0 where
  empty upgraded : Body
  fields : List (Text × Text) → Body
  error_text : Error → Body
  rate_limited : ℕ → Body
  health : Bool → Bool → Text → Body

pub record Response : Type 0 where
  pub status : ℕ
  pub body : Body

abbrev pub write_json : ℕ → List (Text × Text) → Response
write_json status fs = record { status = status; body = fields fs }

abbrev pub write_error : ℕ → Text → Response
write_error status msg = write_json status ((txt "error", msg) ∷ [])

abbrev pub internal : Response
internal = write_error 500 (txt "internal server error")

-- The texts of the answers beyond ASCII are given by their bytes.
abbrev pub expired : Response
expired =
    write_error 410
      (txt "Esta sala expir" ++ 195 ∷ 179 ∷ txt ". Cre" ++ 195 ∷ 161 ∷ txt " una nueva.")

unfoldable pub create_error : Error → Response
create_error invalid_language_code = record {
  status = 400;
  body = error_text invalid_language_code;
}
create_error room_full = write_error 409 (txt "Esta sala ya tiene 2 participants")
create_error room_closed = expired
create_error _ = internal

abbrev pub room_info : Room → List (Text × Text)
room_info r = (txt "room_id", r.id) ∷ (txt "short_code", r.short_code) ∷ []

unfoldable pub create_room_handler : Ports → Service → Option (Text × Text) → ℕ → Response × Service
create_room_handler ports s none now = (write_error 400 (txt "invalid request body"), s)
create_room_handler ports s (some (source_lang, target_lang)) now =
    let (made, s') = create_room ports s source_lang target_lang now in
    elim made [ err e ↦ (create_error e, s') | ok r ↦ (write_json 201 (room_info r), s') ]

abbrev pub not_found : Response
not_found = write_error 404 (txt "room not found")

unfoldable pub delete_room_handler : Service → Text → Response × Service
delete_room_handler s room_id =
    let (failed, s') = delete_room s room_id in
    elim failed [
      | none ↦ (record { status = 204; body = empty }, s')
      | some e ↦ (if is_room_not_found e then not_found else internal, s')
    ]

unfoldable pub find_error : Error → Response
find_error room_not_found = not_found
find_error room_closed = expired
find_error _ = internal

unfoldable pub get_room_by_short_code_handler : Service → Text → Response
get_room_by_short_code_handler s code =
    if code == []
    then write_error 400 (txt "code is required")
    else elim (find_room_by_short_code s code) [
      | err e ↦ find_error e
      | ok r ↦ write_json 200 (room_info r)
    ]

-- `has_hub` tells whether the server has a hub.
unfoldable pub ws_handler : Bool → Service → Text → Response
ws_handler has_hub s room_id =
    if room_id == []
    then write_error 400 (txt "roomID is required")
    else elim (room_exists s room_id) [
      | some e ↦ if is_room_not_found e then not_found else internal
      | none ↦
          if has_hub
          then record { status = 101; body = upgraded }
          else write_error 500 (txt "signaling not configured")
    ]

-- The comment as its runes.
pub record FeedbackRequest : Type 0 where
  pub session_id : Text
  pub rating : ℤ
  pub comment : List ℕ

-- `req.Rating < 1 || req.Rating > 5`
abbrev pub is_rating : ℤ → Bool
is_rating (pos n) = leb 1 n && leb n 5
is_rating (negsuc n) = false

-- The response, and the comment that is logged.
unfoldable pub feedback_handler : Option FeedbackRequest → Response × Option (List ℕ)
feedback_handler none = (write_error 400 (txt "invalid request body"), none)
feedback_handler (some req) =
    if req.session_id == []
    then (write_error 400 (txt "session_id is required"), none)
    else if not (is_rating req.rating)
    then (write_error 400 (txt "rating must be between 1 and 5"), none)
    else (
      write_json 200 ((txt "status", txt "ok") ∷ []),
      some (if ltb 1000 (length req.comment) then take 1000 req.comment else req.comment),
    )

-- `Middleware` of ratelimit.go, with the client's IP; `next` is the handler behind it.
unfoldable pub middleware :
    {S : Type 0} → RateLimiter → Text → ℕ → S → Response × S → RateLimiter × Response × S
middleware rl ip now s next =
    let (rl', granted, retry_after) = allow rl ip now in
    if granted
    then (rl', next.0, next.1)
    else (rl', record { status = 429; body = rate_limited retry_after }, s)
