-- ===== src/Loadgen/Creation.antt =====
-- cmd/loadgen/main.go: createRoom, and its request to the server of Http. `send` is the request over
-- the network: an error, or the response. How net/http writes a status and a body is `line_of`.
use talk_go.Prelude.{
  Option, Text, [], ap, arith, false, if◌then◌else◌, inl, inr, list_dec, nat_eq, none, not, ok,
  refl, some, text_eq, txt, ℕ, ℕ_discrete, ◌++◌, ◌==◌, ◌∙◌, ◌≡◌, ◌⊎◌,
}
use talk_go.Prelude.Dict.{lookup, insert_self}
use talk_go.Room.{Room}
use talk_go.Repository.{find_by_id}
use talk_go.Service.State.{Ports, Service}
use talk_go.Service.Create.{create_room, room_exists}
use talk_go.Service.Consistent.{UuidLaws}
use talk_go.Service.Codes.{created}
use talk_go.Service.Preserved.Create.{new_room_fields}
use talk_go.Http.{
  Response, Body, fields, empty, upgraded, error_text, rate_limited, health, create_room_handler,
  room_info, write_json,
}

-- The field `room_id` of the decoded body; an object without it leaves the text empty. A body that
-- is no JSON cannot be decoded.
unfoldable pub decoded_id : Body → Text ⊎ Text
decoded_id (fields fs) = inr (elim (lookup (txt "room_id") fs) [ none ↦ [] | some id ↦ id ])
decoded_id (error_text e) = inr []
decoded_id (health a b t) = inr []
decoded_id (rate_limited n) = inr []
decoded_id empty = inl (txt "EOF")
decoded_id upgraded = inl (txt "EOF")

unfoldable pub read_room : (Response → Text) → Text → Response → Text ⊎ Text
read_room line_of url resp =
    if not (resp.status == 201)
    then inl (txt "POST " ++ url ++ txt ": " ++ line_of resp)
    else elim (decoded_id resp.body) [
      | inl e ↦ inl (txt "decoding response: " ++ e)
      | inr id ↦ if id == [] then inl (txt "server returned empty room_id") else inr id
    ]

unfoldable pub create_room_client :
    (Option (Text × Text) → Text ⊎ Response) → (Response → Text) → Text → Text → Text ⊎ Text
create_room_client send line_of url lang = elim (send (some (lang, txt "en"))) [
  | inl e ↦ inl (txt "POST " ++ url ++ txt ": " ++ e)
  | inr resp ↦ read_room line_of url resp
]

read_room-room_info :
    (line_of : Response → Text) (url : Text) (r : Room)
    → (r.id == []) ≡ false
    → read_room line_of url (write_json 201 (room_info r)) ≡ inr r.id
unfolding read_room decoded_id lookup text_eq list_dec ℕ_discrete
read_room-room_info line_of url r filled = rw (filled) refl

handler_made :
    (ports : Ports) (s s' : Service) (source target : Text) (now : ℕ) (r : Room)
    → create_room ports s source target now ≡ (ok r, s')
    → (create_room_handler ports s (some (source, target)) now).0 ≡ write_json 201 (room_info r)
unfolding create_room_handler
handler_made ports s s' source target now r made = rw (create_room_handler, made) refl

-- The room that the load generator is given is there, so that its WebSocket is let in; if the server
-- could make it, the load generator is given it.
pub create_room_client-room_exists :
    (ports : Ports) (line_of : Response → Text) (s s' : Service) (url lang : Text) (now : ℕ)
    (r : Room)
    → UuidLaws ports
    → create_room ports s lang (txt "en") now ≡ (ok r, s')
    → let asked =
        create_room_client (λ req. inr (create_room_handler ports s req now).0) line_of url lang in
      (asked ≡ inr r.id) × (room_exists s' r.id ≡ none)
unfolding create_room_client create_room_handler decoded_id room_exists find_by_id lookup
create_room_client-room_exists ports line_of s s' url lang now r laws made =
    let (x, fine, id, free, repo) = created ports s s' lang (txt "en") now r made in
    let there : lookup r.id s'.repo ≡ some r = rw (repo) (insert_self r.id r s.repo) in
    let named : r.id ≡ ports.uuid s.created =
      id ∙ (new_room_fields (ports.uuid s.created) lang (txt "en") [] now x fine).0 in
    let filled : (r.id == []) ≡ false = ground (arith, named, laws.nonempty s.created) in
    (
      ap (read_room line_of url) (handler_made ports s s' lang (txt "en") now r made)
          ∙ read_room-room_info line_of url r filled,
      rw (room_exists, find_by_id, there) refl,
    )
