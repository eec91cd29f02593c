-- ===== src/Http/Statuses.antt =====
-- Which status the handlers answer with.
use talk_go.Prelude.{
  Bool, List, Option-cases, Outcome, Text, [], ap, arith, dec_lt, if◌then◌else◌, inl, inr, is_some,
  length, ltb, nat_eq, none, not, refl, room_not_found, some, suc, take, text_eq, true, zero, ℕ,
  ◌&&◌, ◌==◌, ◌↔◌, ◌∷◌, ◌≡◌, ◌≢◌, ◌≤◌, ◌⊎◌,
}
use talk_go.Prelude.Dict.{lookup}
use talk_go.Repository.{find_by_id}
use talk_go.Service.State.{Service}
use talk_go.Service.Create.{room_exists}
use talk_go.Service.Delete.{delete_room}
use talk_go.Http.{delete_room_handler, ws_handler, feedback_handler, FeedbackRequest, is_rating}

delete_missing :
    (s : Service) (id : Text)
    → lookup id s.repo ≡ none
    → delete_room s id ≡ (some room_not_found, s)
unfolding delete_room find_by_id
delete_missing s id e = rw (e, delete_room, find_by_id) refl

-- Deleting answers 204 if the room is there and 404 if it is not, and then changes nothing: there is no
-- third answer.
pub delete_room_handler-status :
    (s : Service) (id : Text)
    → ((delete_room_handler s id).0.status ≡ (if is_some (lookup id s.repo) then 204 else 404))
      × ((is_some (lookup id s.repo) ≡ true) ⊎ ((delete_room_handler s id).1 ≡ s))
unfolding delete_room_handler delete_room find_by_id
delete_room_handler-status s id = elim (Option-cases (lookup id s.repo)) [
  | inl e ↦
      rw (delete_missing s id e, delete_room_handler, e)
        (refl, inr (ap (λ (o : Outcome Service). o.1) (delete_missing s id e)))
  | inr (r, e) ↦ (rw (e, delete_room_handler, delete_room, find_by_id) refl, inl (rw e refl))
]

-- A WebSocket is opened exactly for a room that is there, on a server with a hub.
pub ws_handler-status :
    (has_hub : Bool) (s : Service) (id : Text)
    → ((ws_handler has_hub s id).status ≡ 101)
      ↔ ((id ≢ []) × (is_some (lookup id s.repo) ≡ true) × (has_hub ≡ true))
unfolding ws_handler room_exists find_by_id
ws_handler-status has_hub s id = ground arith

take_short : (n : ℕ) (xs : List ℕ) → length xs ≤ n → take n xs ≡ xs
take_short zero [] h = refl
take_short zero (x ∷ xs) h = absurd (omega arith)
take_short (suc n) [] h = refl
take_short (suc n) (x ∷ xs) h = ap (λ (l : List ℕ). x ∷ l) (take_short n xs (omega arith))

-- A session, and a rating from 1 to 5.
abbrev pub is_acceptable : FeedbackRequest → Bool
is_acceptable req = not (req.session_id == []) && is_rating req.rating

kept_comment : (n : ℕ) (xs : List ℕ) → (if ltb n (length xs) then take n xs else xs) ≡ take n xs
kept_comment n xs = elim (dec_lt n (length xs)) [
  | yes long ↦ ground arith
  | no short ↦ ground (arith, take_short n xs (omega arith))
]

-- Feedback is answered with 200 if it has a session and a rating from 1 to 5, and else with 400; of
-- the comment of what is taken, the first thousand runes are logged, and nothing of what is not.
pub feedback_handler-status :
    (req : FeedbackRequest)
    → ((feedback_handler (some req)).0.status ≡ (if is_acceptable req then 200 else 400))
      × ((feedback_handler (some req)).1
          ≡ (if is_acceptable req then some (take 1000 req.comment) else none))
unfolding feedback_handler
feedback_handler-status req =
    rw (kept_comment 1000 req.comment, feedback_handler) (ground arith, ground arith)
