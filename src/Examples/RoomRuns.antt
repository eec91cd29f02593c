-- ===== src/Examples/RoomRuns.antt =====
-- Rooms, sessions and the repository.
use talk_go.Prelude.{
  Distinct, List, [], length, nat_eq, none, ok, refl, some, text_eq, true, txt, ℕ, ℕ_discrete, ◌∷◌,
  ◌≡◌, ◌≤◌, ◌⊎◌,
}
use talk_go.Room.{
  Room, Call, joins, leaves, closes, touches, new_room, run, letter, generate_short_code,
}
use talk_go.Room.Laws.{new_room-run}

abbrev empty_room : Room
empty_room = record {
  id = txt "r";
  source_lang = txt "es";
  target_lang = txt "en";
  short_code = [];
  created_at = 5;
  last_activity = none;
  active = true;
  participants = [];
  capacity = 2;
}

abbrev bytes : List ℕ
bytes = 0 ∷ 31 ∷ 32 ∷ 255 ∷ 100 ∷ 7 ∷ 9 ∷ []

generated : generate_short_code bytes ≡ ok (txt "A9A9EH")
unfolding generate_short_code letter
generated = refl

abbrev used : Room
used = record empty_room { id = txt "u"; last_activity = some 7 }

abbrev calls : List Call
calls =
    joins (txt "a")
    ∷ joins (txt "a")
    ∷ joins (txt "b")
    ∷ joins (txt "c")
    ∷ leaves (txt "a")
    ∷ closes
    ∷ touches 9
    ∷ []

new_room-run_example :
    Distinct (run empty_room calls).participants
    × (length (run empty_room calls).participants ≤ 2)
    × (((run empty_room calls).active ≡ true) ⊎ ((run empty_room calls).participants ≡ []))
unfolding new_room ℕ_discrete
new_room-run_example = new_room-run (txt "r") (txt "es") (txt "en") 5 empty_room calls refl
