-- ===== src/Room.antt =====
-- internal/domain/room/room.go: a translation room between two languages. The mutex makes each
-- method one step; the clock is an argument.
mod Code
unfoldable pub use Code.{generate_short_code, alphabet, short_code_len, letter, read_full}
pub mod Laws
pub mod CodeLaws
use talk_go.Prelude.{
  ℕ, ◌≡◌, Bool, true, false, not, ◌||◌, Option, none, some, List, [], ◌∷◌, ◌++◌, Text, Error,
  Result, ok, err, Outcome, invalid_language_code, room_full, room_closed, already_in_room,
  not_in_room, if◌then◌else◌, leb, ◌==◌, length, contains, remove, nat_eq, text_eq,
}

abbrev pub default_capacity : ℕ
default_capacity = 2

-- `last_activity` is `none` for the zero time.
pub record Room : Type 0 where
  pub id : Text
  pub source_lang : Text
  pub target_lang : Text
  pub short_code : Text
  pub created_at : ℕ
  pub last_activity : Option ℕ
  pub active : Bool
  pub participants : List Text
  pub capacity : ℕ

unfoldable pub new_room : Text → Text → Text → ℕ → Result Room
new_room id source_lang target_lang now =
    if not (length source_lang == 2) || not (length target_lang == 2)
    then err invalid_language_code
    else ok (record {
      id = id;
      source_lang = source_lang;
      target_lang = target_lang;
      short_code = [];
      created_at = now;
      last_activity = none;
      active = true;
      participants = [];
      capacity = default_capacity;
    })

unfoldable pub join : Room → Text → Outcome Room
join r user =
    if not r.active
    then (some room_closed, r)
    else if contains user r.participants
    then (some already_in_room, r)
    else if leb r.capacity (length r.participants)
    then (some room_full, r)
    else (none, record r { participants = r.participants ++ user ∷ [] })

unfoldable pub leave : Room → Text → Outcome Room
leave r user =
    if not (contains user r.participants)
    then (some not_in_room, r)
    else (none, record r { participants = remove user r.participants })

unfoldable pub is_full : Room → Bool
is_full r = leb r.capacity (length r.participants)

unfoldable pub close : Room → Room
close r = record r { active = false; participants = [] }

unfoldable pub touch_activity : Room → ℕ → Room
touch_activity r now = record r { last_activity = some now }

-- A call of a method, with the time of the call.
pub data Call : Type 0 where
  joins leaves : Text → Call
  closes : Call
  touches : ℕ → Call

unfoldable pub step : Room → Call → Room
step r (joins user) = (join r user).1
step r (leaves user) = (leave r user).1
step r closes = close r
step r (touches now) = touch_activity r now

unfoldable pub run : Room → List Call → Room
run r [] = r
run r (c ∷ cs) = run (step r c) cs
