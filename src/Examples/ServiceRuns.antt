-- ===== src/Examples/ServiceRuns.antt =====
-- The service: a new one in which two users join a room.
use talk_go.Prelude.{
  List, Text, [], ap, arith, contains, if◌then◌else◌, inr, is_some, length, nat_eq, none, ok, refl,
  session_not_found, some, suc, text_eq, true, txt, zero, ℕ, ℕ_discrete, ◌*◌, ◌==◌, ◌∷◌, ◌≡◌,
}
use talk_go.Prelude.Dict.{lookup, insert, erase}
use talk_go.Room.{Room, new_room, generate_short_code, letter, join, touch_activity, is_full}
use talk_go.Repository.{find_by_short_code, scan_code, save, find_by_id, upper_byte}
use talk_go.Session.{Session, new_session}
use talk_go.Service.State.{Ports, Service, Given, default_config, new_service, key_of}
use talk_go.Service.Keys.{NoColon}
use talk_go.Service.Consistent.{UuidLaws, Saves}
use talk_go.Service.Signal.{blank, handle_signaling, handle_join, set_name, greet}
use talk_go.Service.History.{Event, creates, signals, run, happen}
use talk_go.Service.History.Sound.{Sound}
use talk_go.Service.Create.{create_room, save_coded, draw_code, find_room_by_short_code}
use talk_go.Service.Leave.{leave_room}
use talk_go.Service.Join.{
  join_room, joined, open_session, register, launch, cancel_grace_timers_for_room, stop_timers,
  sessions_in, first_other,
}
use talk_go.Service.Delete.{delete_room}
use talk_go.Service.Grace.{on_disconnect, sweep_expired_rooms}
use talk_go.Service.Promises.{
  history-Sound, leave_room-result, delete_room-sessions, reconnect_keeps_session, SameSessions,
}
use talk_go.Service.Codes.{created_room_found}
use talk_go.Service.Sweep.{has_expired, sweep-exact}

-- The n-th ID is a row of `a`.
abbrev letters : ℕ → Text
letters zero = []
letters (suc n) = b'a' ∷ letters n

abbrev pub ports : Ports
ports = record {
  uuid = λ n. letters (suc n);
  entropy = λ n. n ∷ 1 ∷ 2 ∷ 3 ∷ 4 ∷ 5 ∷ [];
  create_session = λ sid. none;
  handle_offer = λ sid sdp. none;
  create_answer = λ sid. ok (txt "answer");
  save_room = λ r. none;
}

letters-length : (n : ℕ) → length (letters n) ≡ n
letters-length zero = refl
letters-length (suc n) = omega (arith, letters-length n)

letters-NoColon : (n : ℕ) → NoColon (letters n)
unfolding contains
letters-NoColon zero = ground arith
letters-NoColon (suc n) = ground (arith, letters-NoColon n)

pub ports-UuidLaws : UuidLaws ports
ports-UuidLaws = record {
  distinct =
      λ m n e. omega (arith, letters-length (suc m), letters-length (suc n), ap (length {0}) e);
  no_colon = λ n. letters-NoColon (suc n);
  nonempty = λ n e. cc e;
}

pub ports-Saves : Saves ports
ports-Saves r = refl

abbrev pub given : Given
given = record { repo = true; peer = true; translator = true; codec = true; notifier = true }

abbrev pub start : Service
start = record {
  config = default_config;
  repo = [];
  sessions = [];
  lookups = [];
  pipelines = [];
  grace_timers = [];
  starting = [];
  created = 0;
  drawn = 0;
  calls = [];
}

abbrev pub joins : Text → Text → Event
joins user lang =
    signals (record blank { kind = txt "join"; room_id = txt "a"; user_id = user; lang = lang })

abbrev pub history : List (ℕ × Event)
history =
    (1, creates (txt "es") (txt "en"))
    ∷ (2, joins (txt "x") (txt "es"))
    ∷ (3, joins (txt "y") (txt "en"))
    ∷ []

pub started : new_service default_config given ≡ ok start
unfolding new_service ℕ_discrete
started = refl

start-Sound : Sound ports start
unfolding run
start-Sound =
    history-Sound ports default_config given start [] ports-UuidLaws ports-Saves started tt

history-Sound_example : Sound ports (run ports start history)
history-Sound_example =
    history-Sound ports default_config given start history ports-UuidLaws ports-Saves started
      (tt, ((λ k e. cc e), ((λ k e. cc e), tt)))

abbrev room : Room
room = record {
  id = txt "a";
  source_lang = txt "es";
  target_lang = txt "en";
  short_code = txt "ABCDEF";
  created_at = 1;
  last_activity = some 3;
  active = true;
  participants = txt "x" ∷ txt "y" ∷ [];
  capacity = 2;
}

abbrev session_x : Session
session_x = record {
  id = txt "aa";
  room_id = txt "a";
  user_id = txt "x";
  lang = txt "es";
  name = [];
  joined_at = 2;
  state = talk_go.Session.connecting;
  error_count = 0;
}

abbrev joined_service : Service
joined_service = run ports start history

held : lookup (txt "aa") joined_service.sessions ≡ some session_x
unfolding run happen create_room new_room save_coded draw_code generate_short_code letter
    find_by_short_code scan_code save insert lookup erase handle_signaling handle_join set_name
    greet join_room find_by_id join joined open_session register launch cancel_grace_timers_for_room
    stop_timers sessions_in first_other contains touch_activity is_full new_session text_eq
    ℕ_discrete
held = refl

room_there : lookup (txt "a") joined_service.repo ≡ some room
unfolding run happen create_room new_room save_coded draw_code generate_short_code letter
    find_by_short_code scan_code save insert lookup erase handle_signaling handle_join set_name
    greet join_room find_by_id join joined open_session register launch cancel_grace_timers_for_room
    stop_timers sessions_in first_other contains touch_activity is_full new_session text_eq
    ℕ_discrete
room_there = refl

leave_room-result_example : (leave_room ports joined_service (txt "a") (txt "x")).0 ≡ (
    if is_some (lookup (key_of (txt "a") (txt "x")) joined_service.lookups)
    then none
    else some session_not_found)
leave_room-result_example =
    leave_room-result ports joined_service (txt "a") (txt "x") ports-UuidLaws ports-Saves
      history-Sound_example.consistent (letters-NoColon 1)

delete_room-sessions_example :
    lookup (txt "aa") (delete_room joined_service (txt "a")).1.sessions
    ≡ (if session_x.room_id == txt "a" then none else some session_x)
delete_room-sessions_example =
    delete_room-sessions ports joined_service (txt "a") (txt "aa") room session_x ports-UuidLaws
      history-Sound_example room_there held

reconnect_keeps_session_example :
    (s' : Service) × (join_room ports
        (on_disconnect joined_service (txt "aa"))
        (txt "a")
        (txt "x")
        (txt "en")
        9
      ≡ (ok (txt "aa"), s'))
    × SameSessions joined_service s'
    × ((j : Text) (y : Session)
        → lookup j joined_service.sessions ≡ some y
        → y.room_id ≡ txt "a"
        → lookup j s'.grace_timers ≡ none)
reconnect_keeps_session_example =
    reconnect_keeps_session ports joined_service (txt "aa") session_x room (txt "en") 9
      history-Sound_example.consistent held room_there (λ e. cc e) (inr refl)

-- A sweep long after the last join.
abbrev late : ℕ
late = 601 * 1000000000

sweep-exact_example :
    let s' = sweep_expired_rooms joined_service late in
    ((id : Text)
      → lookup id s'.repo ≡ (elim (lookup id joined_service.repo) [
        | none ↦ none
        | some r ↦ if has_expired joined_service late r then none else some r
      ]))
    × ((sid : Text) (x : Session) (r : Room)
        → lookup sid joined_service.sessions ≡ some x
        → lookup x.room_id joined_service.repo ≡ some r
        → lookup sid s'.sessions ≡ (if has_expired joined_service late r then none else some x))
sweep-exact_example =
    sweep-exact ports joined_service late ports-UuidLaws ports-Saves history-Sound_example

-- The room that `CreateRoom` gives, and the service after it.
abbrev new_one : Room
new_one = record room { last_activity = none; participants = [] }

created_room_found_example :
    find_room_by_short_code (create_room ports start (txt "es") (txt "en") 1).1 (txt "abcdef")
    ≡ ok new_one
unfolding create_room new_room save_coded draw_code generate_short_code letter find_by_short_code
    scan_code save insert lookup text_eq ℕ_discrete upper_byte
created_room_found_example =
    created_room_found ports start (create_room ports start (txt "es") (txt "en") 1).1 (txt "es")
      (txt "en") 1 new_one (txt "abcdef") ports-UuidLaws start-Sound.consistent refl refl
