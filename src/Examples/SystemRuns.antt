-- ===== src/Examples/SystemRuns.antt =====
-- The service and the hub together: two users join, one of them goes away.
use talk_go.Prelude.{
  List, Text, [], arith, contains, false, nat_eq, refl, some, text_eq, txt, ℕ, ℕ_discrete, ◌∷◌, ◌≡◌,
  ◌≤◌, list_dec,
}
use talk_go.Prelude.Dict.{lookup, insert, erase}
use talk_go.Room.{new_room, generate_short_code, letter, join, touch_activity, is_full}
use talk_go.Repository.{find_by_short_code, scan_code, save, find_by_id}
use talk_go.Session.{new_session}
use talk_go.Service.State.{default_config}
use talk_go.Service.Signal.{SignalingMessage, blank, handle_signaling, handle_join, set_name, greet}
use talk_go.Service.Create.{create_room, save_coded, draw_code}
use talk_go.Service.Join.{
  join_room, joined, open_session, register, launch, cancel_grace_timers_for_room, stop_timers,
  sessions_in, first_other,
}
use talk_go.Service.History.{creates, fires, happen}
use talk_go.Service.History.Sound.{Sound}
use talk_go.Hub.{
  advance, go_on, step as step_hub, new_hub, register as register_client, dispatch, bind,
  notify_session, try_send, wait_send, peers_of, pump,
}
use talk_go.System.{
  lose, System, Event, opens, speaks, breaks, flushes, notice_goes_on, serves, ice_fails, step, run,
  session_of, hear, deliver,
}
use talk_go.Service.Grace.{on_disconnect, start_grace_timer, grace_timer_fires}
use talk_go.Service.Delete.{delete_room, drop_pipeline, drop_entries, has_prefix, drop_entry}
use talk_go.Hub.NoCrash.{has_late}
use talk_go.System.Traces.{hub_trace, hub_events}
use talk_go.System.Joins.{requests}
use talk_go.System.Alive.{run-Sound, clients_safe}
use talk_go.Examples.ServiceRuns.{ports, given, start, started, ports-UuidLaws, ports-Saves}

abbrev system : System
system = record { service = start; hub = new_hub }

abbrev asks_to_join : Text → Text → SignalingMessage
asks_to_join user lang = record blank {
  kind = txt "join";
  room_id = txt "a";
  user_id = user;
  lang = lang;
}

abbrev events : List (ℕ × Event)
events =
    (1, serves (creates (txt "es") (txt "en")))
    ∷ (2, opens (txt "a"))
    ∷ (3, opens (txt "a"))
    ∷ (4, speaks 0 (some (asks_to_join (txt "x") (txt "es"))))
    ∷ (5, speaks 1 (some (asks_to_join (txt "y") (txt "en"))))
    ∷ (6, flushes 0)
    ∷ (7, ice_fails (txt "aa"))
    ∷ (8, notice_goes_on 0)
    ∷ (8, breaks 1)
    ∷ (9, serves (fires (txt "aaa") (txt "a")))
    ∷ []

once : (client : ℕ) → requests client events ≤ 1
unfolding requests text_eq list_dec ℕ_discrete
once client = ground arith

run-Sound_example : Sound ports (run ports system events).service
run-Sound_example =
    run-Sound ports default_config given start events ports-UuidLaws ports-Saves started
      (tt, (tt, (tt, ((λ k e. cc e), ((λ k e. cc e), (tt, (tt, (tt, (tt, (tt, tt))))))))))

clients_safe_example : (run ports system events).hub.crashed ≡ false
unfolding has_late run step hear session_of deliver lose notify_session register_client dispatch
    bind wait_send hub_trace hub_events try_send peers_of happen create_room new_room save_coded
    draw_code generate_short_code letter find_by_short_code scan_code save insert lookup erase
    handle_signaling handle_join set_name greet join_room find_by_id join joined open_session
    register launch cancel_grace_timers_for_room stop_timers sessions_in first_other contains
    touch_activity is_full new_session pump text_eq ℕ_discrete step_hub advance go_on on_disconnect
    start_grace_timer grace_timer_fires delete_room drop_pipeline drop_entries has_prefix drop_entry
clients_safe_example = clients_safe ports start events once refl
