-- ===== src/Examples/HubRuns.antt =====
-- The hub: two ways in which a client with two sessions, or a session with two clients, goes wrong.
use talk_go.Prelude.{
  List, Text, [], contains, false, nat_eq, none, ok, refl, remove, some, suc, text_eq, true, txt,
  zero, ℕ, ℕ_discrete, ◌∷◌, ◌≡◌,
}
use talk_go.Prelude.Dict.{lookup, insert, erase}
use talk_go.Service.Signal.{blank}
use talk_go.Hub.NoCrash.{has_late, never_crashes}
use talk_go.Hub.{
  goes_on, advance, go_on, new_hub, Event, connects, receives, breaks, notifies, run, step,
  register, dispatch, bind, wait_send, try_send, detach, forget_peer, peers_of, unregister,
  notify_session, with_fields, send_all, Hub,
}

abbrev joined : Text → Event
joined sid = receives 0 (some (ok (record blank { kind = txt "joined"; session_id = sid })))

-- A client joins twice and goes away; a notification to its first session is sent on a closed
-- channel.
two_sessions :
    (run new_hub (
      connects (txt "r")
      ∷ joined (txt "s")
      ∷ joined (txt "t")
      ∷ breaks 0
      ∷ notifies (txt "s") (txt "peer-joined") []
      ∷ goes_on 0
      ∷ goes_on 0
      ∷ [])).crashed
    ≡ true
unfolding run step register dispatch bind wait_send try_send detach forget_peer peers_of unregister
    notify_session with_fields send_all advance go_on insert lookup erase remove contains text_eq
    ℕ_discrete
two_sessions = refl

-- A client with one session goes away between the lookup and the send of a notification.
late_send :
    (run new_hub (
      connects (txt "r")
      ∷ joined (txt "s")
      ∷ notifies (txt "s") (txt "peer-joined") []
      ∷ goes_on 0
      ∷ breaks 0
      ∷ goes_on 0
      ∷ [])).crashed
    ≡ true
unfolding run step register dispatch bind wait_send try_send detach forget_peer peers_of unregister
    notify_session with_fields send_all advance go_on insert lookup erase remove contains text_eq
    ℕ_discrete
late_send = refl

-- A client's session is taken over by a second client of the same user; then the first goes away.
-- The session is told to be disconnected, and no notification reaches its new client any more.
abbrev taken_over : Hub
taken_over = run new_hub (
    connects (txt "r")
    ∷ joined (txt "s")
    ∷ connects (txt "r")
    ∷ receives 1 (some (ok (record blank { kind = txt "joined"; session_id = txt "s" })))
    ∷ breaks 0
    ∷ [])

late_unregister :
    (taken_over.disconnected ≡ txt "s" ∷ [])
    × (taken_over.clients ≡ 1 ∷ [])
    × (taken_over.session_clients ≡ [])
unfolding run step register dispatch bind wait_send try_send detach forget_peer peers_of unregister
    notify_session with_fields send_all insert lookup erase remove contains text_eq ℕ_discrete
late_unregister = (refl, refl, refl)

-- The first client has session `s`, the second `t`; the second goes away and comes back.
abbrev owners : ℕ → Text
owners zero = txt "s"
owners (suc n) = txt "t"

abbrev visits : List Event
visits =
    connects (txt "r")
    ∷ joined (txt "s")
    ∷ connects (txt "r")
    ∷ receives 1 (some (ok (record blank { kind = txt "joined"; session_id = txt "t" })))
    ∷ breaks 1
    ∷ notifies (txt "t") (txt "peer-joined") []
    ∷ goes_on 0
    ∷ goes_on 0
    ∷ connects (txt "r")
    ∷ receives 2 (some (ok (record blank { kind = txt "joined"; session_id = txt "t" })))
    ∷ notifies (txt "t") (txt "peer-joined") []
    ∷ goes_on 0
    ∷ goes_on 0
    ∷ receives 0 none
    ∷ []

never_crashes_example : (run new_hub visits).crashed ≡ false
unfolding has_late step run register dispatch bind wait_send try_send detach forget_peer peers_of
    unregister notify_session with_fields send_all advance go_on insert lookup erase remove contains
    text_eq ℕ_discrete
never_crashes_example =
    never_crashes owners visits
      (
        tt,
        (
          (λ e. refl),
          (
            tt,
            ((λ e. refl), (tt, (tt, (tt, (tt, (tt, ((λ e. refl), (tt, (tt, (tt, (tt, tt))))))))))),
          ),
        ),
      )
      refl
