-- ===== src/Hub/NoCrash.antt =====
-- Every step of the hub keeps it safe.
use talk_go.Prelude.{
  All, Bool, Bool-cases, List, Option, Option-cases, Text, [], arith, contains, err, false,
  get_elem?, inl, inr, nat_eq, none, not, ok, refl, some, some_inj, subst, sym, text_eq, true, txt,
  ℕ, ◌&&◌, ◌++◌, ◌==◌, ◌||◌, ◌∙◌, ◌∷◌, ◌≡◌, ◌≢◌,
}
use talk_go.Prelude.Dict.{lookup, insert, lookup-insert}
use talk_go.Service.Signal.{SignalingMessage, error_message}
use talk_go.Hub.Members.{open_other, room_other, register-Safe, detach-Safe}
use talk_go.Hub.{
  wanted, found, Notice, go_on, advance, goes_on, Hub, Client, Frame, Event, connects, receives,
  breaks, notifies, pumps, Answer, new_hub, peers_of, try_send, wait_send, send_all, detach,
  unregister, bind, dispatch, notify_session, pump, step, run, failure, response, peer_left, Notice,
  go_on, advance, goes_on, found,
}
use talk_go.Hub.Safe.{
  Safe, open_as, room_of, has_session, send_all-Sent, Sent-Safe, try_send-Sent, wait_send-Sent,
  pump-Sent,
}

-- The next step of the n-th call of `NotifySession` is its send, and comes late: the client that it
-- has found is unregistered meanwhile.
abbrev pub is_late : Hub → Event → Bool
is_late h (goes_on n) = elim (get_elem? h.notices n) [
  | none ↦ false
  | some notice ↦ elim notice [ wanted sid f ↦ false | found c f ↦ not (contains c h.clients) ]
]
is_late h _ = false

-- Whether a send comes late in a run.
unfoldable pub has_late : Hub → List Event → Bool
has_late h [] = false
has_late h (e ∷ es) = is_late h e || has_late (step h e) es

-- All joins that a client is told of are to its one session.
abbrev pub OneSession : (ℕ → Text) → Event → Type 0
OneSession owner (receives c (some (ok resp))) =
    resp.kind ≡ txt "joined" → resp.session_id ≡ owner c
OneSession owner _ = Unit {0}

module _ (owner : ℕ → Text) where
  told-Safe :
      (h : Hub) (gone : List Text) → Safe owner h → Safe owner (record h { disconnected = gone })
  unfolding peers_of
  told-Safe h gone v = record {
    alive = v.alive;
    bound = v.bound;
    seated = v.seated;
    old = v.old;
    fine = v.fine;
  }

  member_there :
      (h : Hub) (c : ℕ)
      → Safe owner h
      → contains c h.clients ≡ true
      → (cl : Client) × (lookup c h.heap ≡ some cl)
  unfolding open_as
  member_there h c v m = elim (Option-cases (lookup c h.heap)) [
    | inr there ↦ there
    | inl missing ↦ let (sid, e) = has_session owner h c v m in absurd (ground arith)
  ]

  unregister-Safe :
      (h : Hub) (c : ℕ) → contains c h.clients ≡ true → Safe owner h → Safe owner (unregister h c)
  unfolding unregister
  unregister-Safe h c m v =
      let (cl, at) = member_there h c v m in
      let h' = detach h c cl in
      let v' = detach-Safe owner h c cl at m v in
      let peers = peers_of h' cl.room_id in
      let sent =
        Sent-Safe owner h' (send_all h' peers (peer_left cl.session_id))
          (send_all-Sent owner h' peers (peer_left cl.session_id) v'
            (λ j n. (v'.seated cl.room_id j n).0))
          v' in
      rw (at, unregister)
        (elim (Bool-cases (cl.session_id == [])) [
          | inl e ↦ rw e v'
          | inr e ↦ elim (Bool-cases (cl.room_id == [])) [
            | inl none_given ↦ rw (e, none_given) (told-Safe h' _ v')
            | inr given ↦
                rw (e, given) (told-Safe (send_all h' peers (peer_left cl.session_id)) _ sent)
          ]
        ])

  -- The client that is given a session.
  now_open :
      (h : Hub) (c : ℕ) (cl : Client) (sid : Text)
      → lookup c h.heap ≡ some cl
      → contains c h.clients ≡ true
      → Safe owner h
      → (open_as (insert c (record cl { session_id = sid }) h.heap) c ≡ some sid)
        × (room_of (insert c (record cl { session_id = sid }) h.heap) c ≡ room_of h.heap c)
  unfolding open_as room_of
  now_open h c cl sid at m v =
      let (s, e) = has_session owner h c v m in
      (
        ground (arith, lookup-insert c c (record cl { session_id = sid }) h.heap),
        ground (arith, lookup-insert c c (record cl { session_id = sid }) h.heap),
      )

  -- A client has no other session than its own.
  own_only :
      (h : Hub) (c : ℕ) (sid s : Text)
      → contains c h.clients ≡ true
      → sid ≡ owner c
      → s ≢ []
      → sid ≢ s
      → Safe owner h
      → ¬ (open_as h.heap c ≡ some s)
  own_only h c sid s m own named other v e = elim (v.alive c m) [
    | inl none_yet ↦ named (some_inj (sym e ∙ none_yet))
    | inr its ↦ other (own ∙ some_inj (sym its ∙ e))
  ]

  bound_to :
      (h : Hub) (c : ℕ) (cl : Client) (sid : Text)
      → lookup c h.heap ≡ some cl
      → contains c h.clients ≡ true
      → sid ≡ owner c
      → sid ≢ []
      → Safe owner h
      → Safe owner (record h {
        heap = insert c (record cl { session_id = sid }) h.heap;
        session_clients = insert sid c h.session_clients;
      })
  unfolding peers_of
  bound_to h c cl sid at m own named v =
      let cl' : Client = record cl { session_id = sid } in
      record {
        alive = λ j n. elim (nat_eq.dec c j) [
          | yes same ↦ inr (rw (← same, ← own) (now_open h c cl sid at m v).0)
          | no other ↦ rw (open_other owner h.heap c j cl' other) (v.alive j n)
        ];
        bound = λ s j e. elim (text_eq.dec sid s) [
          | yes same ↦
              let here : c ≡ j =
                some_inj (ground (arith, lookup-insert sid s c h.session_clients)) in
              (rw (← here) m, rw (← same) named, rw (← here, ← same) (now_open h c cl sid at m v).0)
          | no other ↦
              let b = v.bound s j (ground (arith, lookup-insert sid s c h.session_clients)) in
              (
                b.0,
                b.1,
                open_other owner h.heap c j cl'
                      (λ here. own_only h c sid s m own b.1 other v (rw here b.2))
                    ∙ b.2,
              )
        ];
        seated = λ r j n.
            let old = v.seated r j n in
            (
              old.0,
              old.1,
              elim (nat_eq.dec c j) [
                | yes same ↦
                    subst (λ (k : ℕ). room_of (insert c cl' h.heap) k ≡ some r) same
                      ((now_open h c cl sid at m v).1 ∙ rw same old.2)
                | no other ↦ room_other owner h.heap c j cl' other ∙ old.2
              ],
            );
        old = v.old;
        fine = v.fine;
      }

  tested : (a b s : Text) → (a == b && not (s == [])) ≡ true → (a ≡ b) × (s ≢ [])
  tested a b s h = (ground arith, λ e. ground arith)

  bind-Safe :
      (h : Hub) (c : ℕ) (resp : SignalingMessage)
      → contains c h.clients ≡ true
      → (resp.kind ≡ txt "joined" → resp.session_id ≡ owner c)
      → Safe owner h
      → Safe owner (bind h c resp)
  unfolding bind
  bind-Safe h c resp m own v =
      let (cl, at) = member_there h c v m in
      elim (Bool-cases (resp.kind == txt "joined" && not (resp.session_id == []))) [
        | inr no_join ↦ rw no_join v
        | inl joined ↦
            let (kind, named) = tested resp.kind (txt "joined") resp.session_id joined in
            rw (joined, at, bind) (bound_to h c cl resp.session_id at m (own kind) named v)
      ]

  bind-clients : (h : Hub) (c : ℕ) (resp : SignalingMessage) → (bind h c resp).clients ≡ h.clients
  unfolding bind
  bind-clients h c resp = ground arith

  answered :
      (h : Hub) (c : ℕ) (f : Frame)
      → contains c h.clients ≡ true
      → Safe owner h
      → Safe owner (wait_send h c f)
  answered h c f m v =
      let (sid, e) = has_session owner h c v m in
      Sent-Safe owner h (wait_send h c f) (wait_send-Sent owner h c f sid e) v

  dispatch-Safe :
      (h : Hub) (c : ℕ) (a : Answer)
      → contains c h.clients ≡ true
      → OneSession owner (receives c a)
      → Safe owner h
      → Safe owner (dispatch h c a)
  unfolding dispatch
  dispatch-Safe h c none m one v = answered h c (failure (txt "invalid JSON")) m v
  dispatch-Safe h c (some (err e)) m one v = answered h c (response (error_message e)) m v
  dispatch-Safe h c (some (ok resp)) m one v =
      let v' = bind-Safe h c resp m one v in
      elim (Bool-cases (resp.kind == [])) [
        | inl empty ↦ rw empty v'
        | inr full ↦ rw full (answered (bind h c resp) c (response resp) (rw bind-clients m) v')
      ]

  neither : (a b : Bool) → (a || b) ≡ false → a ≡ false
  neither a b h = ground arith

  noted-Safe : (h : Hub) (ns : List Notice) → Safe owner h → Safe owner (record h { notices = ns })
  unfolding peers_of
  noted-Safe h ns v = record {
    alive = v.alive;
    bound = v.bound;
    seated = v.seated;
    old = v.old;
    fine = v.fine;
  }

  go_on-Safe :
      (h : Hub) (before after : List Notice) (notice : Option Notice)
      → ((c : ℕ) (f : Frame) → notice ≡ some (found c f) → contains c h.clients ≡ true)
      → Safe owner h
      → Safe owner (go_on h before after notice)
  unfolding go_on
  go_on-Safe h before after none timely v = v
  go_on-Safe h before after (some (wanted sid f)) timely v =
      elim (Option-cases (lookup sid h.session_clients)) [
        | inl nobody ↦ rw (nobody, go_on) (noted-Safe h (before ++ after) v)
        | inr (c, at) ↦ rw (at, go_on) (noted-Safe h (before ++ found c f ∷ after) v)
      ]
  go_on-Safe h before after (some (found c f)) timely v =
      let h' : Hub = record h { notices = before ++ after } in
      let v' = noted-Safe h (before ++ after) v in
      let (sid, e) = has_session owner h' c v' (timely c f refl) in
      Sent-Safe owner h' (try_send h' c f) (try_send-Sent owner h' c f sid e) v'

  advance-Safe :
      (h : Hub) (n : ℕ) → is_late h (goes_on n) ≡ false → Safe owner h → Safe owner (advance h n)
  unfolding advance
  advance-Safe h n timely v = go_on-Safe h _ _ (get_elem? h.notices n) (λ c f at. ground arith) v

  step-Safe :
      (h : Hub) (e : Event)
      → OneSession owner e
      → is_late h e ≡ false
      → Safe owner h
      → Safe owner (step h e)
  unfolding step notify_session
  step-Safe h (connects room_id) one timely v = register-Safe owner h room_id v
  step-Safe h (receives c a) one timely v = elim (Bool-cases (contains c h.clients)) [
    | inl m ↦ rw m (dispatch-Safe h c a m one v)
    | inr away ↦ rw away v
  ]
  step-Safe h (breaks c) one timely v = elim (Bool-cases (contains c h.clients)) [
    | inl m ↦ rw m (unregister-Safe h c m v)
    | inr away ↦ rw away v
  ]
  step-Safe h (notifies sid kind fs) one timely v = noted-Safe h _ v
  step-Safe h (pumps c) one timely v = Sent-Safe owner h (pump h c) (pump-Sent owner h c) v
  step-Safe h (goes_on n) one timely v = advance-Safe h n timely v

  run-Safe :
      (h : Hub) (es : List Event)
      → All (OneSession owner) es
      → has_late h es ≡ false
      → Safe owner h
      → Safe owner (run h es)
  unfolding run has_late
  run-Safe h [] one timely v = v
  run-Safe h (e ∷ es) one timely v =
      let now : is_late h e ≡ false = neither (is_late h e) (has_late (step h e) es) timely in
      let later : has_late (step h e) es ≡ false = ground arith in
      run-Safe (step h e) es one.1 later (step-Safe h e one.0 now v)

  new_hub-Safe : Safe owner new_hub
  unfolding open_as room_of peers_of lookup contains
  new_hub-Safe = record {
    alive = λ c m. cc m;
    bound = λ s c e. cc e;
    seated = λ r c m. cc m;
    old = λ c m. cc m;
    fine = refl;
  }

pub never_crashes :
    (owner : ℕ → Text) (es : List Event)
    → All (OneSession owner) es
    → has_late new_hub es ≡ false
    → (run new_hub es).crashed ≡ false
never_crashes owner es one timely = (run-Safe owner new_hub es one timely (new_hub-Safe owner)).fine
