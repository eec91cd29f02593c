-- ===== src/Hub/Safe.antt =====
-- The hub sends on no closed channel, as long as each client has one session.
use mathlib.Core.Bool.{false}
use talk_go.Prelude.{
  List, Option, Option-cases, Text, [], arith, contains, drop, if◌then◌else◌, inl, inr, nat_eq,
  none, refl, some, text_eq, true, ℕ, ◌++◌, ◌<◌, ◌∙◌, ◌∷◌, ◌≡◌, ◌≢◌, ◌⊎◌,
}
use talk_go.Prelude.Dict.{Dict, lookup, lookup-insert}
use talk_go.Hub.{Hub, Client, Frame, peers_of, try_send, wait_send, send_all, pump}

-- The session that a client's object has, if its channel is open.
unfoldable pub open_as : Dict ℕ Client → ℕ → Option Text
open_as heap c = elim (lookup c heap) [
  | none ↦ none
  | some cl ↦ if cl.closed then none else some cl.session_id
]

-- The room of a client's object.
unfoldable pub room_of : Dict ℕ Client → ℕ → Option Text
room_of heap c = elim (lookup c heap) [ none ↦ none | some cl ↦ some cl.room_id ]

-- `owner` tells the one session of each client.
module _ (owner : ℕ → Text) where
  -- A client that is registered is open, and it has its session or none; a session is bound to a
  -- registered client that has it; and who is in a room is registered.
  pub record Safe (h : Hub) : Type 0 where
    pub alive :
        (c : ℕ)
        → contains c h.clients ≡ true
        → (open_as h.heap c ≡ some []) ⊎ (open_as h.heap c ≡ some (owner c))
    pub bound :
        (sid : Text) (c : ℕ)
        → lookup sid h.session_clients ≡ some c
        → (contains c h.clients ≡ true) × (sid ≢ []) × (open_as h.heap c ≡ some sid)
    pub seated :
        (r : Text) (c : ℕ)
        → contains c (peers_of h r) ≡ true
        → (contains c h.clients ≡ true) × (r ≢ []) × (room_of h.heap c ≡ some r)
    pub old : (c : ℕ) → contains c h.clients ≡ true → c < h.next
    pub fine : h.crashed ≡ false

  -- A frame for a registered client gets through or is dropped; all else is as before.
  pub record Sent (h h' : Hub) : Type 0 where
    pub same_open : (c : ℕ) → open_as h'.heap c ≡ open_as h.heap c
    pub same_room : (c : ℕ) → room_of h'.heap c ≡ room_of h.heap c
    pub same_next : h'.next ≡ h.next
    pub same_clients : h'.clients ≡ h.clients
    pub same_bound : h'.session_clients ≡ h.session_clients
    pub same_rooms : h'.room_clients ≡ h.room_clients
    pub same_crashed : h'.crashed ≡ h.crashed

  pub Sent-Safe : (h h' : Hub) → Sent h h' → Safe h → Safe h'
  unfolding peers_of
  Sent-Safe h h' s v = record {
    alive = λ c m. rw (s.same_open c) (v.alive c (rw (← s.same_clients) m));
    bound = λ sid c e. rw (s.same_open c, s.same_clients) (v.bound sid c (rw (← s.same_bound) e));
    old = λ c m. rw s.same_next (v.old c (rw (← s.same_clients) m));
    seated = λ r c m. rw (s.same_clients, s.same_room c) (v.seated r c (rw (← s.same_rooms) m));
    fine = s.same_crashed ∙ v.fine;
  }

  pub try_send-Sent :
      (h : Hub) (c : ℕ) (f : Frame) (sid : Text)
      → open_as h.heap c ≡ some sid
      → Sent h (try_send h c f)
  unfolding try_send open_as room_of
  try_send-Sent h c f sid e = elim (Option-cases (lookup c h.heap)) [
    | inl none_there ↦ absurd (ground arith)
    | inr (cl, at) ↦ record {
      same_open =
          λ j. ground (arith, lookup-insert c j (record cl { send = cl.send ++ f ∷ [] }) h.heap);
      same_room =
          λ j. ground (arith, lookup-insert c j (record cl { send = cl.send ++ f ∷ [] }) h.heap);
      same_next = ground arith;
      same_clients = ground arith;
      same_bound = ground arith;
      same_rooms = ground arith;
      same_crashed = ground arith;
    }
  ]

  pub wait_send-Sent :
      (h : Hub) (c : ℕ) (f : Frame) (sid : Text)
      → open_as h.heap c ≡ some sid
      → Sent h (wait_send h c f)
  unfolding wait_send open_as room_of
  wait_send-Sent h c f sid e = elim (Option-cases (lookup c h.heap)) [
    | inl none_there ↦ absurd (ground arith)
    | inr (cl, at) ↦ record {
      same_open =
          λ j. ground (arith, lookup-insert c j (record cl { send = cl.send ++ f ∷ [] }) h.heap);
      same_room =
          λ j. ground (arith, lookup-insert c j (record cl { send = cl.send ++ f ∷ [] }) h.heap);
      same_next = ground arith;
      same_clients = ground arith;
      same_bound = ground arith;
      same_rooms = ground arith;
      same_crashed = ground arith;
    }
  ]

  pub pump-Sent : (h : Hub) (c : ℕ) → Sent h (pump h c)
  unfolding pump open_as room_of
  pump-Sent h c = elim (Option-cases (lookup c h.heap)) [
    | inl none_there ↦
        rw (none_there, pump)
          (record {
            same_open = λ j. refl;
            same_room = λ j. refl;
            same_next = refl;
            same_clients = refl;
            same_bound = refl;
            same_rooms = refl;
            same_crashed = refl;
          })
    | inr (cl, at) ↦ record {
      same_open =
          λ j. ground (arith, lookup-insert c j (record cl { send = drop 1 cl.send }) h.heap);
      same_room =
          λ j. ground (arith, lookup-insert c j (record cl { send = drop 1 cl.send }) h.heap);
      same_next = ground arith;
      same_clients = ground arith;
      same_bound = ground arith;
      same_rooms = ground arith;
      same_crashed = ground arith;
    }
  ]

  Sent-refl : (h : Hub) → Sent h h
  Sent-refl h = record {
    same_open = λ j. refl;
    same_room = λ j. refl;
    same_next = refl;
    same_clients = refl;
    same_bound = refl;
    same_rooms = refl;
    same_crashed = refl;
  }

  Sent-trans : (g h i : Hub) → Sent g h → Sent h i → Sent g i
  Sent-trans g h i a b = record {
    same_open = λ j. b.same_open j ∙ a.same_open j;
    same_room = λ j. b.same_room j ∙ a.same_room j;
    same_next = b.same_next ∙ a.same_next;
    same_clients = b.same_clients ∙ a.same_clients;
    same_bound = b.same_bound ∙ a.same_bound;
    same_rooms = b.same_rooms ∙ a.same_rooms;
    same_crashed = b.same_crashed ∙ a.same_crashed;
  }

  pub has_session :
      (h : Hub) (c : ℕ)
      → Safe h
      → contains c h.clients ≡ true
      → (sid : Text) × (open_as h.heap c ≡ some sid)
  has_session h c v m = elim (v.alive c m) [ inl e ↦ ([], e) | inr e ↦ (owner c, e) ]

  pub send_all-Sent :
      (h : Hub) (cs : List ℕ) (f : Frame)
      → Safe h
      → ((c : ℕ) → contains c cs ≡ true → contains c h.clients ≡ true)
      → Sent h (send_all h cs f)
  unfolding send_all contains
  send_all-Sent h [] f v there = Sent-refl h
  send_all-Sent h (c ∷ cs) f v there =
      let (sid, e) = has_session h c v (there c (ground arith)) in
      let first = try_send-Sent h c f sid e in
      Sent-trans h (try_send h c f) (send_all (try_send h c f) cs f) first (
        send_all-Sent (try_send h c f) cs f (Sent-Safe h (try_send h c f) first v)
          (λ j m. rw first.same_clients (there j (ground arith))))
