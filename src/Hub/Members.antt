-- ===== src/Hub/Members.antt =====
-- Clients that come and go: registration, and the part of unregistration under the mutex.
use mathlib.Core.Bool.{false}
use talk_go.Prelude.{
  Bool, List, Text, [], arith, contains, contains-remove, contains-snoc, if◌then◌else◌, inl, inr,
  nat_eq, none, remove, some, subst, sym, text_eq, true, ℕ, ◌++◌, ◌==◌, ◌∙◌, ◌∷◌, ◌≡◌, ◌≢◌, ◌⊎◌,
}
use talk_go.Prelude.Dict.{Dict, lookup, insert, erase, lookup-insert, lookup-erase}
use talk_go.Hub.{Hub, Client, peers_of, register, forget_peer, detach}
use talk_go.Hub.Safe.{Safe, open_as, room_of}

module _ (owner : ℕ → Text) where
  -- Another client's object is as before.
  pub open_other :
      (heap : Dict ℕ Client) (c j : ℕ) (cl : Client)
      → c ≢ j
      → open_as (insert c cl heap) j ≡ open_as heap j
  unfolding open_as
  open_other heap c j cl other = ground (arith, lookup-insert c j cl heap)

  pub room_other :
      (heap : Dict ℕ Client) (c j : ℕ) (cl : Client)
      → c ≢ j
      → room_of (insert c cl heap) j ≡ room_of heap j
  unfolding room_of
  room_other heap c j cl other = ground (arith, lookup-insert c j cl heap)

  newcomer : Text → Client
  newcomer room_id = record { room_id = room_id; session_id = []; send = []; closed = false }

  -- Who is in a list of peers after a write to the map of rooms.
  peers_in : Dict Text (List ℕ) → Text → List ℕ
  peers_in rooms r = elim (lookup r rooms) [ none ↦ [] | some cs ↦ cs ]

  peers-insert :
      (rooms : Dict Text (List ℕ)) (k r : Text) (cs : List ℕ)
      → peers_in (insert k cs rooms) r ≡ (if k == r then cs else peers_in rooms r)
  unfolding peers_in
  peers-insert rooms k r cs = ground (arith, lookup-insert k r cs rooms)

  peers-erase :
      (rooms : Dict Text (List ℕ)) (k r : Text)
      → peers_in (erase k rooms) r ≡ (if k == r then [] else peers_in rooms r)
  unfolding peers_in
  peers-erase rooms k r = ground (arith, lookup-erase k r rooms)

  peers-register :
      (h : Hub) (room_id r : Text) (c : ℕ)
      → contains c (peers_of (register h room_id) r) ≡ true
      → (contains c (peers_of h r) ≡ true) ⊎ ((h.next ≡ c) × (r ≡ room_id) × (room_id ≢ []))
  unfolding register peers_of peers_in
  peers-register h room_id r c m = elim (text_eq.dec room_id []) [
    | yes none_given ↦ inl (ground arith)
    | no named ↦ elim (text_eq.dec room_id r) [
      | no other ↦ inl (
          ground (arith, peers-insert h.room_clients room_id r (peers_of h room_id ++ h.next ∷ [])))
      | yes same ↦ elim (nat_eq.dec h.next c) [
        | yes new ↦ inr (new, sym same, named)
        | no before ↦ inl (
            ground (
              arith,
              peers-insert h.room_clients room_id r (peers_of h room_id ++ h.next ∷ []),
              contains-snoc c h.next (peers_of h room_id),
              contains-snoc c h.next (peers_of h r),
            ))
      ]
    ]
  ]

  peers-forget :
      (h : Hub) (c : ℕ) (room_id r : Text) (j : ℕ)
      → contains j (peers_in (forget_peer h c room_id) r) ≡ true
      → (contains j (peers_of h r) ≡ true) × ((room_id ≡ []) ⊎ ((room_id ≢ r) ⊎ (c ≢ j)))
  unfolding forget_peer peers_of peers_in contains
  peers-forget h c room_id r j n = elim (text_eq.dec room_id []) [
    | yes e ↦ (ground arith, inl e)
    | no named ↦ elim (text_eq.dec room_id r) [
      | no other ↦ (
        ground (
          arith,
          peers-erase h.room_clients room_id r,
          peers-insert h.room_clients room_id r (remove c (peers_of h room_id)),
        ),
        inr (inl other),
      )
      | yes same ↦
          let kept : contains j (remove c (peers_of h room_id)) ≡ true = ground (
            arith,
            peers-erase h.room_clients room_id r,
            peers-insert h.room_clients room_id r (remove c (peers_of h room_id)),
          ) in
          (
            subst (λ (k : Text). contains j (peers_of h k) ≡ true) same
                (ground (arith, kept, contains-remove c j (peers_of h room_id))),
            inr (inr (λ e. ground (arith, kept, contains-remove c j (peers_of h room_id)))),
          )
    ]
  ]

  pub register-Safe : (h : Hub) (room_id : Text) → Safe owner h → Safe owner (register h room_id)
  unfolding register open_as room_of contains newcomer
  register-Safe h room_id v = record {
    alive = λ c m. ground (arith, v.alive c, lookup-insert h.next c (newcomer room_id) h.heap);
    bound = λ sid c e.
        ground (arith, v.bound sid c, v.old c, lookup-insert h.next c (newcomer room_id) h.heap);
    seated = λ r c m. elim (peers-register h room_id r c m) [
      | inl before ↦
          ground
            (arith, v.seated r c before, v.old c, lookup-insert h.next c (newcomer room_id) h.heap)
      | inr (same, here, named) ↦ ground (arith, lookup-insert h.next c (newcomer room_id) h.heap)
    ];
    old = λ c m. ground (arith, v.old c);
    fine = v.fine;
  }

  empty_lookup : (j : ℕ) → ¬ (none ≡ some j)
  empty_lookup j e = cc e

  kept_before :
      (b : Bool) (a sid : Text) (j : ℕ) (d : Dict Text ℕ)
      → lookup sid (if b then d else erase a d) ≡ some j
      → lookup sid d ≡ some j
  kept_before true a sid j d e = e
  kept_before false a sid j d e = ground (arith, lookup-erase a sid d)

  erased :
      (a sid : Text) (d : Dict Text ℕ)
      → a ≡ sid
      → sid ≢ []
      → lookup sid (if a == [] then d else erase a d) ≡ none
  erased a sid d e named = ground (arith, lookup-erase a sid d)

  module _ (h : Hub) (c : ℕ) (cl : Client) (at : lookup c h.heap ≡ some cl)
      (m : contains c h.clients ≡ true) (v : Safe owner h) where
    still_bound :
        (sid : Text) (j : ℕ)
        → lookup sid (detach h c cl).session_clients ≡ some j
        → (lookup sid h.session_clients ≡ some j) × (c ≢ j)
    unfolding detach open_as
    still_bound sid j e =
        let before : lookup sid h.session_clients ≡ some j =
          kept_before (cl.session_id == []) cl.session_id sid j h.session_clients e in
        (
          before,
          λ same.
              let b = v.bound sid j before in
              let here : cl.session_id ≡ sid = ground (arith, b.2) in
              empty_lookup j (sym (erased cl.session_id sid h.session_clients here b.1) ∙ e),
        )

    still_seated :
        (r : Text) (j : ℕ)
        → contains j (peers_of (detach h c cl) r) ≡ true
        → (contains j (peers_of h r) ≡ true) × (c ≢ j)
    unfolding detach peers_of room_of peers_in
    still_seated r j n =
        let (before, away) = peers-forget h c cl.room_id r j n in
        let old = v.seated r j before in
        (
          before,
          λ same.
              let here : cl.room_id ≡ r = ground (arith, old.2) in
              elim away [
                | inl e ↦ old.1 (sym here ∙ e)
                | inr (inl ne) ↦ ne here
                | inr (inr ne) ↦ ne same
              ],
        )

    pub detach-Safe : Safe owner (detach h c cl)
    unfolding detach
    detach-Safe =
        let gone : Client = record cl { closed = true } in
        record {
          alive = λ j n.
              ground (arith, v.alive j, contains-remove c j h.clients, open_other h.heap c j gone);
          bound = λ sid j e.
              let (before, other) = still_bound sid j e in
              let old = v.bound sid j before in
              (
                ground (arith, contains-remove c j h.clients, old.0),
                old.1,
                ground (arith, open_other h.heap c j gone other, old.2),
              );
          seated = λ r j n.
              let (before, other) = still_seated r j n in
              let old = v.seated r j before in
              (
                ground (arith, contains-remove c j h.clients, old.0),
                old.1,
                ground (arith, room_other h.heap c j gone other, old.2),
              );
          old = λ j n. ground (arith, v.old j, contains-remove c j h.clients);
          fine = v.fine;
        }
