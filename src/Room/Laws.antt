-- ===== src/Room/Laws.antt =====
-- The methods of a room: its invariant, and what a history of calls can do.
use talk_go.Prelude.{
  Bool-cases, Distinct, Distinct-remove, Distinct-snoc, List, Text, [], arith, contains,
  contains-snoc, false, inl, inr, length, length-append, length-remove-le, nat_eq, none, ok, refl,
  remove, remove-snoc, room_closed, some, text_eq, true, ℕ, ◌↔◌, ◌∙◌, ◌∷◌, ◌≡◌, ◌≤◌, ◌⊎◌,
}
use talk_go.Room.{
  Room, Call, joins, leaves, closes, touches, new_room, join, leave, is_full, close, touch_activity,
  step, run,
}

-- No user is in a room twice, a room is never over its capacity, and a closed one is empty.
pub record IsValid (r : Room) : Type 0 where
  pub once : Distinct r.participants
  pub fits : length r.participants ≤ r.capacity
  pub emptied : r.active ≡ false → r.participants ≡ []

pub join-IsValid : (r : Room) (user : Text) → IsValid r → IsValid (join r user).1
unfolding join
join-IsValid r user v =
    ground (arith, Distinct-snoc user r.participants, length-append {0} r.participants (user ∷ []))

pub leave-IsValid : (r : Room) (user : Text) → IsValid r → IsValid (leave r user).1
unfolding leave remove
leave-IsValid r user v =
    ground (arith, Distinct-remove user r.participants, length-remove-le user r.participants)

pub close-IsValid : (r : Room) → IsValid (close r)
unfolding close
close-IsValid r = record { once = tt; fits = omega arith; emptied = λ _. refl }

step-IsValid : (r : Room) (c : Call) → IsValid r → IsValid (step r c)
unfolding step touch_activity
step-IsValid r (joins user) v = join-IsValid r user v
step-IsValid r (leaves user) v = leave-IsValid r user v
step-IsValid r closes v = close-IsValid r
step-IsValid r (touches now) v = record { once = v.once; fits = v.fits; emptied = v.emptied }

-- Whatever is called on a valid room, it stays valid.
pub run-IsValid : (r : Room) (cs : List Call) → IsValid r → IsValid (run r cs)
unfolding run
run-IsValid r [] v = v
run-IsValid r (c ∷ cs) v = run-IsValid (step r c) cs (step-IsValid r c v)

pub new_room-IsValid :
    (id source target : Text) (now : ℕ) (r : Room)
    → new_room id source target now ≡ ok r
    → IsValid r
unfolding new_room
new_room-IsValid id source target now r h = ground arith

capacity-step : (r : Room) (c : Call) → (step r c).capacity ≡ r.capacity
unfolding step join leave close touch_activity
capacity-step r (joins user) = ground arith
capacity-step r (leaves user) = ground arith
capacity-step r closes = refl
capacity-step r (touches now) = refl

capacity-run : (r : Room) (cs : List Call) → (run r cs).capacity ≡ r.capacity
unfolding run
capacity-run r [] = refl
capacity-run r (c ∷ cs) = capacity-run (step r c) cs ∙ capacity-step r c

new_room-capacity :
    (id source target : Text) (now : ℕ) (r : Room)
    → new_room id source target now ≡ ok r
    → r.capacity ≡ 2
unfolding new_room
new_room-capacity id source target now r h = ground arith

-- A room that `new_room` returned, after any calls: no user is in it twice, at most two users are in
-- it, and nobody is in it if it is closed.
pub new_room-run :
    (id source target : Text) (now : ℕ) (r : Room) (cs : List Call)
    → new_room id source target now ≡ ok r
    → Distinct (run r cs).participants
      × (length (run r cs).participants ≤ 2)
      × (((run r cs).active ≡ true) ⊎ ((run r cs).participants ≡ []))
new_room-run id source target now r cs h =
    let v = run-IsValid r cs (new_room-IsValid id source target now r h) in
    (
      v.once,
      omega (arith, v.fits, capacity-run r cs, new_room-capacity id source target now r h),
      open_or_empty,
    )
  where
    open_or_empty : ((run r cs).active ≡ true) ⊎ ((run r cs).participants ≡ [])
    open_or_empty = elim (Bool-cases (run r cs).active) [
      | inl e ↦ inl e
      | inr e ↦ inr ((run-IsValid r cs (new_room-IsValid id source target now r h)).emptied e)
    ]

closed_step : (r : Room) (c : Call) → r.active ≡ false → (step r c).active ≡ false
unfolding step join leave close touch_activity
closed_step r (joins user) h = ground arith
closed_step r (leaves user) h = ground arith
closed_step r closes h = refl
closed_step r (touches now) h = h

closed_run : (r : Room) (cs : List Call) → r.active ≡ false → (run r cs).active ≡ false
unfolding run
closed_run r [] h = h
closed_run r (c ∷ cs) h = closed_run (step r c) cs (closed_step r c h)

join_closed : (r : Room) (user : Text) → r.active ≡ false → join r user ≡ (some room_closed, r)
unfolding join
join_closed r user h = rw h

-- Whatever is called after `close`, a join fails with `room_closed` and changes nothing.
join-run-close :
    (r : Room) (cs : List Call) (user : Text)
    → join (run (close r) cs) user ≡ (some room_closed, run (close r) cs)
join-run-close r cs user =
    join_closed (run (close r) cs) user (closed_run (close r) cs (unfold close in refl))

-- A join succeeds exactly if the room is open, the user is not in it, and it is not full.
pub join-none_iff :
    (r : Room) (user : Text)
    → ((join r user).0 ≡ none)
      ↔ ((r.active ≡ true) × (contains user r.participants ≡ false) × (is_full r ≡ false))
unfolding join is_full
join-none_iff r user = ground arith

-- Leaving undoes a join that succeeded: the room is as it was before the join.
pub leave-join :
    (r : Room) (user : Text) → (join r user).0 ≡ none → leave (join r user).1 user ≡ (none, r)
unfolding join leave
leave-join r user h =
    ground (arith, contains-snoc user user r.participants, remove-snoc user r.participants)
