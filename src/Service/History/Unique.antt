-- ===== src/Service/History/Unique.antt =====
-- The map of users has each key once, whatever happens.
use talk_go.Session.{Session, new_session}
use talk_go.Room.{Room, touch_activity, join, close}
use talk_go.Repository.{find_by_id}
use talk_go.Prelude.{
  Bool, Bool-cases, Error, Option, Option-cases, Result-cases, Text, [], already_in_room, arith,
  false, inl, inr, nat_eq, none, not, refl, some, text_eq, true, ℕ, ◌&&◌, ◌++◌, ◌+◌, ◌==◌, ◌∷◌, ◌≡◌,
  ◌⊎◌,
}
use talk_go.Prelude.Dict.{Dict, lookup, erase, UniqueKeys, insert-UniqueKeys, erase-UniqueKeys}
use talk_go.Service.State.{Ports, Service, key_of, colon, put_room, log, peer_create}
use talk_go.Service.Delete.{delete_room, drop_entries, drop_entry, drop_pipeline}
use talk_go.Service.Create.{create_room, save_coded}
use talk_go.Service.Leave.{leave_room, leave_found, forget}
use talk_go.Service.Join.{
  join_room, joined, open_session, register, undo_join, launch, cancel_grace_timers_for_room,
}
use talk_go.Service.Shapes.{cancel-SameMaps}

abbrev pub Keyed : Service → Type 0
Keyed s = UniqueKeys s.lookups

drop_entry-Keyed : (s : Service) (key sid : Text) → Keyed s → Keyed (drop_entry s key sid)
unfolding drop_entry
drop_entry-Keyed s key sid u = ground (arith, erase-UniqueKeys key s.lookups)

drop_entries-Keyed :
    (prefix : Text) (es : Dict Text Text) (s : Service) → Keyed s → Keyed (drop_entries prefix es s)
unfolding drop_entries
drop_entries-Keyed prefix [] s u = u
drop_entries-Keyed prefix ((key, sid) ∷ es) s u = ground (
  arith,
  drop_entries-Keyed prefix es s,
  drop_entries-Keyed prefix es (drop_entry s key sid),
  drop_entry-Keyed s key sid,
)

lookups-drop_pipeline : (s : Service) (id : Text) → (drop_pipeline s id).lookups ≡ s.lookups
unfolding drop_pipeline
lookups-drop_pipeline s id = ground arith

pub delete_room-Keyed : (s : Service) (id : Text) → Keyed s → Keyed (delete_room s id).1
unfolding delete_room
delete_room-Keyed s id u = elim (Result-cases (find_by_id s.repo id)) [
  | inl (e, missing) ↦ rw (missing, delete_room) u
  | inr (r, found) ↦
      let s₁ = put_room s (close r) in
      let s₂ = drop_entries (id ++ colon ∷ []) s₁.lookups s₁ in
      rw (found, delete_room, lookups-drop_pipeline s₂ id)
        (drop_entries-Keyed (id ++ colon ∷ []) s₁.lookups s₁ u)
]

lookups-create_room :
    (ports : Ports) (s : Service) (source target : Text) (now : ℕ)
    → (create_room ports s source target now).1.lookups ≡ s.lookups
unfolding create_room save_coded
lookups-create_room ports s source target now = ground arith

pub create_room-Keyed :
    (ports : Ports) (s : Service) (source target : Text) (now : ℕ)
    → Keyed s
    → Keyed (create_room ports s source target now).1
create_room-Keyed ports s source target now u = rw (lookups-create_room ports s source target now) u

lookups-launch :
    (s : Service) (id : Text) (r : Room) (x : Session) → (launch s id r x).lookups ≡ s.lookups
unfolding launch
lookups-launch s id r x = ground arith

lookups-undo_join :
    (b : Bool) (s : Service) (r : Room) (user : Text) → (undo_join b s r user).lookups ≡ s.lookups
unfolding undo_join
lookups-undo_join true s r user = refl
lookups-undo_join false s r user = refl

register-Keyed :
    (s : Service) (id : Text) (r : Room) (x : Session) (now : ℕ)
    → Keyed s
    → Keyed (register s id r x now)
unfolding register
register-Keyed s id r x now u =
    rw (lookups-launch _ id (touch_activity r now) x)
      (insert-UniqueKeys (key_of id x.user_id) x.id s.lookups u)

module _ (ports : Ports) (id : Text) (r : Room) (user lang : Text) (now : ℕ) where
  open_session-Keyed :
      (b : Bool) (s : Service) → Keyed s → Keyed (open_session ports b s id r user lang now).1
  unfolding open_session
  open_session-Keyed b s u =
      let x = new_session (ports.uuid s.created) id user lang now in
      let s₁ = record (log s (peer_create x.id)) { created = s.created + 1 } in
      elim (Option-cases (ports.create_session x.id)) [
        | inr (e, failed) ↦ rw (failed, open_session, lookups-undo_join b s₁ r user) u
        | inl made ↦ elim (Option-cases (ports.save_room r)) [
          | inr (e, failed) ↦ rw (made, open_session, failed, lookups-undo_join b s₁ r user) u
          | inl saved ↦ rw (made, open_session, saved) (register-Keyed s₁ id r x now u)
        ]
      ]

  cancel-Keyed : (s : Service) → Keyed s → Keyed (cancel_grace_timers_for_room s id)
  cancel-Keyed s u = rw (cancel-SameMaps s id).same_lookups u

  joined-Keyed :
      (s : Service) (e : Option Error) → Keyed s → Keyed (joined ports s id r user lang now e).1
  unfolding joined
  joined-Keyed s none u =
      open_session-Keyed false (cancel_grace_timers_for_room s id) (cancel-Keyed s u)
  joined-Keyed s (some already_in_room) u =
      let s' = cancel_grace_timers_for_room s id in
      elim (Option-cases (lookup (key_of id user) s'.lookups)) [
        | inl e ↦ rw (e, joined) (open_session-Keyed true s' (cancel-Keyed s u))
        | inr (sid, e) ↦ rw (e, joined) (cancel-Keyed s u)
      ]
  joined-Keyed s (some _) u = u

pub join_room-Keyed :
    (ports : Ports) (s : Service) (id user lang : Text) (now : ℕ)
    → Keyed s
    → Keyed (join_room ports s id user lang now).1
unfolding join_room
join_room-Keyed ports s id user lang now u = elim (Bool-cases (lang == [])) [
  | inl missing ↦ rw missing u
  | inr given ↦ elim (Result-cases (find_by_id s.repo id)) [
    | inl (e, missing) ↦ rw (given, missing) u
    | inr (r, found) ↦
        let (e, r') = join r user in
        elim (Bool-cases (not (lang == r.source_lang) && not (lang == r.target_lang))) [
          | inl bad ↦ rw (given, found, bad) u
          | inr good ↦
              rw (given, found, good) (joined-Keyed ports id r' user lang now (put_room s r') e u)
        ]
  ]
]

lookups-leave_found :
    (ports : Ports) (s : Service) (id user sid : Text) (x : Session)
    → ((leave_found ports s id user sid x).1.lookups ≡ s.lookups)
      ⊎ ((leave_found ports s id user sid x).1.lookups ≡ erase (key_of id user) s.lookups)
unfolding leave_found forget drop_pipeline
lookups-leave_found ports s id user sid x = ground arith

pub leave_room-Keyed :
    (ports : Ports) (s : Service) (id user : Text) → Keyed s → Keyed (leave_room ports s id user).1
unfolding leave_room
leave_room-Keyed ports s id user u = elim (Option-cases (lookup (key_of id user) s.lookups)) [
  | inl e ↦ rw (e, leave_room) u
  | inr (sid, e) ↦ elim (Option-cases (lookup sid s.sessions)) [
    | inl missing ↦ rw (e, leave_room, missing) u
    | inr (x, held) ↦
        rw (e, leave_room, held)
          (elim (lookups-leave_found ports s id user sid x) [
            | inl same ↦ rw same u
            | inr erased ↦ rw erased (erase-UniqueKeys (key_of id user) s.lookups u)
          ])
  ]
]
