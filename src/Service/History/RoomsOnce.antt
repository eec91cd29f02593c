-- ===== src/Service/History/RoomsOnce.antt =====
-- The repository has each ID once, whatever happens.
use talk_go.Prelude.{
  Bool, Error, Option, Option-cases, Result, Result-cases, Text, [], already_in_room, arith, err,
  false, if_elim, inl, inr, nat_eq, none, not, ok, some, text_eq, true, ℕ, ◌&&◌, ◌++◌, ◌+◌, ◌==◌,
  ◌∷◌, ◌≡◌, ◌⊎◌,
}
use talk_go.Prelude.Dict.{lookup, UniqueKeys, insert-UniqueKeys, erase-UniqueKeys}
use talk_go.Room.{Room, touch_activity, join, leave, close, new_room}
use talk_go.Session.{Session, new_session}
use talk_go.Repository.{find_by_id, save, delete}
use talk_go.Service.State.{Ports, Service, key_of, colon, put_room, log, peer_create, attempts}
use talk_go.Service.Delete.{delete_room, drop_entries, drop_pipeline}
use talk_go.Service.Create.{create_room, save_coded, draw_code}
use talk_go.Service.Leave.{leave_room, leave_found, forget}
use talk_go.Service.Join.{
  join_room, joined, open_session, register, undo_join, launch, cancel_grace_timers_for_room,
}
use talk_go.Service.Shapes.{cancel-SameMaps, drop_pipeline_shape}
use talk_go.Service.Preserved.Delete.{same-drop_entries}

abbrev pub RoomsOnce : Service → Type 0
RoomsOnce s = UniqueKeys s.repo

put_room-RoomsOnce : (s : Service) (r : Room) → RoomsOnce s → RoomsOnce (put_room s r)
put_room-RoomsOnce s r u = insert-UniqueKeys r.id r s.repo u

pub delete_room-RoomsOnce : (s : Service) (id : Text) → RoomsOnce s → RoomsOnce (delete_room s id).1
unfolding delete_room delete
delete_room-RoomsOnce s id u = elim (Result-cases (find_by_id s.repo id)) [
  | inl (e, missing) ↦ rw (missing, delete_room) u
  | inr (r, found) ↦
      let s₁ = put_room s (close r) in
      let s₂ = drop_entries (id ++ colon ∷ []) s₁.lookups s₁ in
      rw
        (
          found,
          delete_room,
          (drop_pipeline_shape s₂ id).2,
          (same-drop_entries (id ++ colon ∷ []) s₁.lookups s₁).0,
        )
        (erase-UniqueKeys id s₁.repo (put_room-RoomsOnce s (close r) u))
]

save_coded-RoomsOnce :
    (ports : Ports) (s : Service) (r : Room) (drawn : Result Text × ℕ)
    → RoomsOnce s
    → RoomsOnce (save_coded ports s r drawn).1
unfolding save_coded save
save_coded-RoomsOnce ports s r (err e, drawn) u = u
save_coded-RoomsOnce ports s r (ok code, drawn) u =
    let r' = record r { short_code = code } in
    elim (Option-cases (ports.save_room r')) [
      | inr (e, failed) ↦ rw (failed, save_coded) u
      | inl saved ↦ rw (saved, save_coded) (insert-UniqueKeys r'.id r' s.repo u)
    ]

pub create_room-RoomsOnce :
    (ports : Ports) (s : Service) (source target : Text) (now : ℕ)
    → RoomsOnce s
    → RoomsOnce (create_room ports s source target now).1
unfolding create_room
create_room-RoomsOnce ports s source target now u =
    let s' = record s { created = s.created + 1 } in
    elim (Result-cases (new_room (ports.uuid s.created) source target now)) [
      | inl (e, refused) ↦ rw (refused, create_room) u
      | inr (r, made) ↦
          rw (made, create_room)
            (save_coded-RoomsOnce ports s' r (draw_code ports s.repo (attempts s.config) s.drawn) u)
    ]

repo-launch : (s : Service) (id : Text) (r : Room) (x : Session) → (launch s id r x).repo ≡ s.repo
unfolding launch
repo-launch s id r x = ground arith

undo_join-RoomsOnce :
    (b : Bool) (s : Service) (r : Room) (user : Text)
    → RoomsOnce s
    → RoomsOnce (undo_join b s r user)
unfolding undo_join
undo_join-RoomsOnce true s r user u = u
undo_join-RoomsOnce false s r user u = put_room-RoomsOnce s (leave r user).1 u

register-RoomsOnce :
    (s : Service) (id : Text) (r : Room) (x : Session) (now : ℕ)
    → RoomsOnce s
    → RoomsOnce (register s id r x now)
unfolding register
register-RoomsOnce s id r x now u =
    rw (repo-launch _ id (touch_activity r now) x)
      (insert-UniqueKeys (touch_activity r now).id (touch_activity r now) s.repo u)

module _ (ports : Ports) (id : Text) (r : Room) (user lang : Text) (now : ℕ) where
  open_session-RoomsOnce :
      (b : Bool) (s : Service)
      → RoomsOnce s
      → RoomsOnce (open_session ports b s id r user lang now).1
  unfolding open_session
  open_session-RoomsOnce b s u =
      let x = new_session (ports.uuid s.created) id user lang now in
      let s₁ = record (log s (peer_create x.id)) { created = s.created + 1 } in
      elim (Option-cases (ports.create_session x.id)) [
        | inr (e, failed) ↦ rw (failed, open_session) (undo_join-RoomsOnce b s₁ r user u)
        | inl made ↦ elim (Option-cases (ports.save_room r)) [
          | inr (e, failed) ↦ rw (made, open_session, failed) (undo_join-RoomsOnce b s₁ r user u)
          | inl saved ↦ rw (made, open_session, saved) (register-RoomsOnce s₁ id r x now u)
        ]
      ]

  cancel-RoomsOnce : (s : Service) → RoomsOnce s → RoomsOnce (cancel_grace_timers_for_room s id)
  cancel-RoomsOnce s u = rw (cancel-SameMaps s id).same_repo u

  joined-RoomsOnce :
      (s : Service) (e : Option Error)
      → RoomsOnce s
      → RoomsOnce (joined ports s id r user lang now e).1
  unfolding joined
  joined-RoomsOnce s none u =
      open_session-RoomsOnce false (cancel_grace_timers_for_room s id) (cancel-RoomsOnce s u)
  joined-RoomsOnce s (some already_in_room) u =
      let s' = cancel_grace_timers_for_room s id in
      elim (Option-cases (lookup (key_of id user) s'.lookups)) [
        | inl e ↦ rw (e, joined) (open_session-RoomsOnce true s' (cancel-RoomsOnce s u))
        | inr (sid, e) ↦ rw (e, joined) (cancel-RoomsOnce s u)
      ]
  joined-RoomsOnce s (some _) u = u

pub join_room-RoomsOnce :
    (ports : Ports) (s : Service) (id user lang : Text) (now : ℕ)
    → RoomsOnce s
    → RoomsOnce (join_room ports s id user lang now).1
unfolding join_room
join_room-RoomsOnce ports s id user lang now u =
    if_elim (λ (o : Result Text × Service). RoomsOnce o.1) (lang == []) _ _ (λ missing. u)
      λ given. elim (Result-cases (find_by_id s.repo id)) [
        | inl (e, missing) ↦ rw missing u
        | inr (r, found) ↦
            let (e, r') = join r user in
            rw found (
              if_elim (λ (o : Result Text × Service). RoomsOnce o.1)
                (not (lang == r.source_lang) && not (lang == r.target_lang)) _ _ (λ bad. u)
                (λ good.
                  joined-RoomsOnce ports id r' user lang now (put_room s r') e
                    (put_room-RoomsOnce s r' u)))
      ]

repo-leave_found :
    (ports : Ports) (s : Service) (id user sid : Text) (x : Session)
    → ((leave_found ports s id user sid x).1.repo ≡ s.repo)
      ⊎ ((r : Room) × ((leave_found ports s id user sid x).1.repo ≡ (put_room s r).repo))
unfolding leave_found forget drop_pipeline
repo-leave_found ports s id user sid x = elim (Result-cases (find_by_id s.repo id)) [
  | inl (e, missing) ↦ inl (ground arith)
  | inr (r, found) ↦ inr ((leave r user).1, ground arith)
]

pub leave_room-RoomsOnce :
    (ports : Ports) (s : Service) (id user : Text)
    → RoomsOnce s
    → RoomsOnce (leave_room ports s id user).1
unfolding leave_room
leave_room-RoomsOnce ports s id user u = elim (Option-cases (lookup (key_of id user) s.lookups)) [
  | inl e ↦ rw (e, leave_room) u
  | inr (sid, e) ↦ elim (Option-cases (lookup sid s.sessions)) [
    | inl missing ↦ rw (e, leave_room, missing) u
    | inr (x, held) ↦
        rw (e, leave_room, held)
          (elim (repo-leave_found ports s id user sid x) [
            | inl same ↦ rw same u
            | inr (r, put) ↦ rw put (put_room-RoomsOnce s r u)
          ])
  ]
]
