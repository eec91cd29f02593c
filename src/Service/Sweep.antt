-- ===== src/Service/Sweep.antt =====
-- What a sweep deletes.
use talk_go.Prelude.Dict.{lookup, lookup-erase, UniqueKeys, lookup-insert}
use talk_go.Prelude.{
  Bool, List, Option-cases, Result-cases, Text, [], arith, contains, if◌then◌else◌, inl, inr,
  nat_eq, none, refl, some, text_eq, ℕ, ◌++◌, ◌-◌, ◌==◌, ◌∷◌, ◌≡◌,
}
use talk_go.Room.{Room, close}
use talk_go.Session.{Session}
use talk_go.Repository.{Repository, list_expired, is_expired, find_by_id, delete}
use talk_go.Repository.Laws.{KeyedById, ids, list_expired_lem}
use talk_go.Service.State.{Ports, Service, put_room, colon}
use talk_go.Service.Consistent.{UuidLaws, Consistent, Saves}
use talk_go.Service.Delete.{delete_room, drop_entries}
use talk_go.Service.Grace.{delete_rooms, sweep_expired_rooms}
use talk_go.Service.Shapes.{drop_pipeline_shape}
use talk_go.Service.History.Sound.{Sound, delete_room-Sound}
use talk_go.Service.Preserved.Delete.{sessions-drop_entries, same-drop_entries}
use talk_go.Service.Promises.{delete_room-sessions}

delete_room-repo :
    (ports : Ports) (s : Service) (id j : Text)
    → Consistent ports s
    → lookup j (delete_room s id).1.repo ≡ (if id == j then none else lookup j s.repo)
unfolding delete_room find_by_id delete close
delete_room-repo ports s id j c = elim (Option-cases (lookup id s.repo)) [
  | inl e ↦ rw (e, delete_room) (ground arith)
  | inr (r, at) ↦
      let s₁ = put_room s (close r) in
      let s₂ = drop_entries (id ++ colon ∷ []) s₁.lookups s₁ in
      rw (at, delete_room, delete, (drop_pipeline_shape s₂ id).2)
        (ground (
          arith,
          lookup-erase id j s₂.repo,
          (same-drop_entries (id ++ colon ∷ []) s₁.lookups s₁).0,
          lookup-insert (close r).id j (close r) s.repo,
          (c.rooms id r at).keyed,
        ))
]

-- No session comes by deleting a room.
delete_room-no_session :
    (s : Service) (id sid : Text)
    → lookup sid s.sessions ≡ none
    → lookup sid (delete_room s id).1.sessions ≡ none
unfolding delete_room
delete_room-no_session s id sid free = elim (Result-cases (find_by_id s.repo id)) [
  | inl (e, missing) ↦ rw (missing, delete_room) free
  | inr (r, found) ↦
      let s₁ = put_room s (close r) in
      let s₂ = drop_entries (id ++ colon ∷ []) s₁.lookups s₁ in
      rw (found, delete_room, (drop_pipeline_shape s₂ id).2)
        (ground (arith, sessions-drop_entries (id ++ colon ∷ []) s₁.lookups s₁ sid))
]

delete_rooms-no_session :
    (rs : List Room) (s : Service) (sid : Text)
    → lookup sid s.sessions ≡ none
    → lookup sid (delete_rooms rs s).sessions ≡ none
unfolding delete_rooms
delete_rooms-no_session [] s sid free = free
delete_rooms-no_session (r ∷ rs) s sid free =
    delete_rooms-no_session rs (delete_room s r.id).1 sid (delete_room-no_session s r.id sid free)

module _ (ports : Ports) (laws : UuidLaws ports) (saves : Saves ports) where
  delete_rooms-repo :
      (rs : List Room) (s : Service) (j : Text)
      → Sound ports s
      → lookup j (delete_rooms rs s).repo ≡ (if contains j (ids rs) then none else lookup j s.repo)
  unfolding delete_rooms contains
  delete_rooms-repo [] s j h = refl
  delete_rooms-repo (r ∷ rs) s j h = ground (
    arith,
    delete_rooms-repo rs (delete_room s r.id).1 j (delete_room-Sound ports laws saves s r.id h),
    delete_room-repo ports s r.id j h.consistent,
  )

  -- Deleting a room that may not be there.
  delete_any-sessions :
      (s : Service) (id sid : Text) (x : Session)
      → Sound ports s
      → lookup sid s.sessions ≡ some x
      → lookup sid (delete_room s id).1.sessions ≡ (if x.room_id == id then none else some x)
  unfolding delete_room find_by_id
  delete_any-sessions s id sid x h held = elim (Option-cases (lookup id s.repo)) [
    | inr (r, at) ↦ delete_room-sessions ports s id sid r x laws h at held
    | inl missing ↦
        rw (missing, delete_room, find_by_id)
          (ground (arith, (h.consistent.sessions_fit sid x held).room_found))
  ]

  delete_rooms-sessions :
      (rs : List Room) (s : Service) (sid : Text) (x : Session)
      → Sound ports s
      → lookup sid s.sessions ≡ some x
      → lookup sid (delete_rooms rs s).sessions
        ≡ (if contains x.room_id (ids rs) then none else some x)
  unfolding delete_rooms contains
  delete_rooms-sessions [] s sid x h held = held
  delete_rooms-sessions (r ∷ rs) s sid x h held =
      let s' = (delete_room s r.id).1 in
      let now = delete_any-sessions s r.id sid x h held in
      elim (text_eq.dec r.id x.room_id) [
        | yes same ↦ ground (arith, now, delete_rooms-no_session rs s' sid)
        | no other ↦ ground (
          arith,
          now,
          delete_rooms-sessions rs s' sid x (delete_room-Sound ports laws saves s r.id h),
        )
      ]

-- A room has expired at `now`: its last activity is set, and lies more than the service's TTL before.
abbrev pub has_expired : Service → ℕ → Room → Bool
has_expired s now r = is_expired (now - s.config.room_ttl) r

rooms-KeyedById :
    (repo : Repository)
    → UniqueKeys repo
    → ((id : Text) (r : Room) → lookup id repo ≡ some r → r.id ≡ id)
    → KeyedById repo
unfolding lookup
rooms-KeyedById [] u named = tt
rooms-KeyedById ((id, r) ∷ repo) u named = (
  named id r (ground arith),
  u.0,
  rooms-KeyedById repo u.1 (λ j x e. named j x (ground (arith, u.0))),
)

-- A sweep of a sound service, whose repository saves: exactly the expired rooms are no longer there,
-- the others are as before; and exactly the sessions of expired rooms are gone, the others are as
-- before. It needs google/uuid's IDs to differ, to be non-empty and to hold no colon.
pub sweep-exact :
    (ports : Ports) (s : Service) (now : ℕ)
    → UuidLaws ports
    → Saves ports
    → Sound ports s
    → (let s' = sweep_expired_rooms s now in
        ((id : Text)
          → lookup id s'.repo ≡ (elim (lookup id s.repo) [
            | none ↦ none
            | some r ↦ if has_expired s now r then none else some r
          ]))
        × ((sid : Text) (x : Session) (r : Room)
            → lookup sid s.sessions ≡ some x
            → lookup x.room_id s.repo ≡ some r
            → lookup sid s'.sessions ≡ (if has_expired s now r then none else some x)))
unfolding sweep_expired_rooms is_expired
sweep-exact ports s now laws saves h =
    let cutoff = now - s.config.room_ttl in
    let expired = list_expired s.repo cutoff in
    let listed = λ (id : Text).
      list_expired_lem s.repo cutoff id
        (rooms-KeyedById s.repo h.rooms_once (λ id' r e. (h.consistent.rooms id' r e).keyed)) in
    (
      λ id. elim (Option-cases (lookup id s.repo)) [
        | inl e ↦ ground (arith, delete_rooms-repo ports laws saves expired s id h)
        | inr (r, e) ↦ ground (arith, delete_rooms-repo ports laws saves expired s id h, listed id)
      ],
      λ sid x r held at.
          ground (
            arith,
            delete_rooms-sessions ports laws saves expired s sid x h held,
            listed x.room_id,
          ),
    )
