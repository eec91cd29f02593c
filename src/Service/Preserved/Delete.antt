-- ===== src/Service/Preserved/Delete.antt =====
-- Deleting a room keeps the service consistent.
use talk_go.Prelude.{
  Bool-cases, List, Option-cases, Text, [], arith, contains, if◌then◌else◌, inl, inr, is_some,
  nat_eq, none, refl, some, subst, sym, text_eq, true, ◌&&◌, ◌++◌, ◌==◌, ◌↔◌, ◌∷◌, ◌≡◌,
}
use talk_go.Prelude.Dict.{
  Dict, lookup, insert, erase, insert_at-Updates, erase-Updates, Updates-trans, UniqueKeys,
  lookup-erase, lookup-insert,
}
use talk_go.Room.{Room, close}
use talk_go.Session.{Session, disconnect}
use talk_go.Repository.{find_by_id, delete}
use talk_go.Service.State.{Ports, Service, key_of, put_room, colon}
use talk_go.Service.Delete.{delete_room, drop_entries, drop_entry, has_prefix}
use talk_go.Service.Keys.{has_prefix-key_of, has_prefix_other, NoColon}
use talk_go.Service.Shapes.{drop_pipeline_shape}
use talk_go.Service.Consistent.{UuidLaws, Fits, Consistent, Drawn-NoColon}
use talk_go.Service.Consistent.Deleted.{deleted-Fits}

-- The sessions of the entries with a prefix.
pub dropped : Text → Dict Text Text → List Text
dropped prefix [] = []
dropped prefix ((key, sid) ∷ es) =
    let rest = dropped prefix es in if has_prefix prefix key then sid ∷ rest else rest

repo-drop_entry :
    (s : Service) (key sid : Text)
    → ((drop_entry s key sid).repo ≡ s.repo) × ((drop_entry s key sid).created ≡ s.created)
unfolding drop_entry
repo-drop_entry s key sid = (ground arith, ground arith)

sessions-drop_entry :
    (s : Service) (key sid j : Text)
    → lookup j (drop_entry s key sid).sessions ≡ (if sid == j then none else lookup j s.sessions)
unfolding drop_entry
sessions-drop_entry s key sid j = elim (Option-cases (lookup sid s.sessions)) [
  | inl e ↦ ground arith
  | inr (x, e) ↦ ground (
    arith,
    lookup-erase sid j (insert sid (disconnect x).1 s.sessions),
    lookup-insert sid j (disconnect x).1 s.sessions,
  )
]

lookups-drop_entry :
    (s : Service) (key sid k : Text)
    → lookup k (drop_entry s key sid).lookups ≡ (if key == k then none else lookup k s.lookups)
unfolding drop_entry
lookups-drop_entry s key sid k = ground (arith, lookup-erase key k s.lookups)

pub same-drop_entries :
    (prefix : Text) (es : Dict Text Text) (s : Service)
    → ((drop_entries prefix es s).repo ≡ s.repo) × ((drop_entries prefix es s).created ≡ s.created)
unfolding drop_entries
same-drop_entries prefix [] s = (refl, refl)
same-drop_entries prefix ((key, sid) ∷ es) s = ground (
  arith,
  same-drop_entries prefix es s,
  same-drop_entries prefix es (drop_entry s key sid),
  repo-drop_entry s key sid,
)

pub sessions-drop_entries :
    (prefix : Text) (es : Dict Text Text) (s : Service) (j : Text)
    → lookup j (drop_entries prefix es s).sessions
      ≡ (if contains j (dropped prefix es) then none else lookup j s.sessions)
unfolding drop_entries dropped contains
sessions-drop_entries prefix [] s j = refl
sessions-drop_entries prefix ((key, sid) ∷ es) s j = ground (
  arith,
  sessions-drop_entries prefix es s j,
  sessions-drop_entries prefix es (drop_entry s key sid) j,
  sessions-drop_entry s key sid j,
)

lookups-drop_entries :
    (prefix : Text) (es : Dict Text Text) (s : Service) (k : Text)
    → lookup k (drop_entries prefix es s).lookups
      ≡ (if has_prefix prefix k && is_some (lookup k es) then none else lookup k s.lookups)
unfolding drop_entries lookup
lookups-drop_entries prefix [] s k = ground arith
lookups-drop_entries prefix ((key, sid) ∷ es) s k = ground (
  arith,
  lookups-drop_entries prefix es s k,
  lookups-drop_entries prefix es (drop_entry s key sid) k,
  lookups-drop_entry s key sid k,
)

-- With all the entries: what has the prefix is gone.
lookups-drop_all :
    (prefix : Text) (s : Service) (k : Text)
    → lookup k (drop_entries prefix s.lookups s).lookups
      ≡ (if has_prefix prefix k then none else lookup k s.lookups)
lookups-drop_all prefix s k = ground (arith, lookups-drop_entries prefix s.lookups s k)

-- A session is dropped exactly if the key of an entry that leads to it has the prefix.
dropped_sound :
    (prefix : Text) (es : Dict Text Text) (j : Text)
    → UniqueKeys es
    → contains j (dropped prefix es) ≡ true
    → (key : Text) × (lookup key es ≡ some j) × (has_prefix prefix key ≡ true)
unfolding dropped contains lookup
dropped_sound prefix [] j u h = cc
dropped_sound prefix ((key, sid) ∷ es) j u h = elim (Bool-cases (has_prefix prefix key)) [
  | inl hit ↦ elim (text_eq.dec sid j) [
    | yes same ↦ (key, ground arith, hit)
    | no other ↦ later (dropped_sound prefix es j u.1 (ground arith))
  ]
  | inr miss ↦ later (dropped_sound prefix es j u.1 (ground arith))
]
  where
    later :
        (k : Text) × (lookup k es ≡ some j) × (has_prefix prefix k ≡ true)
        → (k : Text) × (lookup k ((key, sid) ∷ es) ≡ some j) × (has_prefix prefix k ≡ true)
    later (k, at, p) = (k, ground arith, p)

dropped_complete :
    (prefix key : Text) (es : Dict Text Text) (j : Text)
    → lookup key es ≡ some j
    → has_prefix prefix key ≡ true
    → contains j (dropped prefix es) ≡ true
unfolding dropped contains lookup
dropped_complete prefix key [] j e h = cc
dropped_complete prefix key ((k, sid) ∷ es) j e h = ground (arith, dropped_complete prefix key es j)

module _ (ports : Ports) (laws : UuidLaws ports) (s : Service) (id : Text) (c : Consistent ports s)
    (u : UniqueKeys s.lookups) where
  module _ (r : Room) (at : lookup id s.repo ≡ some r) where
    abbrev prefix : Text
    prefix = id ++ colon ∷ []

    abbrev gone : List Text
    gone = dropped prefix s.lookups

    id-NoColon : NoColon id
    id-NoColon = Drawn-NoColon laws (c.rooms id r at).room_drawn

    gone_room :
        (j : Text) (x : Session)
        → lookup j s.sessions ≡ some x
        → (key : Text) × (lookup key s.lookups ≡ some j) × (has_prefix prefix key ≡ true)
        → x.room_id ≡ id
    gone_room j x e (key, key_at, hit) = elim (text_eq.dec id x.room_id) [
      | yes same ↦ sym same
      | no other ↦
          let (y, y_at, y_key) = c.entries key j key_at in
          let old = c.sessions_fit j x e in
          cc (
            y_at,
            e,
            y_key,
            hit,
            has_prefix_other id x.room_id x.user_id id-NoColon
                (Drawn-NoColon laws (c.rooms x.room_id old.room old.room_found).room_drawn) other,
          )
    ]

    gone_iff :
        (j : Text) (x : Session)
        → lookup j s.sessions ≡ some x
        → (contains j gone ≡ true) ↔ (x.room_id ≡ id)
    gone_iff j x e = (
      λ h. gone_room j x e (dropped_sound prefix s.lookups j u h),
      λ same.
          dropped_complete prefix (key_of x.room_id x.user_id) s.lookups j
            (c.sessions_fit j x e).found
            (rw same (has_prefix-key_of id x.user_id (c.sessions_fit j x e).user_known)),
    )

    after_entries : Service
    after_entries = drop_entries prefix s.lookups (put_room s (close r))

    deleted_maps :
        Fits ports
          (delete after_entries.repo id)
          after_entries.sessions
          after_entries.lookups
          after_entries.created
    unfolding after_entries delete
    deleted_maps =
        let s₁ = put_room s (close r) in
        let same = same-drop_entries prefix s.lookups s₁ in
        rw (same.0, same.1)
          (deleted-Fits ports laws s.repo (erase id s₁.repo) s.sessions after_entries.sessions
            s.lookups after_entries.lookups s.created c id r gone at
            (Updates-trans id (some (close r)) none s.repo s₁.repo (erase id s₁.repo)
              (insert_at-Updates id (close r).id (close r) s.repo
                (unfold close in (c.rooms id r at).keyed))
              (erase-Updates id s₁.repo))
            (sessions-drop_entries prefix s.lookups s₁) (lookups-drop_all prefix s₁) gone_iff)

    pub deleted_sessions :
        (j : Text) (x : Session)
        → lookup j s.sessions ≡ some x
        → lookup j (delete_room s id).1.sessions ≡ (if x.room_id == id then none else some x)
    unfolding delete_room find_by_id after_entries
    deleted_sessions j x e =
        rw (at, delete_room, find_by_id)
          (subst (λ (t : Service). lookup j t.sessions ≡ (if x.room_id == id then none else some x))
            (sym (drop_pipeline_shape after_entries id).2)
            (ground (
              arith,
              sessions-drop_entries prefix s.lookups (put_room s (close r)) j,
              gone_iff j x e,
            )))

  -- Deleting a room keeps the service consistent, and a room that is not there changes nothing.
  pub delete_room-Consistent : Consistent ports (delete_room s id).1
  unfolding delete_room find_by_id after_entries
  delete_room-Consistent = elim (Option-cases (lookup id s.repo)) [
    | inl e ↦ rw (e, delete_room, find_by_id) c
    | inr (r, at) ↦
        rw (at, delete_room, find_by_id)
          (subst (λ (t : Service). Fits ports (delete t.repo id) t.sessions t.lookups t.created)
            (sym (drop_pipeline_shape (after_entries r at) id).2) (deleted_maps r at))
  ]
