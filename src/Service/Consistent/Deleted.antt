-- ===== src/Service/Consistent/Deleted.antt =====
-- Deleting a room with its sessions keeps the service consistent.
use talk_go.Prelude.{
  Bool-cases, List, Text, [], arith, contains, if◌then◌else◌, inl, inr, nat_eq, none, some, sym,
  text_eq, true, ℕ, ◌++◌, ◌↔◌, ◌∙◌, ◌∷◌, ◌≡◌, ◌≢◌,
}
use talk_go.Prelude.Dict.{Dict, lookup, Updates, update_other, update_cases}
use talk_go.Room.{Room}
use talk_go.Session.{Session}
use talk_go.Repository.{Repository}
use talk_go.Service.State.{Ports, key_of, colon}
use talk_go.Service.Delete.{has_prefix}
use talk_go.Service.Keys.{NoColon, has_prefix-key_of, has_prefix_other}
use talk_go.Service.Consistent.{UuidLaws, RoomFits, SessionFits, Fits, Drawn-NoColon}

module _ (ports : Ports) (laws : UuidLaws ports) (repo repo' : Repository)
    (sessions sessions' : Dict Text Session) (lookups lookups' : Dict Text Text) (created : ℕ)
    (fits : Fits ports repo sessions lookups created) (id : Text) (r : Room) (gone : List Text)
    (room_at : lookup id repo ≡ some r) (repo_at : Updates id none repo repo')
    (sessions_at : (j : Text)
      → lookup j sessions' ≡ (if contains j gone then none else lookup j sessions))
    (lookups_at : (k : Text)
      → lookup k lookups' ≡ (if has_prefix (id ++ colon ∷ []) k then none else lookup k lookups))
    (gone_iff : (j : Text) (x : Session)
      → lookup j sessions ≡ some x
      → (contains j gone ≡ true) ↔ (x.room_id ≡ id)) where
  id-NoColon : NoColon id
  id-NoColon = Drawn-NoColon laws (fits.rooms id r room_at).room_drawn

  kept_rooms : (j : Text) (x : Room) → lookup j repo' ≡ some x → RoomFits ports created j x
  kept_rooms j x e = elim (update_cases id j none repo repo' repo_at x e) [
    | inl (same, now) ↦ cc now
    | inr (other, old) ↦ fits.rooms j x old
  ]

  -- A session that is left was there before, in another room.
  session_before :
      (j : Text) (x : Session)
      → lookup j sessions' ≡ some x
      → (lookup j sessions ≡ some x) × (id ≢ x.room_id)
  session_before j x e =
      let before : lookup j sessions ≡ some x = ground (arith, sessions_at j) in
      (before, λ same. ground (arith, sessions_at j, (gone_iff j x before).1 (sym same)))

  kept_sessions :
      (j : Text) (x : Session)
      → lookup j sessions' ≡ some x
      → SessionFits ports repo' lookups' created j x
  kept_sessions j x e =
      let (before, other) = session_before j x e in
      let old = fits.sessions_fit j x before in
      record {
        named = old.named;
        user_known = old.user_known;
        found = ground (
          arith,
          lookups_at (key_of x.room_id x.user_id),
          has_prefix_other id x.room_id x.user_id id-NoColon
              (Drawn-NoColon laws (fits.rooms x.room_id old.room old.room_found).room_drawn) other,
          old.found,
        );
        session_drawn = old.session_drawn;
        room = old.room;
        room_found = update_other id x.room_id none repo repo' repo_at other ∙ old.room_found;
        inside = old.inside;
      }

  kept_entries :
      (key j : Text)
      → lookup key lookups' ≡ some j
      → (x : Session) × (lookup j sessions' ≡ some x) × (key ≡ key_of x.room_id x.user_id)
  kept_entries key j e =
      let old = fits.entries key j (ground (arith, lookups_at key)) in
      (old.0, still old.0 old.1 old.2, old.2)
    where
      still :
          (x : Session)
          → lookup j sessions ≡ some x
          → key ≡ key_of x.room_id x.user_id
          → lookup j sessions' ≡ some x
      still x x_at x_key = elim (Bool-cases (contains j gone)) [
        | inr here ↦ ground (arith, sessions_at j)
        | inl dropped ↦
            let e' : has_prefix (id ++ colon ∷ []) key ≡ true =
              rw (x_key, (gone_iff j x x_at).0 dropped)
                (has_prefix-key_of id x.user_id (fits.sessions_fit j x x_at).user_known) in
            ground (arith, lookups_at key)
      ]

  kept_members :
      (j u : Text) (x : Room)
      → lookup j repo' ≡ some x
      → contains u x.participants ≡ true
      → (k : Text) × (lookup (key_of j u) lookups' ≡ some k)
  kept_members j u x e h = elim (update_cases id j none repo repo' repo_at x e) [
    | inl (same, now) ↦ cc now
    | inr (other, old) ↦
        let before = fits.members j u x old h in
        (
          before.0,
          ground (
            arith,
            lookups_at (key_of j u),
            before.1,
            has_prefix_other id j u id-NoColon (Drawn-NoColon laws (fits.rooms j x old).room_drawn)
                other,
          ),
        )
  ]

  pub deleted-Fits : Fits ports repo' sessions' lookups' created
  deleted-Fits = record {
    rooms = kept_rooms;
    sessions_fit = kept_sessions;
    entries = kept_entries;
    members = kept_members;
  }
