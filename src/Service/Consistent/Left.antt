-- ===== src/Service/Consistent/Left.antt =====
-- A user who leaves keeps the service consistent.
use talk_go.Prelude.{
  Text, ap, arith, contains, false, if◌then◌else◌, inl, inr, nat_eq, none, some, some_inj, subst,
  sym, text_eq, true, ℕ, ◌==◌, ◌∙◌, ◌≡◌, ◌≢◌,
}
use talk_go.Prelude.Dict.{Dict, lookup, Updates, update_self, update_other, update_cases}
use talk_go.Room.{Room}
use talk_go.Session.{Session}
use talk_go.Repository.{Repository}
use talk_go.Service.State.{Ports, key_of}
use talk_go.Service.Keys.{key_of-injective}
use talk_go.Service.Consistent.{UuidLaws, RoomFits, SessionFits, Fits, Drawn-NoColon}
use talk_go.Service.Consistent.Joined.{Reseated, RoomFits-Reseated}

module _ (ports : Ports) (laws : UuidLaws ports) (repo repo' : Repository)
    (sessions sessions' : Dict Text Session) (lookups lookups' : Dict Text Text) (created : ℕ)
    (fits : Fits ports repo sessions lookups created) (id user sid : Text) (r r' : Room)
    (room_at : lookup id repo ≡ some r) (repo_at : Updates id (some r') repo repo')
    (sessions_at : Updates sid none sessions sessions')
    (lookups_at : Updates (key_of id user) none lookups lookups') (reseated : Reseated r r')
    (removed : (u : Text)
      → contains u r'.participants ≡ (if user == u then false else contains u r.participants))
    (entry_at : lookup (key_of id user) lookups ≡ some sid) where
  left_rooms : (j : Text) (x : Room) → lookup j repo' ≡ some x → RoomFits ports created j x
  left_rooms j x e = elim (update_cases id j (some r') repo repo' repo_at x e) [
    | inl (same, now) ↦
        subst (λ k. RoomFits ports created k x) same
          (subst (RoomFits ports created id) (some_inj now)
            (RoomFits-Reseated r r' reseated (fits.rooms id r room_at)))
    | inr (other, old) ↦ fits.rooms j x old
  ]

  -- Another session has another key.
  other_key :
      (j : Text) (x : Session)
      → lookup j sessions ≡ some x
      → sid ≢ j
      → key_of id user ≢ key_of x.room_id x.user_id
  other_key j x e other same =
      other (
        some_inj (sym entry_at ∙ ap (λ k. lookup k lookups) same ∙ (fits.sessions_fit j x e).found))

  stays_inside :
      (j : Text) (x : Session)
      → lookup j sessions ≡ some x
      → sid ≢ j
      → (y : Room) × (lookup x.room_id repo' ≡ some y) × (contains x.user_id y.participants ≡ true)
  stays_inside j x e other =
      let old = fits.sessions_fit j x e in
      elim (text_eq.dec id x.room_id) [
        | yes same ↦ (
          r',
          subst (λ k. lookup k repo' ≡ some r') same
              (update_self id j (some r') repo repo' repo_at),
          ground (
            arith,
            removed x.user_id,
            old.inside,
            room_at,
            subst (λ k. lookup k repo ≡ some old.room) (sym same) old.room_found,
            λ (p : user ≡ x.user_id). other_key j x e other (cc (same, p)),
          ),
        )
        | no apart ↦ (
          old.room,
          update_other id x.room_id (some r') repo repo' repo_at apart ∙ old.room_found,
          old.inside,
        )
      ]

  left_sessions :
      (j : Text) (x : Session)
      → lookup j sessions' ≡ some x
      → SessionFits ports repo' lookups' created j x
  left_sessions j x e = elim (update_cases sid j none sessions sessions' sessions_at x e) [
    | inl (same, now) ↦ cc now
    | inr (other, before) ↦
        let old = fits.sessions_fit j x before in
        let place = stays_inside j x before other in
        record {
          named = old.named;
          user_known = old.user_known;
          found =
              update_other (key_of id user) _ none lookups lookups' lookups_at
                (other_key j x before other)
              ∙ old.found;
          session_drawn = old.session_drawn;
          room = place.0;
          room_found = place.1;
          inside = place.2;
        }
  ]

  left_entries :
      (key j : Text)
      → lookup key lookups' ≡ some j
      → (x : Session) × (lookup j sessions' ≡ some x) × (key ≡ key_of x.room_id x.user_id)
  left_entries key j e =
      elim (update_cases (key_of id user) key none lookups lookups' lookups_at j e) [
        | inl (same, now) ↦ cc now
        | inr (other, before) ↦
            let (x, x_at, x_key) = fits.entries key j before in
            (
              x,
              update_other sid j none sessions sessions' sessions_at (apart other x_at x_key)
                  ∙ x_at,
              x_key,
            )
      ]
    where
      apart :
          {x : Session}
          → key_of id user ≢ key
          → lookup j sessions ≡ some x
          → key ≡ key_of x.room_id x.user_id
          → sid ≢ j
      apart other x_at x_key same =
          let (y, y_at, y_key) = fits.entries (key_of id user) sid entry_at in
          other (cc (y_at, x_at, same, y_key, x_key))

  left_members :
      (j u : Text) (x : Room)
      → lookup j repo' ≡ some x
      → contains u x.participants ≡ true
      → (k : Text) × (lookup (key_of j u) lookups' ≡ some k)
  left_members j u x e h = elim (update_cases id j (some r') repo repo' repo_at x e) [
    | inl (same, now) ↦
        keep (subst (λ k. lookup k repo ≡ some r) same room_at)
          (ground (arith, removed u, some_inj now))
          λ p. ground (arith, removed u, some_inj now, p.1)
    | inr (other, old) ↦ keep old h λ p. other p.0
  ]
    where
      keep :
          {y : Room}
          → lookup j repo ≡ some y
          → contains u y.participants ≡ true
          → ¬ ((id ≡ j) × (user ≡ u))
          → (k : Text) × (lookup (key_of j u) lookups' ≡ some k)
      keep {y = y} y_at inside apart =
          let old = fits.members j u y y_at inside in
          (
            old.0,
            update_other (key_of id user) _ none lookups lookups' lookups_at (λ same. apart (
                  key_of-injective id j user u
                    (Drawn-NoColon laws (fits.rooms id r room_at).room_drawn)
                    (Drawn-NoColon laws (fits.rooms j y y_at).room_drawn) same))
                ∙ old.1,
          )

  pub left-Fits : Fits ports repo' sessions' lookups' created
  left-Fits = record {
    rooms = left_rooms;
    sessions_fit = left_sessions;
    entries = left_entries;
    members = left_members;
  }
