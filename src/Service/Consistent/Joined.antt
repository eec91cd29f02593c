-- ===== src/Service/Consistent/Joined.antt =====
-- A user who joins keeps the service consistent.
use talk_go.Prelude.{
  Text, [], arith, contains, false, if◌then◌else◌, inl, inr, nat_eq, none, some, some_inj, subst,
  sym, text_eq, true, ℕ, ◌==◌, ◌∙◌, ◌≡◌, ◌≢◌,
}
use talk_go.Prelude.Dict.{Dict, lookup, Updates, update_self, update_other, update_cases}
use talk_go.Room.{Room}
use talk_go.Room.Laws.{IsValid}
use talk_go.Session.{Session}
use talk_go.Repository.{Repository}
use talk_go.Service.State.{Ports, key_of}
use talk_go.Service.Keys.{key_of-injective}
use talk_go.Service.Consistent.{UuidLaws, Drawn, RoomFits, SessionFits, Fits, Drawn-NoColon}

-- The same room with other participants.
pub record Reseated (r r' : Room) : Type 0 where
  pub same_id : r'.id ≡ r.id
  pub same_active : r'.active ≡ r.active
  pub same_capacity : r'.capacity ≡ r.capacity
  pub still_valid : IsValid r'

pub RoomFits-Reseated :
    {ports : Ports} {created : ℕ} {id : Text} (r r' : Room)
    → Reseated r r'
    → RoomFits ports created id r
    → RoomFits ports created id r'
RoomFits-Reseated r r' c f = record {
  keyed = c.same_id ∙ f.keyed;
  valid = c.still_valid;
  open_room = c.same_active ∙ f.open_room;
  for_two = c.same_capacity ∙ f.for_two;
  room_drawn = f.room_drawn;
}

module _ (ports : Ports) (laws : UuidLaws ports) (repo repo' : Repository)
    (sessions sessions' : Dict Text Session) (lookups lookups' : Dict Text Text) (created : ℕ)
    (fits : Fits ports repo sessions lookups created) (id user sid : Text) (r r' : Room)
    (sess : Session) (room_at : lookup id repo ≡ some r) (repo_at : Updates id (some r') repo repo')
    (sessions_at : Updates sid (some sess) sessions sessions')
    (lookups_at : Updates (key_of id user) (some sid) lookups lookups') (reseated : Reseated r r')
    (added : (u : Text)
      → contains u r'.participants ≡ (if user == u then true else contains u r.participants))
    (outside : contains user r.participants ≡ false) (fresh : lookup sid sessions ≡ none)
    (drawn : Drawn ports created sid) (known : user ≢ []) (its_id : sess.id ≡ sid)
    (its_room : sess.room_id ≡ id) (its_user : sess.user_id ≡ user) where
  joined_rooms : (j : Text) (x : Room) → lookup j repo' ≡ some x → RoomFits ports created j x
  joined_rooms j x e = elim (update_cases id j (some r') repo repo' repo_at x e) [
    | inl (same, now) ↦
        subst (λ k. RoomFits ports created k x) same
          (subst (RoomFits ports created id) (some_inj now)
            (RoomFits-Reseated r r' reseated (fits.rooms id r room_at)))
    | inr (other, old) ↦ fits.rooms j x old
  ]

  -- A room still holds whom it held.
  still_inside :
      (j u : Text) (x : Room)
      → lookup j repo ≡ some x
      → contains u x.participants ≡ true
      → (y : Room) × (lookup j repo' ≡ some y) × (contains u y.participants ≡ true)
  still_inside j u x e h = elim (text_eq.dec id j) [
    | yes same ↦ (
      r',
      subst (λ k. lookup k repo' ≡ some r') same (update_self id j (some r') repo repo' repo_at),
      ground (arith, added u, room_at, subst (λ k. lookup k repo ≡ some x) (sym same) e),
    )
    | no other ↦ (x, update_other id j (some r') repo repo' repo_at other ∙ e, h)
  ]

  not_taken :
      (j : Text) (x : Session)
      → lookup j sessions ≡ some x
      → key_of id user ≢ key_of x.room_id x.user_id
  not_taken j x e same =
      let old = fits.sessions_fit j x e in
      let parts =
        key_of-injective id x.room_id user x.user_id
          (Drawn-NoColon laws (fits.rooms id r room_at).room_drawn)
          (Drawn-NoColon laws (fits.rooms x.room_id old.room old.room_found).room_drawn) same in
      let here : lookup id repo ≡ some old.room =
        subst (λ k. lookup k repo ≡ some old.room) (sym parts.0) old.room_found in
      cc (old.inside, outside, parts.1, room_at, here)

  joined_sessions :
      (j : Text) (x : Session)
      → lookup j sessions' ≡ some x
      → SessionFits ports repo' lookups' created j x
  joined_sessions j x e = elim (update_cases sid j (some sess) sessions sessions' sessions_at x e) [
    | inl (same, now) ↦
        subst (λ k. SessionFits ports repo' lookups' created k x) same
          (subst (SessionFits ports repo' lookups' created sid) (some_inj now) newcomer)
    | inr (other, before) ↦
        let old = fits.sessions_fit j x before in
        let place = still_inside x.room_id x.user_id old.room old.room_found old.inside in
        record {
          named = old.named;
          user_known = old.user_known;
          found =
              update_other (key_of id user) _ (some sid) lookups lookups' lookups_at
                (not_taken j x before)
              ∙ old.found;
          session_drawn = old.session_drawn;
          room = place.0;
          room_found = place.1;
          inside = place.2;
        }
  ]
    where
      newcomer : SessionFits ports repo' lookups' created sid sess
      newcomer = record {
        named = its_id;
        user_known = λ h. known (sym its_user ∙ h);
        found =
            rw (its_room, its_user)
              (update_self (key_of id user) [] (some sid) lookups lookups' lookups_at);
        session_drawn = drawn;
        room = r';
        room_found = rw its_room (update_self id id (some r') repo repo' repo_at);
        inside = rw its_user (ground (arith, added user));
      }

  joined_entries :
      (key j : Text)
      → lookup key lookups' ≡ some j
      → (x : Session) × (lookup j sessions' ≡ some x) × (key ≡ key_of x.room_id x.user_id)
  joined_entries key j e =
      elim (update_cases (key_of id user) key (some sid) lookups lookups' lookups_at j e) [
        | inl (same, now) ↦ (
          sess,
          subst (λ k. lookup k sessions' ≡ some sess) (some_inj now)
              (update_self sid sid (some sess) sessions sessions' sessions_at),
          cc (same, its_room, its_user),
        )
        | inr (other, before) ↦
            let (x, x_at, x_key) = fits.entries key j before in
            (
              x,
              update_other sid j (some sess) sessions sessions' sessions_at
                    (λ same. cc (fresh, x_at, same))
                  ∙ x_at,
              x_key,
            )
      ]

  joined_members :
      (j u : Text) (x : Room)
      → lookup j repo' ≡ some x
      → contains u x.participants ≡ true
      → (k : Text) × (lookup (key_of j u) lookups' ≡ some k)
  joined_members j u x e h = elim (text_eq.dec (key_of id user) (key_of j u)) [
    | yes same ↦ (
      sid,
      subst (λ k. lookup k lookups' ≡ some sid) same
          (update_self (key_of id user) [] (some sid) lookups lookups' lookups_at),
    )
    | no other ↦
        let old = member_before j u x e h other in
        (
          old.0,
          update_other (key_of id user) _ (some sid) lookups lookups' lookups_at other ∙ old.1,
        )
  ]
    where
      member_before :
          (j u : Text) (x : Room)
          → lookup j repo' ≡ some x
          → contains u x.participants ≡ true
          → key_of id user ≢ key_of j u
          → (k : Text) × (lookup (key_of j u) lookups ≡ some k)
      member_before j u x e h other = elim (update_cases id j (some r') repo repo' repo_at x e) [
        | inl (same, now) ↦
            fits.members j u r (subst (λ k. lookup k repo ≡ some r) same room_at)
              (ground (arith, added u, some_inj now, λ (p : user ≡ u). other (cc (same, p))))
        | inr (apart, old) ↦ fits.members j u x old h
      ]

  pub joined-Fits : Fits ports repo' sessions' lookups' created
  joined-Fits = record {
    rooms = joined_rooms;
    sessions_fit = joined_sessions;
    entries = joined_entries;
    members = joined_members;
  }
