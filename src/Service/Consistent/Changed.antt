-- ===== src/Service/Consistent/Changed.antt =====
-- A new room, and changes inside a room or a session, keep the service consistent.
use talk_go.Prelude.{
  Text, [], contains, inl, inr, nat_eq, none, some, some_inj, subst, sym, text_eq, true, ℕ, ◌∙◌,
  ◌≡◌,
}
use talk_go.Prelude.Dict.{Dict, lookup, Updates, update_self, update_other, update_cases}
use talk_go.Room.{Room}
use talk_go.Session.{Session}
use talk_go.Repository.{Repository}
use talk_go.Service.State.{Ports}
use talk_go.Service.Consistent.{RoomFits, SessionFits, Fits}
use talk_go.Service.Consistent.Joined.{Reseated, RoomFits-Reseated}

module _ (ports : Ports) (repo repo' : Repository) (sessions : Dict Text Session)
    (lookups : Dict Text Text) (created : ℕ) (fits : Fits ports repo sessions lookups created)
    (id : Text) (r : Room) (repo_at : Updates id (some r) repo repo') where
  -- A room without participants, under an ID that no room has.
  pub created-Fits :
      lookup id repo ≡ none
      → RoomFits ports created id r
      → r.participants ≡ []
      → Fits ports repo' sessions lookups created
  created-Fits new ok_room empty = record {
    rooms = λ j x e. elim (update_cases id j (some r) repo repo' repo_at x e) [
      | inl (same, now) ↦
          subst (λ k. RoomFits ports created k x) same
            (subst (RoomFits ports created id) (some_inj now) ok_room)
      | inr (other, old) ↦ fits.rooms j x old
    ];
    sessions_fit = λ j x e.
        let old = fits.sessions_fit j x e in
        record {
          named = old.named;
          user_known = old.user_known;
          found = old.found;
          session_drawn = old.session_drawn;
          room = old.room;
          room_found =
              update_other id x.room_id (some r) repo repo' repo_at
                (λ same. cc (new, old.room_found, same))
              ∙ old.room_found;
          inside = old.inside;
        };
    entries = fits.entries;
    members = λ j u x e h. elim (update_cases id j (some r) repo repo' repo_at x e) [
      | inl (same, now) ↦ absurd (nobody u x (some_inj now) h)
      | inr (other, old) ↦ fits.members j u x old h
    ];
  }
    where
      nobody : (u : Text) (x : Room) → r ≡ x → contains u x.participants ≡ true → ⊥
      nobody u x same h = unfold contains in cc (h, same, empty)

  -- The same room with the same participants.
  pub touched-Fits :
      (old : Room)
      → lookup id repo ≡ some old
      → Reseated old r
      → r.participants ≡ old.participants
      → Fits ports repo' sessions lookups created
  touched-Fits before room_at reseated same_people = record {
    rooms = λ j x e. elim (update_cases id j (some r) repo repo' repo_at x e) [
      | inl (same, now) ↦
          subst (λ k. RoomFits ports created k x) same
            (subst (RoomFits ports created id) (some_inj now)
              (RoomFits-Reseated before r reseated (fits.rooms id before room_at)))
      | inr (other, old) ↦ fits.rooms j x old
    ];
    sessions_fit = λ j x e.
        let old = fits.sessions_fit j x e in
        let place = place_of x.room_id x.user_id old.room old.room_found old.inside in
        record {
          named = old.named;
          user_known = old.user_known;
          found = old.found;
          session_drawn = old.session_drawn;
          room = place.0;
          room_found = place.1;
          inside = place.2;
        };
    entries = fits.entries;
    members = λ j u x e h. elim (update_cases id j (some r) repo repo' repo_at x e) [
      | inl (same, now) ↦
          fits.members j u before (subst (λ k. lookup k repo ≡ some before) same room_at)
            (cc (h, same_people, some_inj now))
      | inr (other, old) ↦ fits.members j u x old h
    ];
  }
    where
      place_of :
          (j u : Text) (x : Room)
          → lookup j repo ≡ some x
          → contains u x.participants ≡ true
          → (y : Room) × (lookup j repo' ≡ some y) × (contains u y.participants ≡ true)
      place_of j u x e h = elim (text_eq.dec id j) [
        | yes same ↦ (
          r,
          subst (λ k. lookup k repo' ≡ some r) same (update_self id j (some r) repo repo' repo_at),
          cc (h, e, room_at, same, same_people),
        )
        | no other ↦ (x, update_other id j (some r) repo repo' repo_at other ∙ e, h)
      ]

module _ (ports : Ports) (repo : Repository) (sessions sessions' : Dict Text Session)
    (lookups : Dict Text Text) (created : ℕ) (fits : Fits ports repo sessions lookups created)
    (sid : Text) (sess sess' : Session) (session_at : lookup sid sessions ≡ some sess)
    (sessions_at : Updates sid (some sess') sessions sessions') (same_id : sess'.id ≡ sess.id)
    (same_room : sess'.room_id ≡ sess.room_id) (same_user : sess'.user_id ≡ sess.user_id) where
  changed_session : SessionFits ports repo lookups created sid sess'
  changed_session =
      let old = fits.sessions_fit sid sess session_at in
      record {
        named = same_id ∙ old.named;
        user_known = λ h. old.user_known (sym same_user ∙ h);
        found = rw (same_room, same_user) old.found;
        session_drawn = old.session_drawn;
        room = old.room;
        room_found = rw same_room old.room_found;
        inside = rw same_user old.inside;
      }

  -- The same session with another name or state.
  pub renamed-Fits : Fits ports repo sessions' lookups created
  renamed-Fits = record {
    rooms = fits.rooms;
    sessions_fit = λ j x e.
        elim (update_cases sid j (some sess') sessions sessions' sessions_at x e) [
          | inl (same, now) ↦
              subst (λ k. SessionFits ports repo lookups created k x) same
                (subst (SessionFits ports repo lookups created sid) (some_inj now) changed_session)
          | inr (other, old) ↦ fits.sessions_fit j x old
        ];
    entries = λ key j e.
        let (x, x_at, x_key) = fits.entries key j e in
        elim (text_eq.dec sid j) [
          | yes same ↦ (
            sess',
            subst (λ k. lookup k sessions' ≡ some sess') same
                (update_self sid j (some sess') sessions sessions' sessions_at),
            cc (x_key, same_room, same_user, session_at, x_at, same),
          )
          | no other ↦ (
            x,
            update_other sid j (some sess') sessions sessions' sessions_at other ∙ x_at,
            x_key,
          )
        ];
    members = fits.members;
  }
