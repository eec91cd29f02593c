-- ===== src/Service/Consistent.antt =====
-- What holds of a service between two operations: the maps of sessions and users, the rooms'
-- participants and the IDs drawn fit together.
pub mod Joined
pub mod Left
pub mod Deleted
pub mod Changed
use talk_go.Prelude.{
  Text, [], arith, contains, nat_eq, none, some, subst, text_eq, true, ℕ, ◌<◌, ◌≡◌, ◌≢◌, ◌≤◌,
}
use talk_go.Prelude.Dict.{Dict, lookup}
use talk_go.Room.{Room}
use talk_go.Room.Laws.{IsValid}
use talk_go.Session.{Session}
use talk_go.Repository.{Repository}
use talk_go.Service.State.{Ports, Service, key_of}
use talk_go.Service.Keys.{NoColon}

-- What the service relies on of google/uuid: its IDs are not empty, hold no colon, and differ.
pub record UuidLaws (ports : Ports) : Type 0 where
  pub distinct : (m n : ℕ) → ports.uuid m ≡ ports.uuid n → m ≡ n
  pub no_colon : (n : ℕ) → NoColon (ports.uuid n)
  pub nonempty : (n : ℕ) → ports.uuid n ≢ []

-- The repository's `Save` succeeds, as it always does in memory.
abbrev pub Saves : Ports → Type 0
Saves ports = (r : Room) → ports.save_room r ≡ none

-- `id` is one of the first `created` IDs.
pub record Drawn (ports : Ports) (created : ℕ) (id : Text) : Type 0 where
  pub number : ℕ
  pub below_created : number < created
  pub drawn_as : ports.uuid number ≡ id

pub record RoomFits (ports : Ports) (created : ℕ) (id : Text) (r : Room) : Type 0 where
  pub keyed : r.id ≡ id
  pub valid : IsValid r
  pub open_room : r.active ≡ true
  pub for_two : r.capacity ≡ 2
  pub room_drawn : Drawn ports created id

-- A session stands under its ID, its user has one, and the user is in its room.
pub record SessionFits (ports : Ports) (repo : Repository) (lookups : Dict Text Text) (created : ℕ)
    (sid : Text) (sess : Session) : Type 0 where
  pub named : sess.id ≡ sid
  pub user_known : sess.user_id ≢ []
  pub found : lookup (key_of sess.room_id sess.user_id) lookups ≡ some sid
  pub session_drawn : Drawn ports created sid
  pub room : Room
  pub room_found : lookup sess.room_id repo ≡ some room
  pub inside : contains sess.user_id room.participants ≡ true

pub record Fits (ports : Ports) (repo : Repository) (sessions : Dict Text Session)
    (lookups : Dict Text Text) (created : ℕ) : Type 0 where
  pub rooms : (id : Text) (r : Room) → lookup id repo ≡ some r → RoomFits ports created id r
  pub sessions_fit :
      (sid : Text) (sess : Session)
      → lookup sid sessions ≡ some sess
      → SessionFits ports repo lookups created sid sess
  pub entries :
      (key sid : Text)
      → lookup key lookups ≡ some sid
      → (sess : Session) × (lookup sid sessions ≡ some sess)
        × (key ≡ key_of sess.room_id sess.user_id)
  pub members :
      (id user : Text) (r : Room)
      → lookup id repo ≡ some r
      → contains user r.participants ≡ true
      → (sid : Text) × (lookup (key_of id user) lookups ≡ some sid)

abbrev pub Consistent : Ports → Service → Type 0
Consistent ports s = Fits ports s.repo s.sessions s.lookups s.created

pub Drawn-mono : {ports : Ports} {m n : ℕ} {id : Text} → m ≤ n → Drawn ports m id → Drawn ports n id
Drawn-mono h d = record { number = d.number; below_created = omega arith; drawn_as = d.drawn_as }

-- The next ID is new.
pub Drawn-fresh : {ports : Ports} → UuidLaws ports → (n : ℕ) → ¬ Drawn ports n (ports.uuid n)
Drawn-fresh laws n d = absurd (omega (arith, d.below_created, laws.distinct d.number n d.drawn_as))

pub Drawn-NoColon :
    {ports : Ports} {n : ℕ} {id : Text} → UuidLaws ports → Drawn ports n id → NoColon id
Drawn-NoColon laws d = subst NoColon d.drawn_as (laws.no_colon d.number)

-- Counting up the IDs spoils nothing.
pub Fits-mono :
    {ports : Ports} {repo : Repository} {sessions : Dict Text Session} {lookups : Dict Text Text}
    {m n : ℕ}
    → m ≤ n
    → Fits ports repo sessions lookups m
    → Fits ports repo sessions lookups n
Fits-mono h f = record {
  rooms = λ id r e.
      let old = f.rooms id r e in
      record {
        keyed = old.keyed;
        valid = old.valid;
        open_room = old.open_room;
        for_two = old.for_two;
        room_drawn = Drawn-mono h old.room_drawn;
      };
  sessions_fit = λ sid sess e.
      let old = f.sessions_fit sid sess e in
      record {
        named = old.named;
        user_known = old.user_known;
        found = old.found;
        session_drawn = Drawn-mono h old.session_drawn;
        room = old.room;
        room_found = old.room_found;
        inside = old.inside;
      };
  entries = f.entries;
  members = f.members;
}
