-- ===== src/Service/History/Sound.antt =====
-- Soundness: what holds of a service between two events, and that deleting, joining and leaving keep it.
use talk_go.Service.Shapes.{SameMaps}
use talk_go.Prelude.{
  List, Text, [], arith, nat_eq, ok, some, subst, sym, text_eq, txt, ℕ, ◌∷◌, ◌≡◌, ◌≢◌,
}
use talk_go.Prelude.Dict.{Dict, lookup, UniqueKeys}
use talk_go.Room.{Room}
use talk_go.Service.State.{Ports, Service, Config, Given, new_service}
use talk_go.Service.Consistent.{UuidLaws, Consistent, Saves}
use talk_go.Service.Shapes.{SameMaps}
use talk_go.Service.Preserved.Join.{join_room-Consistent, maps-Consistent, maps-Consistent}
use talk_go.Service.Preserved.Leave.{leave_room-Consistent}
use talk_go.Service.Preserved.Delete.{delete_room-Consistent}
use talk_go.Service.Delete.{delete_room}
use talk_go.Service.Join.{join_room}
use talk_go.Service.Leave.{leave_room}
use talk_go.Service.Grace.{on_disconnect, delete_rooms, start_pipeline, start_grace_timer}
use talk_go.Service.History.{Event, signals}
use talk_go.Service.History.RoomsOnce.{
  RoomsOnce, delete_room-RoomsOnce, join_room-RoomsOnce, leave_room-RoomsOnce,
}
use talk_go.Service.History.Unique.{Keyed, delete_room-Keyed, join_room-Keyed, leave_room-Keyed}

-- Consistent, each user once in the map of users, and each room once in the repository.
pub record Sound (ports : Ports) (s : Service) : Type 0 where
  pub consistent : Consistent ports s
  pub keyed : Keyed s
  pub rooms_once : RoomsOnce s

-- A join has a user with an ID.
abbrev pub HasUser : Event → Type 0
HasUser (signals msg) = msg.kind ≡ txt "join" → msg.user_id ≢ []
HasUser _ = Unit {0}

-- Same maps as before, so as sound.
module _ (ports : Ports) (s t : Service) (same : SameMaps s t) where
  pub maps-Sound : Sound ports s → Sound ports t
  maps-Sound h = record {
    consistent = maps-Consistent ports s t same h.consistent;
    keyed = rw same.same_lookups h.keyed;
    rooms_once = rw same.same_repo h.rooms_once;
  }

pub disconnect-SameMaps : (s : Service) (sid : Text) → SameMaps s (on_disconnect s sid)
unfolding on_disconnect start_grace_timer
disconnect-SameMaps s sid = record {
  same_repo = ground arith;
  same_sessions = ground arith;
  same_lookups = ground arith;
  same_created = ground arith;
}

pub start-SameMaps : (s : Service) (n : ℕ) → SameMaps s (start_pipeline s n)
unfolding start_pipeline
start-SameMaps s n = record {
  same_repo = ground arith;
  same_sessions = ground arith;
  same_lookups = ground arith;
  same_created = ground arith;
}

module _ (ports : Ports) (laws : UuidLaws ports) (saves : Saves ports) where
  pub delete_room-Sound :
      (s : Service) (id : Text) → Sound ports s → Sound ports (delete_room s id).1
  delete_room-Sound s id h = record {
    consistent = delete_room-Consistent ports laws s id h.consistent h.keyed;
    keyed = delete_room-Keyed s id h.keyed;
    rooms_once = delete_room-RoomsOnce s id h.rooms_once;
  }

  pub delete_rooms-Sound :
      (rs : List Room) (s : Service) → Sound ports s → Sound ports (delete_rooms rs s)
  unfolding delete_rooms
  delete_rooms-Sound [] s h = h
  delete_rooms-Sound (r ∷ rs) s h =
      delete_rooms-Sound rs (delete_room s r.id).1 (delete_room-Sound s r.id h)

  pub join_room-Sound :
      (s : Service) (id user lang : Text) (now : ℕ)
      → user ≢ []
      → Sound ports s
      → Sound ports (join_room ports s id user lang now).1
  join_room-Sound s id user lang now known h = record {
    consistent = join_room-Consistent ports laws s id user lang now known h.consistent;
    keyed = join_room-Keyed ports s id user lang now h.keyed;
    rooms_once = join_room-RoomsOnce ports s id user lang now h.rooms_once;
  }

  pub leave_room-Sound :
      (s : Service) (id user : Text) → Sound ports s → Sound ports (leave_room ports s id user).1
  leave_room-Sound s id user h = record {
    consistent = leave_room-Consistent ports laws saves s id user h.consistent;
    keyed = leave_room-Keyed ports s id user h.keyed;
    rooms_once = leave_room-RoomsOnce ports s id user h.rooms_once;
  }

lookup-empty : {A : Type 0} (k : Text) (a : A) (d : Dict Text A) → d ≡ [] → ¬ (lookup k d ≡ some a)
unfolding lookup
lookup-empty k a [] e h = cc h
lookup-empty k a (x ∷ d) e h = absurd (cc e)

-- A service without rooms, sessions and users is sound.
empty-Sound :
    (ports : Ports) (s : Service) → s.repo ≡ [] → s.sessions ≡ [] → s.lookups ≡ [] → Sound ports s
empty-Sound ports s rooms sessions users = record {
  consistent = record {
    rooms = λ id r e. absurd (lookup-empty id r s.repo rooms e);
    sessions_fit = λ id x e. absurd (lookup-empty id x s.sessions sessions e);
    entries = λ id x e. absurd (lookup-empty id x s.lookups users e);
    members = λ id user r e inside. absurd (lookup-empty id r s.repo rooms e);
  };
  keyed = subst UniqueKeys (sym users) tt;
  rooms_once = subst UniqueKeys (sym rooms) tt;
}

new_service-empty :
    (c : Config) (g : Given) (s : Service)
    → new_service c g ≡ ok s
    → (s.repo ≡ []) × (s.sessions ≡ []) × (s.lookups ≡ [])
unfolding new_service
new_service-empty c g s e = (ground arith, ground arith, ground arith)

-- A new service is sound.
pub new_service-Sound :
    (ports : Ports) (c : Config) (g : Given) (s : Service) → new_service c g ≡ ok s → Sound ports s
new_service-Sound ports c g s e =
    let (rooms, sessions, users) = new_service-empty c g s e in
    empty-Sound ports s rooms sessions users
