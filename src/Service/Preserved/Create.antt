-- ===== src/Service/Preserved/Create.antt =====
-- Creating a room keeps the service consistent, whether it succeeds or fails.
use talk_go.Prelude.{
  Option-cases, Result, Result-cases, Text, [], arith, err, inl, inr, nat_eq, none, ok, refl, sym,
  text_eq, true, ℕ, ◌+◌, ◌≡◌,
}
use talk_go.Prelude.Dict.{lookup, insert, insert-Updates}
use talk_go.Room.{Room, new_room}
use talk_go.Room.Laws.{new_room-IsValid}
use talk_go.Repository.{save}
use talk_go.Service.State.{Ports, Service, attempts}
use talk_go.Service.Create.{create_room, save_coded, draw_code}
use talk_go.Service.Consistent.{UuidLaws, RoomFits, Fits-mono, Drawn-fresh, Consistent}
use talk_go.Service.Consistent.Changed.{created-Fits}

pub new_room_fields :
    (id source target code : Text) (now : ℕ) (r : Room)
    → new_room id source target now ≡ ok r
    → (r.id ≡ id) × (r.active ≡ true) × (r.capacity ≡ 2) × (r.participants ≡ [])
unfolding new_room
new_room_fields id source target code now r h = ground arith

module _ (ports : Ports) (laws : UuidLaws ports) where
  pub fresh_id : (s : Service) → Consistent ports s → lookup (ports.uuid s.created) s.repo ≡ none
  fresh_id s c = elim (Option-cases (lookup (ports.uuid s.created) s.repo)) [
    | inl e ↦ e
    | inr (r, e) ↦
        absurd (Drawn-fresh laws s.created (c.rooms (ports.uuid s.created) r e).room_drawn)
  ]

  save_coded-Consistent :
      (s : Service) (r : Room) (drawing : Result Text × ℕ)
      → Consistent ports s
      → lookup r.id s.repo ≡ none
      → RoomFits ports s.created r.id r
      → r.participants ≡ []
      → Consistent ports (save_coded ports s r drawing).1
  unfolding save_coded save
  save_coded-Consistent s r (err e, drawn) c new f empty = c
  save_coded-Consistent s r (ok code, drawn) c new f empty =
      let r' = record r { short_code = code } in
      elim (Option-cases (ports.save_room r')) [
        | inr (e, failed) ↦ rw (failed, save_coded) c
        | inl saved ↦
            rw (saved, save_coded)
              (created-Fits ports s.repo (insert r.id r' s.repo) s.sessions s.lookups s.created c
                r.id r' (insert-Updates r.id r' s.repo) new coded empty)
      ]
    where
      coded : RoomFits ports s.created r.id (record r { short_code = code })
      coded = record {
        keyed = refl;
        valid = record { once = f.valid.once; fits = f.valid.fits; emptied = f.valid.emptied };
        open_room = f.open_room;
        for_two = f.for_two;
        room_drawn = f.room_drawn;
      }

  newcomer :
      (s : Service) (source target : Text) (now : ℕ) (r : Room)
      → new_room (ports.uuid s.created) source target now ≡ ok r
      → RoomFits ports (s.created + 1) r.id r
  newcomer s source target now r made =
      let f = new_room_fields (ports.uuid s.created) source target [] now r made in
      record {
        keyed = refl;
        valid = new_room-IsValid (ports.uuid s.created) source target now r made;
        open_room = f.1;
        for_two = f.2;
        room_drawn = record { number = s.created; below_created = omega arith; drawn_as = sym f.0 };
      }

  pub create_room-Consistent :
      (s : Service) (source target : Text) (now : ℕ)
      → Consistent ports s
      → Consistent ports (create_room ports s source target now).1
  unfolding create_room
  create_room-Consistent s source target now c =
      let id = ports.uuid s.created in
      let c' = Fits-mono (omega arith) c in
      elim (Result-cases (new_room id source target now)) [
        | inl (e, failed) ↦ rw (failed, create_room) c'
        | inr (r, made) ↦
            let f = new_room_fields id source target [] now r made in
            rw (made, create_room)
              (save_coded-Consistent (record s { created = s.created + 1 }) r
                (draw_code ports s.repo (attempts s.config) s.drawn) c' (rw f.0 (fresh_id s c))
                (newcomer s source target now r made) f.3)
      ]
