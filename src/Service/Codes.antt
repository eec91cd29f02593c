-- ===== src/Service/Codes.antt =====
-- A room is found by the short code that `CreateRoom` gave it.
use talk_go.Prelude.{
  All, Error, Option-cases, Result-cases, Text, [], ap, arith, err, inl, inr, nat_eq, none, ok,
  refl, room_not_found, subst, suc, sym, text_eq, zero, ℕ, ◌+◌, ◌∙◌, ◌∷◌, ◌≡◌,
}
use talk_go.Prelude.Dict.{lookup, insert}
use talk_go.Room.{Room, new_room}
use talk_go.Room.CodeLaws.{IsCodeLetter, generate_short_code_lem}
use talk_go.Repository.{Repository, to_upper, upper_byte, find_by_short_code, scan_code, save}
use talk_go.Service.State.{Ports, Service, attempts}
use talk_go.Service.Create.{create_room, draw_code, save_coded, find_room_by_short_code}
use talk_go.Service.Consistent.{UuidLaws, Consistent}
use talk_go.Service.Preserved.Create.{fresh_id, new_room_fields}

code_upper : (code : Text) → All IsCodeLetter code → to_upper code ≡ code
unfolding upper_byte
code_upper [] h = refl
code_upper (c ∷ code) h = cc (same c h.0, code_upper code h.1)
  where
    same : (c : ℕ) → IsCodeLetter c → upper_byte c ≡ c
    same c h = ground arith

scan_code_missing :
    (code : Text) (repo : Repository) (e : Error) → scan_code code repo ≡ err e → e ≡ room_not_found
unfolding scan_code
scan_code_missing code [] e h = ground arith
scan_code_missing code (x ∷ repo) e h = ground (arith, scan_code_missing code repo e)

-- A code that is drawn is free, and of the alphabet.
abbrev pub IsFree : Repository → Text → Type 0
IsFree repo code = (scan_code code repo ≡ err room_not_found) × All IsCodeLetter code

draw_code-IsFree :
    (ports : Ports) (repo : Repository) (n drawn drawn' : ℕ) (code : Text)
    → draw_code ports repo n drawn ≡ (ok code, drawn')
    → IsFree repo code
unfolding draw_code find_by_short_code
draw_code-IsFree ports repo zero drawn drawn' code h = ground arith
draw_code-IsFree ports repo (suc n) drawn drawn' code h =
    elim (generate_short_code_lem (ports.entropy drawn)) [
      | inr (e, few) ↦ ground arith
      | inl (c, e, six, letters, enough) ↦ elim (Result-cases (find_by_short_code repo c)) [
        | inr (r, taken) ↦ draw_code-IsFree ports repo n (drawn + 1) drawn' code (ground arith)
        | inl (x, free) ↦
            let at : scan_code c repo ≡ err x =
              subst (λ (k : Text). scan_code k repo ≡ err x) (code_upper c letters) free in
            let missing = scan_code_missing c repo x at in
            let same : c ≡ code = ground (arith, missing) in
            subst (IsFree repo) same (at ∙ ap err missing, letters)
      ]
    ]

scan_code-insert :
    (code : Text) (repo : Repository) (r : Room)
    → scan_code code repo ≡ err room_not_found
    → lookup r.id repo ≡ none
    → r.short_code ≡ code
    → scan_code code (insert r.id r repo) ≡ ok r
unfolding scan_code insert lookup
scan_code-insert code [] r h new e = ground arith
scan_code-insert code ((k, x) ∷ repo) r h new e = ground (arith, scan_code-insert code repo r)

-- What a creation that succeeds has done.
pub created :
    (ports : Ports) (s s' : Service) (source target : Text) (now : ℕ) (r : Room)
    → create_room ports s source target now ≡ (ok r, s')
    → (x : Room) × (new_room (ports.uuid s.created) source target now ≡ ok x)
      × (r.id ≡ x.id)
      × IsFree s.repo r.short_code
      × (s'.repo ≡ insert r.id r s.repo)
unfolding create_room save_coded save
created ports s s' source target now r made =
    elim (Result-cases (new_room (ports.uuid s.created) source target now)) [
      | inl (e, failed) ↦ ground arith
      | inr (x, fine) ↦ elim (Result-cases (draw_code ports s.repo (attempts s.config) s.drawn).0) [
        | inl (e, failed) ↦ ground arith
        | inr (code, drawn) ↦
            elim (Option-cases (ports.save_room (record x { short_code = code }))) [
              | inr (e, failed) ↦ ground arith
              | inl saved ↦
                  let free =
                    draw_code-IsFree ports s.repo (attempts s.config) s.drawn
                      (draw_code ports s.repo (attempts s.config) s.drawn).1 code (cc drawn) in
                  let same : r ≡ record x { short_code = code } = ground arith in
                  let repo : s'.repo ≡ insert x.id (record x { short_code = code }) s.repo =
                    ground arith in
                  (
                    x,
                    fine,
                    ap (λ (y : Room). y.id) same,
                    subst (IsFree s.repo) (sym (ap (λ (y : Room). y.short_code) same)) free,
                    rw same repo,
                  )
            ]
      ]
    ]

-- Of a consistent service: a room that has been created is found by its short code, in capital or
-- small letters, if google/uuid's IDs differ.
pub created_room_found :
    (ports : Ports) (s s' : Service) (source target : Text) (now : ℕ) (r : Room) (code : Text)
    → UuidLaws ports
    → Consistent ports s
    → create_room ports s source target now ≡ (ok r, s')
    → to_upper code ≡ to_upper r.short_code
    → find_room_by_short_code s' code ≡ ok r
unfolding create_room find_room_by_short_code find_by_short_code
created_room_found ports s s' source target now r code laws c made same =
    let (x, fine, id, free, repo) = created ports s s' source target now r made in
    let named : r.id ≡ ports.uuid s.created =
      id ∙ (new_room_fields (ports.uuid s.created) source target [] now x fine).0 in
    rw (same, code_upper r.short_code free.1, repo)
      (scan_code-insert r.short_code s.repo r free.0 (rw named (fresh_id ports laws s c)) refl)
