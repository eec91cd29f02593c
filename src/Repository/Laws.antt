-- ===== src/Repository/Laws.antt =====
-- Lookups in the repository.
use talk_go.Prelude.{
  List, Text, [], ap, arith, contains, err, false, if◌then◌else◌, ltb, map, nat_eq, none, ok, refl,
  room_not_found, some, text_eq, ℕ, ◌==◌, ◌∷◌, ◌≡◌,
}
use talk_go.Prelude.Dict.{lookup, insert, erase, lookup-insert, lookup-erase}
use talk_go.Room.{Room}
use talk_go.Repository.{
  Repository, save, find_by_id, delete, to_upper, upper_byte, scan_code, find_by_short_code,
  is_expired, list_expired,
}

-- What `find_by_id` finds after `save`: the saved room under its ID, and otherwise what it found
-- before.
pub find_by_id-save :
    (repo : Repository) (r : Room) (id : Text)
    → find_by_id (save repo r) id ≡ (if r.id == id then ok r else find_by_id repo id)
unfolding find_by_id save
find_by_id-save repo r id = ground (arith, lookup-insert r.id id r repo)

-- A deleted room is not found; every other lookup is as before.
pub find_by_id-delete :
    (repo : Repository) (gone id : Text)
    → find_by_id (delete repo gone) id
      ≡ (if gone == id then err room_not_found else find_by_id repo id)
unfolding find_by_id delete
find_by_id-delete repo gone id = ground (arith, lookup-erase gone id repo)

upper_byte_idem : (c : ℕ) → upper_byte (upper_byte c) ≡ upper_byte c
unfolding upper_byte
upper_byte_idem c = ground arith

pub to_upper_idem : (s : Text) → to_upper (to_upper s) ≡ to_upper s
to_upper_idem [] = refl
to_upper_idem (c ∷ s) = cc (upper_byte_idem c, to_upper_idem s)

-- The case of a short code does not matter.
pub find_by_short_code-to_upper :
    (repo : Repository) (code : Text)
    → find_by_short_code repo (to_upper code) ≡ find_by_short_code repo code
unfolding find_by_short_code
find_by_short_code-to_upper repo code = ap (λ (c : Text). scan_code c repo) (to_upper_idem code)

-- Every room stands under its own ID, and no ID twice.
abbrev pub KeyedById : Repository → Type 0
KeyedById [] = Unit {0}
KeyedById ((id, r) ∷ repo) = (r.id ≡ id) × (lookup id repo ≡ none) × KeyedById repo

pub save-KeyedById : (repo : Repository) (r : Room) → KeyedById repo → KeyedById (save repo r)
unfolding save insert
save-KeyedById [] r k = (refl, unfold lookup in refl, tt)
save-KeyedById ((id, x) ∷ repo) r k =
    ground (arith, lookup-insert r.id id r repo, save-KeyedById repo r k.2)

pub delete-KeyedById :
    (repo : Repository) (gone : Text) → KeyedById repo → KeyedById (delete repo gone)
unfolding delete erase
delete-KeyedById [] gone k = tt
delete-KeyedById ((id, x) ∷ repo) gone k =
    ground (arith, lookup-erase gone id repo, delete-KeyedById repo gone k.2)

abbrev pub ids : List Room → List Text
ids = map (λ r. r.id)

contains-ids-absent :
    (repo : Repository) (before : ℕ) (id : Text)
    → KeyedById repo
    → lookup id repo ≡ none
    → contains id (ids (list_expired repo before)) ≡ false
unfolding list_expired lookup contains is_expired
contains-ids-absent [] before id k h = refl
contains-ids-absent ((j, r) ∷ repo) before id k h =
    ground (arith, contains-ids-absent repo before id k.2)

-- The rooms that `list_expired` returns: those found under their ID whose last activity is set and
-- lies before the given time.
pub list_expired_lem :
    (repo : Repository) (before : ℕ) (id : Text)
    → KeyedById repo
    → contains id (ids (list_expired repo before)) ≡ (elim (lookup id repo) [
      | none ↦ false
      | some r ↦ elim r.last_activity [ none ↦ false | some t ↦ ltb t before ]
    ])
unfolding list_expired lookup contains is_expired
list_expired_lem [] before id k = refl
list_expired_lem ((j, r) ∷ repo) before id k =
    ground (arith, list_expired_lem repo before id k.2, contains-ids-absent repo before id k.2)
