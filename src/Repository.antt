-- ===== src/Repository.antt =====
-- internal/app/roomsvc/repository.go: the rooms in memory, by their ID. A `*Room` that a method
-- returns is the object in the map, so what its methods do to it is done to the entry of its ID.
pub mod Laws
use talk_go.Prelude.{
  Bool, List, Outcome, Result, Text, [], err, false, if◌then◌else◌, leb, ltb, map, nat_eq, none, ok,
  room_not_found, some, text_eq, ℕ, ◌&&◌, ◌-◌, ◌==◌, ◌∷◌,
}
use talk_go.Prelude.Dict.{Dict, lookup, insert, erase, values}
use talk_go.Room.{Room, touch_activity}

abbrev pub Repository : Type 0
Repository = Dict Text Room

abbrev pub empty : Repository
empty = []

unfoldable pub save : Repository → Room → Repository
save repo r = insert r.id r repo

unfoldable pub find_by_id : Repository → Text → Result Room
find_by_id repo id = elim (lookup id repo) [ none ↦ err room_not_found | some r ↦ ok r ]

unfoldable pub delete : Repository → Text → Repository
delete repo id = erase id repo

unfoldable pub list_active : Repository → List Room
list_active [] = []
list_active ((_, r) ∷ repo) = let rest = list_active repo in if r.active then r ∷ rest else rest

-- `strings.ToUpper` on ASCII text; a character beyond ASCII is left as it is.
unfoldable pub upper_byte : ℕ → ℕ
upper_byte c = if leb b'a' c && leb c b'z' then c - 32 else c

abbrev pub to_upper : Text → Text
to_upper = map upper_byte

unfoldable pub scan_code : Text → Repository → Result Room
scan_code code [] = err room_not_found
scan_code code ((_, r) ∷ repo) =
    let rest = scan_code code repo in if r.short_code == code then ok r else rest

unfoldable pub find_by_short_code : Repository → Text → Result Room
unfolding scan_code
find_by_short_code repo code = scan_code (to_upper code) repo

unfoldable pub update_last_activity : Repository → Text → ℕ → Outcome Repository
update_last_activity repo id now = elim (lookup id repo) [
  | none ↦ (some room_not_found, repo)
  | some r ↦ (none, insert id (touch_activity r now) repo)
]

-- `!rm.LastActivity.IsZero() && rm.LastActivity.Before(before)`
unfoldable pub is_expired : ℕ → Room → Bool
is_expired before r = elim r.last_activity [ none ↦ false | some t ↦ ltb t before ]

unfoldable pub list_expired : Repository → ℕ → List Room
unfolding is_expired
list_expired [] before = []
list_expired ((_, r) ∷ repo) before =
    let rest = list_expired repo before in if is_expired before r then r ∷ rest else rest
