-- ===== src/Room/Code.antt =====
-- `GenerateShortCode` of internal/domain/room/room.go. A reader is the list of the bytes that it
-- still delivers; `io.ReadFull` fails if they are too few.
use talk_go.Prelude.{
  ℕ, ◌%◌, List, map, Text, txt, Result, ok, err, short_read, ◌>>=◌, if◌then◌else◌, ltb, length,
  take, get_or,
}

abbrev pub short_code_len : ℕ
short_code_len = 6

abbrev pub alphabet : Text
alphabet = txt "ABCDEFGHJKLMNPQRSTUVWXYZ23456789"

unfoldable pub read_full : ℕ → List ℕ → Result (List ℕ)
read_full n bytes = if ltb (length bytes) n then err short_read else ok (take n bytes)

-- `shortCodeAlphabet[int(v)%len(shortCodeAlphabet)]`; the index is never out of range.
unfoldable pub letter : ℕ → ℕ
letter v = get_or alphabet (v % length alphabet) 0

unfoldable pub generate_short_code : List ℕ → Result Text
unfolding read_full
generate_short_code reader = do b ← read_full short_code_len reader; ok (map letter b)
