-- ===== src/Translator/Drain.antt =====
-- The ordered drainer of `TranslateStream`: results come in any order, phrases go out in the order
-- of their numbers.
use talk_go.Prelude.{
  List, Text, [], err, if◌then◌else◌, length, map, nat_eq, none, ok, some, suc, text_eq, zero, ℕ,
  ◌++◌, ◌+◌, ◌∷◌,
}
use talk_go.Prelude.Dict.{Dict, lookup, insert, erase}
use talk_go.Translator.{Engines, TranslationResult}

-- What goes out: a transcript, a call of `Synthesize`, and a chunk of audio.
pub data Output : Type 0 where
  transcript synthesis audio : Text → Output

pub record Drainer : Type 0 where
  pub pending : Dict ℕ TranslationResult
  pub next_expected : ℕ
  pub out : List Output

abbrev pub new_drainer : Drainer
new_drainer = record { pending = []; next_expected = 0; out = [] }

-- The transcript, unless its channel is full; then the audio that is synthesized.
unfoldable pub say : Engines → ℕ → Text → List Output
say eng n translated =
    (if eng.has_room n then transcript translated ∷ [] else [])
    ++ synthesis translated
      ∷ (elim (eng.synthesize translated) [ err e ↦ [] | ok pcm ↦ map audio pcm ])

unfoldable pub emit : Engines → TranslationResult → List Output
emit eng r = if r.skipped then [] else say eng r.seq r.translated

-- The inner loop, with fuel: each round takes a result out of `pending`, so that the length of
-- `pending` is enough.
unfoldable pub drain : Engines → ℕ → Drainer → Drainer
drain eng zero d = d
drain eng (suc fuel) d = elim (lookup d.next_expected d.pending) [
  | none ↦ d
  | some r ↦ drain eng fuel (record {
    pending = erase d.next_expected d.pending;
    next_expected = d.next_expected + 1;
    out = d.out ++ emit eng r;
  })
]

-- A result arrives.
unfoldable pub arrive : Engines → Drainer → TranslationResult → Drainer
arrive eng d r =
    let d' = record d { pending = insert r.seq r d.pending } in drain eng (length d'.pending) d'

-- `for result := range resultCh`
unfoldable pub drain_all : Engines → Drainer → List TranslationResult → Drainer
drain_all eng d [] = d
drain_all eng d (r ∷ rs) = drain_all eng (arrive eng d r) rs
