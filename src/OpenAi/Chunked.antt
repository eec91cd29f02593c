-- ===== src/OpenAi/Chunked.antt =====
-- The speech, from the service to the codec.
use talk_go.Prelude.{
  All, Bool-cases, List, Text, [], ap, arith, inl, inr, length, nat_eq, refl, sym, text_eq, true,
  ◌%◌, ◌++◌, ◌==◌, ◌∙◌, ◌∷◌, ◌≡◌,
}
use talk_go.Codec.{Opus, encode}
use talk_go.Codec.Chunks.{joined, kept, encode-joined}
use talk_go.OpenAi.{Read, ReadEnd, more, eof, broken, go_on, chunks}

-- The bytes of the body, up to its end.
unfoldable pub body : List Read → Text
body [] = []
body (r ∷ rs) = let rest = body rs in r.bytes ++ go_on r.ending rest

joined-go_on : (e : ReadEnd) (cs : List Text) → joined (go_on e cs) ≡ go_on e (joined cs)
joined-go_on more cs = refl
joined-go_on eof cs = refl
joined-go_on broken cs = refl

joined-chunks : (rs : List Read) → joined (chunks rs) ≡ body rs
unfolding chunks body
joined-chunks [] = refl
joined-chunks (r ∷ rs) =
    let same = joined-go_on r.ending (chunks rs) ∙ ap (go_on r.ending) (joined-chunks rs) in
    elim (Bool-cases (r.bytes == [])) [
      | inl empty ↦
          let nothing : r.bytes ≡ [] = ground arith in
          rw empty (same ∙ ap (λ (t : Text). t ++ go_on r.ending (body rs)) (sym nothing))
      | inr some_bytes ↦ rw some_bytes (ap (λ (t : Text). r.bytes ++ t) same)
    ]

-- Reads of whole samples.
abbrev pub Whole : List Read → Type 0
Whole = All (λ r. length r.bytes % 2 ≡ 0)

kept-go_on : (e : ReadEnd) (cs : List Text) → kept (go_on e cs) ≡ go_on e (kept cs)
unfolding kept
kept-go_on more cs = refl
kept-go_on eof cs = refl
kept-go_on broken cs = refl

kept-chunks : (rs : List Read) → Whole rs → kept (chunks rs) ≡ chunks rs
unfolding chunks kept
kept-chunks [] h = refl
kept-chunks (r ∷ rs) h =
    let same = kept-go_on r.ending (chunks rs) ∙ ap (go_on r.ending) (kept-chunks rs h.1) in
    elim (Bool-cases (r.bytes == [])) [
      | inl empty ↦ rw empty same
      | inr some_bytes ↦
          let even : (length r.bytes % 2 == 0) ≡ true = ground (arith, h.0) in
          rw (some_bytes, even) (ap (λ (l : List Text). r.bytes ∷ l) same)
    ]

-- The chunks that `Synthesize` sends, encoded, are the packets of the whole body of the answer, if
-- each `Read` gives whole samples.
pub encode-chunks :
    (opus : Opus) (rs : List Read) → Whole rs → encode opus (chunks rs) ≡ encode opus (body rs ∷ [])
encode-chunks opus rs h =
    encode-joined opus (chunks rs)
    ∙ ap (λ (l : List Text). encode opus (joined l ∷ [])) (kept-chunks rs h)
    ∙ ap (λ (t : Text). encode opus (t ∷ [])) (joined-chunks rs)
