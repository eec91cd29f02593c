-- ===== src/Pipeline/Frames.antt =====
-- The translator gets the latest frame.
use talk_go.Prelude.{
  List, Option, Text, [], drop, nat_eq, none, refl, some, take, text_eq, ◌++◌, ◌∷◌, ◌≡◌,
}
use talk_go.Pipeline.{drain_oldest}

-- A frame is decoded, or the translator takes one.
pub data Step : Type 0 where
  decodes : Text → Step
  takes : Step

-- The channel of capacity one, and what the translator has taken.
unfoldable pub channel : List Text → List Step → List Text × List Text
channel ch [] = (ch, [])
channel ch (decodes v ∷ ss) = channel (drain_oldest 1 ch v) ss
channel ch (takes ∷ ss) = let (rest, taken) = channel (drop 1 ch) ss in (rest, take 1 ch ++ taken)

-- A cell that holds the latest frame, until it is taken.
unfoldable pub latest : Option Text → List Step → Option Text × List Text
latest cell [] = (cell, [])
latest cell (decodes v ∷ ss) = latest (some v) ss
latest cell (takes ∷ ss) =
    let (rest, taken) = latest none ss in (rest, elim cell [ none ↦ taken | some v ↦ v ∷ taken ])

abbrev pub listed : Option Text → List Text
listed none = []
listed (some v) = v ∷ []

-- The channel before the translator is a cell for the latest frame: whatever the order of frames
-- and of takes, the translator takes what it would take from the cell, and the same frame is left.
pub channel-latest :
    (cell : Option Text) (ss : List Step)
    → channel (listed cell) ss ≡ (listed (latest cell ss).0, (latest cell ss).1)
unfolding channel latest drain_oldest
channel-latest none [] = refl
channel-latest (some v) [] = refl
channel-latest none (decodes v ∷ ss) = channel-latest (some v) ss
channel-latest (some w) (decodes v ∷ ss) = channel-latest (some v) ss
channel-latest none (takes ∷ ss) = rw (channel-latest none ss) refl
channel-latest (some v) (takes ∷ ss) = rw (channel-latest none ss) refl
