-- ===== src/Codec/Bytes.antt =====
-- Samples and their bytes.
use talk_go.Prelude.{
  All, List, Text, [], ap, arith, length, nat_eq, refl, text_eq, ℕ, ◌%◌, ◌*◌, ◌++◌, ◌+◌, ◌/◌, ◌<◌,
  ◌∷◌, ◌≡◌,
}
use mathlib.Core.Path.{ap₂}
use talk_go.Codec.{to_bytes, to_samples}

-- Bytes that are made of samples give the samples back.
pub to_samples-to_bytes : (ss : List ℕ) → All (λ s. s < 65536) ss → to_samples (to_bytes ss) ≡ ss
unfolding to_samples to_bytes
to_samples-to_bytes [] h = refl
to_samples-to_bytes (s ∷ ss) h = ap₂ ◌∷◌ (omega arith) (to_samples-to_bytes ss h.1)

-- A text of an even number of bytes is made of its samples.
pub to_bytes-to_samples :
    (pcm : Text) → All (λ b. b < 256) pcm → length pcm % 2 ≡ 0 → to_bytes (to_samples pcm) ≡ pcm
unfolding to_samples to_bytes
to_bytes-to_samples [] h even = refl
to_bytes-to_samples (lo ∷ []) h even = absurd (omega arith)
to_bytes-to_samples (lo ∷ hi ∷ pcm) h even =
    ap₂ ◌∷◌ (omega arith) (ap₂ ◌∷◌ (omega arith) (to_bytes-to_samples pcm h.1.1 (omega arith)))

pub length-to_samples : (pcm : Text) → length (to_samples pcm) ≡ length pcm / 2
unfolding to_samples
length-to_samples [] = omega arith
length-to_samples (lo ∷ []) = omega arith
length-to_samples (lo ∷ hi ∷ pcm) = omega (arith, length-to_samples pcm)

pub to_samples-append :
    (p q : Text) → length p % 2 ≡ 0 → to_samples (p ++ q) ≡ to_samples p ++ to_samples q
unfolding to_samples
to_samples-append [] q even = refl
to_samples-append (lo ∷ []) q even = absurd (omega arith)
to_samples-append (lo ∷ hi ∷ p) q even =
    ap (λ (l : List ℕ). (lo + hi * 256) % 65536 ∷ l) (to_samples-append p q (omega arith))
