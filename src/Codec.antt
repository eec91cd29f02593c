-- ===== src/Codec.antt =====
-- internal/adapters/codec: PCM frames and Opus packets. A channel is the list of what passes through
-- it, and the context is not cancelled. A byte is a number below 256, and an `int16` its bit pattern,
-- a number below 65536. libopus is a parameter: its answer depends on all that the same coder was
-- given before, and it may fail to make a coder.
pub mod Bytes
pub mod Framing
pub mod Chunks
use talk_go.Prelude.{
  Bool, List, Option, Text, [], drop, false, if◌then◌else◌, length, ltb, nat_eq, none, some, suc,
  take, text_eq, true, zero, ℕ, ◌%◌, ◌*◌, ◌++◌, ◌+◌, ◌/◌, ◌==◌, ◌∷◌,
}

abbrev pub opus_frame_size : ℕ
opus_frame_size = 480

-- `decode` and `encode` take what came before and the new item; `none` is an error.
pub record Opus : Type 0 where
  pub new_decoder : Bool
  pub new_encoder : Bool
  pub decode : List Text → Text → Option (List ℕ)
  pub encode : List (List ℕ) → List ℕ → Option Text

-- `byte(s)`, then `byte(s >> 8)`, for each sample.
unfoldable pub to_bytes : List ℕ → Text
to_bytes [] = []
to_bytes (s ∷ ss) = s % 256 ∷ s / 256 % 256 ∷ to_bytes ss

-- `int16(pcm[i*2])|int16(pcm[i*2+1])<<8`: the two operands have no bit in common.
unfoldable pub to_samples : Text → List ℕ
to_samples (lo ∷ hi ∷ pcm) = (lo + hi * 256) % 65536 ∷ to_samples pcm
to_samples _ = []

-- The frames in order, with those before them: a frame that cannot be decoded is dropped.
unfoldable pub decode_from : Opus → List Text → List Text → List Text
decode_from opus past [] = []
decode_from opus past (frame ∷ frames) =
    let rest = decode_from opus (past ++ frame ∷ []) frames in
    elim (opus.decode past frame) [ none ↦ rest | some pcm ↦ to_bytes pcm ∷ rest ]

unfoldable pub decode : Opus → List Text → List Text
unfolding decode_from
decode opus frames = if opus.new_decoder then decode_from opus [] frames else []

-- The samples that wait in `accumBuf`, the frames that the coder was given, and the packets sent.
pub record Encoder : Type 0 where
  pub accum : List ℕ
  pub past : List (List ℕ)
  pub sent : List Text

abbrev pub new_encoder : Encoder
new_encoder = record { accum = []; past = []; sent = [] }

-- The coder is given a frame of `size` samples; an error drops it.
unfoldable pub encode_frame : Opus → ℕ → Encoder → Encoder
encode_frame opus size e =
    let frame = take size e.accum in
    record {
      accum = drop size e.accum;
      past = e.past ++ frame ∷ [];
      sent = elim (opus.encode e.past frame) [ none ↦ e.sent | some pkt ↦ e.sent ++ pkt ∷ [] ];
    }

-- The closure `encode`, for frames of `size` samples. Each round takes a frame away, so that the
-- number of samples is enough fuel.
unfoldable pub encode_ready : Opus → ℕ → ℕ → Encoder → Encoder
encode_ready opus size zero e = e
encode_ready opus size (suc fuel) e = elim (ltb (length e.accum) size) [
  | true ↦ e
  | false ↦ encode_ready opus size fuel (encode_frame opus size e)
]

abbrev pub push : List ℕ → Encoder → Encoder
push samples e = record e { accum = e.accum ++ samples }

-- A chunk arrives. One of odd length is skipped.
unfoldable pub feed : Opus → ℕ → Encoder → Text → Encoder
feed opus size e pcm =
    if length pcm % 2 == 0
    then (let e' = push (to_samples pcm) e in encode_ready opus size (length e'.accum) e')
    else e

unfoldable pub feed_all : Opus → ℕ → Encoder → List Text → Encoder
feed_all opus size e [] = e
feed_all opus size e (pcm ∷ pcms) = feed_all opus size (feed opus size e pcm) pcms

-- When the channel is closed, what waits in `accumBuf` is lost.
unfoldable pub encode : Opus → List Text → List Text
encode opus pcms =
    if opus.new_encoder then (feed_all opus opus_frame_size new_encoder pcms).sent else []

-- `passthrough`, for the codec without Opus.
unfoldable pub passthrough : List Text → List Text
passthrough [] = []
passthrough (frame ∷ frames) = frame ∷ passthrough frames
