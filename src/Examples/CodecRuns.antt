-- ===== src/Examples/CodecRuns.antt =====
-- The codecs.
use talk_go.Prelude.{
  All, List, Text, [], arith, length, nat_eq, none, refl, some, suc, take, text_eq, true, zero, ℕ,
  ℕ_discrete, ◌++◌, ◌<◌, ◌∷◌, ◌≡◌,
}
use talk_go.Codec.{
  Opus, new_encoder, feed, feed_all, encode, decode, to_samples, to_bytes, encode_ready,
  encode_frame, opus_frame_size,
}
use talk_go.Codec.Bytes.{to_samples-to_bytes}
use talk_go.Codec.Chunks.{joined, kept, encode-joined, feed_all-samples}

-- A coder whose packets are the first samples of the frames, and which cannot decode the empty
-- packet.
abbrev pub opus : Opus
opus = record {
  new_decoder = true;
  new_encoder = true;
  decode = λ past pkt. elim pkt [ [] ↦ none | b ∷ bs ↦ some (b ∷ 65535 ∷ []) ];
  encode = λ past frame. some (take 2 frame);
}

abbrev silence : ℕ → Text
silence zero = []
silence (suc n) = 0 ∷ 1 ∷ silence n

-- The middle chunk is of odd length.
abbrev chunks : List Text
chunks = silence 300 ∷ (7 ∷ []) ∷ silence 300 ∷ []

-- Frames of two samples.
feed_run :
    (feed_all opus 2 new_encoder ((1 ∷ 0 ∷ []) ∷ (9 ∷ []) ∷ (2 ∷ 1 ∷ 3 ∷ 0 ∷ []) ∷ [])).sent
    ≡ (1 ∷ 258 ∷ []) ∷ []
unfolding feed_all feed encode_ready encode_frame to_samples ℕ_discrete
feed_run = refl

decode_run :
    decode opus ((5 ∷ []) ∷ [] ∷ (6 ∷ []) ∷ [])
    ≡ (5 ∷ 0 ∷ 255 ∷ 255 ∷ []) ∷ (6 ∷ 0 ∷ 255 ∷ 255 ∷ []) ∷ []
unfolding decode to_bytes
decode_run = refl

to_samples-to_bytes_example : to_samples (to_bytes (0 ∷ 258 ∷ 65535 ∷ [])) ≡ 0 ∷ 258 ∷ 65535 ∷ []
to_samples-to_bytes_example =
    to_samples-to_bytes (0 ∷ 258 ∷ 65535 ∷ []) (omega arith, (omega arith, (omega arith, tt)))

encode-joined_example : encode opus chunks ≡ encode opus (joined (kept chunks) ∷ [])
encode-joined_example = encode-joined opus chunks

feed_all-samples_example :
    (let e = feed_all opus opus_frame_size new_encoder chunks in
      All (λ frame. length frame ≡ 480) e.past
      × length e.accum < 480
      × joined e.past ++ e.accum ≡ to_samples (joined (kept chunks)))
feed_all-samples_example = feed_all-samples opus chunks
