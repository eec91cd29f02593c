-- ===== src/Codec/Chunks.antt =====
-- What the encoder does with a whole stream.
use talk_go.Prelude.{
  All, Bool-cases, List, Text, [], ap, append-nil, append_assoc, arith, dec_lt, drop, if◌then◌else◌,
  inl, inr, length, length-append, length-take, nat_eq, refl, suc, sym, take, take-append-drop,
  text_eq, zero, ℕ, ◌%◌, ◌++◌, ◌<◌, ◌==◌, ◌∙◌, ◌∷◌, ◌≡◌, ◌≤◌,
}
use talk_go.Codec.{
  Opus, Encoder, push, encode_frame, encode_ready, feed, feed_all, to_samples, encode,
  opus_frame_size, new_encoder,
}
use talk_go.Codec.Framing.{
  encode_ready_few, encode_ready-lt, feed_even, feed-append, encode_ready_more,
}

-- The chunks, or the frames, one after the other.
abbrev pub joined : List Text → Text
joined [] = []
joined (pcm ∷ pcms) = pcm ++ joined pcms

joined-append : (xs ys : List Text) → joined (xs ++ ys) ≡ joined xs ++ joined ys
joined-append [] ys = refl
joined-append (x ∷ xs) ys = rw (joined-append xs ys, append_assoc x (joined xs) (joined ys)) refl

joined_even :
    (pcms : List Text) → All (λ pcm. length pcm % 2 ≡ 0) pcms → length (joined pcms) % 2 ≡ 0
joined_even [] h = omega arith
joined_even (pcm ∷ pcms) h =
    omega (arith, h.0, joined_even pcms h.1, length-append {0} pcm (joined pcms))

All-snoc : (P : Text → Type 0) (xs : List Text) (x : Text) → All P xs → P x → All P (xs ++ x ∷ [])
All-snoc P [] x h k = (k, tt)
All-snoc P (y ∷ xs) x h k = (h.0, All-snoc P xs x h.1 k)

-- The chunks of even length, which the encoder keeps.
unfoldable pub kept : List Text → List Text
kept [] = []
kept (pcm ∷ pcms) = let rest = kept pcms in if length pcm % 2 == 0 then pcm ∷ rest else rest

kept_even : (pcms : List Text) → All (λ pcm. length pcm % 2 ≡ 0) (kept pcms)
unfolding kept
kept_even [] = tt
kept_even (pcm ∷ pcms) = ground (arith, kept_even pcms)

pub kept_all : (pcms : List Text) → All (λ pcm. length pcm % 2 ≡ 0) pcms → kept pcms ≡ pcms
unfolding kept
kept_all [] even = refl
kept_all (pcm ∷ pcms) even = ground (arith, kept_all pcms even.1, even.0)

module _ (opus : Opus) (size : ℕ) (positive : 0 < size) where
  -- An encoder with less than a frame waiting: so it is between two chunks.
  abbrev Ready : Encoder → Type 0
  Ready e = length e.accum < size

  feed-Ready : (e : Encoder) (pcm : Text) → Ready e → Ready (feed opus size e pcm)
  unfolding feed
  feed-Ready e pcm r = elim (Bool-cases (length pcm % 2 == 0)) [
    | inl even ↦
        rw even (encode_ready-lt opus size positive _ (push (to_samples pcm) e) (omega arith))
    | inr odd ↦ rw odd r
  ]

  feed_nil : (e : Encoder) → Ready e → feed opus size e [] ≡ e
  unfolding to_samples
  feed_nil e r =
      feed_even opus size positive e [] (omega arith)
      ∙ rw (append-nil e.accum) (encode_ready_few opus size positive (length e.accum) e r)

  feed_all-joined :
      (pcms : List Text) (e : Encoder)
      → Ready e
      → All (λ pcm. length pcm % 2 ≡ 0) pcms
      → feed_all opus size e pcms ≡ feed opus size e (joined pcms)
  unfolding feed_all
  feed_all-joined [] e r h = sym (feed_nil e r)
  feed_all-joined (pcm ∷ pcms) e r h =
      feed_all-joined pcms (feed opus size e pcm) (feed-Ready e pcm r) h.1
      ∙ feed-append opus size positive e pcm (joined pcms) h.0 (joined_even pcms h.1)

  -- The samples so far: those of the frames that the coder was given, then those that wait.
  abbrev heard : Encoder → List ℕ
  heard e = joined e.past ++ e.accum

  encode_frame-heard : (e : Encoder) → heard (encode_frame opus size e) ≡ heard e
  unfolding encode_frame
  encode_frame-heard e =
      let frame = take size e.accum in
      rw (joined-append e.past (frame ∷ []), append-nil frame)
        (append_assoc (joined e.past) frame (drop size e.accum)
          ∙ ap (λ (l : List ℕ). joined e.past ++ l) (take-append-drop size e.accum))

  abbrev Whole : Encoder → Type 0
  Whole e = All (λ frame. length frame ≡ size) e.past

  encode_frame-Whole :
      (e : Encoder) → size ≤ length e.accum → Whole e → Whole (encode_frame opus size e)
  unfolding encode_frame
  encode_frame-Whole e enough w =
      All-snoc _ e.past (take size e.accum) w (omega (arith, length-take {0} size e.accum))

  encode_ready-heard :
      (n : ℕ) (e : Encoder)
      → Whole e
      → (heard (encode_ready opus size n e) ≡ heard e) × Whole (encode_ready opus size n e)
  unfolding encode_ready
  encode_ready-heard zero e w = (refl, w)
  encode_ready-heard (suc n) e w = elim (dec_lt (length e.accum) size) [
    | yes few ↦ rw (encode_ready_few opus size positive (suc n) e few) (refl, w)
    | no enough ↦
        let rest =
          encode_ready-heard n (encode_frame opus size e) (encode_frame-Whole e (omega arith) w) in
        rw (encode_ready_more opus size positive n e (omega arith))
          (rest.0 ∙ encode_frame-heard e, rest.1)
  ]

  feed_all-kept :
      (pcms : List Text) (e : Encoder)
      → feed_all opus size e pcms ≡ feed_all opus size e (kept pcms)
  unfolding feed_all feed kept
  feed_all-kept [] e = refl
  feed_all-kept (pcm ∷ pcms) e =
      ground (arith, feed_all-kept pcms (feed opus size e pcm), feed_all-kept pcms e)

  feed_all-once :
      (pcms : List Text) (e : Encoder)
      → Ready e
      → feed_all opus size e pcms ≡ feed opus size e (joined (kept pcms))
  feed_all-once pcms e r = feed_all-kept pcms e ∙ feed_all-joined (kept pcms) e r (kept_even pcms)

  feed-heard :
      (pcm : Text) (e : Encoder)
      → length pcm % 2 ≡ 0
      → Whole e
      → (let e' = feed opus size e pcm in (heard e' ≡ heard e ++ to_samples pcm) × Whole e')
  feed-heard pcm e even w =
      let all =
        encode_ready-heard (length (e.accum ++ to_samples pcm)) (push (to_samples pcm) e) w in
      rw (feed_even opus size positive e pcm even)
        (all.0 ∙ sym (append_assoc (joined e.past) e.accum (to_samples pcm)), all.1)

-- Chunks of any sizes, those of odd length left out, give the packets that their bytes in one chunk
-- give.
pub encode-joined :
    (opus : Opus) (pcms : List Text) → encode opus pcms ≡ encode opus (joined (kept pcms) ∷ [])
unfolding encode feed_all
encode-joined opus pcms =
    ap (λ (e : Encoder). if opus.new_encoder then e.sent else [])
      (feed_all-once opus opus_frame_size (omega arith) pcms new_encoder (omega arith))

-- The frames that the coder is given have 480 samples each, less than 480 samples wait, and the
-- frames and what waits make up the samples of the chunks of even length, in order.
pub feed_all-samples :
    (opus : Opus) (pcms : List Text)
    → (let e = feed_all opus opus_frame_size new_encoder pcms in
        All (λ frame. length frame ≡ 480) e.past
        × length e.accum < 480
        × joined e.past ++ e.accum ≡ to_samples (joined (kept pcms)))
feed_all-samples opus pcms =
    let positive : 0 < opus_frame_size = omega arith in
    let pcm = joined (kept pcms) in
    let even = joined_even (kept pcms) (kept_even pcms) in
    let all = feed-heard opus opus_frame_size positive pcm new_encoder even tt in
    rw (feed_all-once opus opus_frame_size positive pcms new_encoder positive)
      (all.1, feed-Ready opus opus_frame_size positive new_encoder pcm positive, all.0)
