-- ===== src/Codec/Framing.antt =====
-- How the encoder cuts its input into frames.
use talk_go.Prelude.{
  List, Text, [], ap, append_assoc, arith, dec_lt, drop, length, length-append, length-drop, nat_eq,
  refl, suc, sym, take, text_eq, zero, ℕ, ◌%◌, ◌++◌, ◌-◌, ◌<◌, ◌∙◌, ◌∷◌, ◌≡◌, ◌≤◌,
}
use talk_go.Codec.{Opus, Encoder, push, encode_frame, encode_ready, feed, to_samples}
use talk_go.Codec.Bytes.{to_samples-append}

take-append : (n : ℕ) (xs ys : List ℕ) → n ≤ length xs → take n (xs ++ ys) ≡ take n xs
take-append zero xs ys h = refl
take-append (suc n) [] ys h = absurd (omega arith)
take-append (suc n) (x ∷ xs) ys h = ap (λ (l : List ℕ). x ∷ l) (take-append n xs ys (omega arith))

drop-append : (n : ℕ) (xs ys : List ℕ) → n ≤ length xs → drop n (xs ++ ys) ≡ drop n xs ++ ys
drop-append zero xs ys h = refl
drop-append (suc n) [] ys h = absurd (omega arith)
drop-append (suc n) (x ∷ xs) ys h = drop-append n xs ys (omega arith)

module _ (opus : Opus) (size : ℕ) (positive : 0 < size) where
  -- Samples that come later do not change the frame that is encoded.
  encode_frame-push :
      (samples : List ℕ) (e : Encoder)
      → size ≤ length e.accum
      → encode_frame opus size (push samples e) ≡ push samples (encode_frame opus size e)
  unfolding encode_frame
  encode_frame-push samples e h =
      rw (take-append size e.accum samples h, drop-append size e.accum samples h) refl

  encode_frame-length :
      (e : Encoder) → length (encode_frame opus size e).accum ≡ length e.accum - size
  unfolding encode_frame
  encode_frame-length e = length-drop {0} size e.accum

  -- Any two amounts of fuel that are enough give the same.
  encode_ready-fuel :
      (m n : ℕ) (e : Encoder)
      → length e.accum ≤ m
      → length e.accum ≤ n
      → encode_ready opus size m e ≡ encode_ready opus size n e
  unfolding encode_ready
  encode_ready-fuel zero zero e h k = refl
  encode_ready-fuel zero (suc n) e h k = ground arith
  encode_ready-fuel (suc m) zero e h k = ground arith
  encode_ready-fuel (suc m) (suc n) e h k =
      ground (arith, encode_ready-fuel m n (encode_frame opus size e), encode_frame-length e)

  -- With enough fuel, less than a frame is left.
  pub encode_ready-lt :
      (n : ℕ) (e : Encoder) → length e.accum ≤ n → length (encode_ready opus size n e).accum < size
  unfolding encode_ready
  encode_ready-lt zero e h = omega arith
  encode_ready-lt (suc n) e h =
      ground (arith, encode_ready-lt n (encode_frame opus size e), encode_frame-length e)

  encode_ready-le :
      (n : ℕ) (e : Encoder) → length (encode_ready opus size n e).accum ≤ length e.accum
  unfolding encode_ready
  encode_ready-le zero e = omega arith
  encode_ready-le (suc n) e =
      ground (arith, encode_ready-le n (encode_frame opus size e), encode_frame-length e)

  pub encode_ready_more :
      (n : ℕ) (e : Encoder)
      → size ≤ length e.accum
      → encode_ready opus size (suc n) e ≡ encode_ready opus size n (encode_frame opus size e)
  unfolding encode_ready
  encode_ready_more n e h = ground arith

  pub encode_ready_few :
      (n : ℕ) (e : Encoder) → length e.accum < size → encode_ready opus size n e ≡ e
  unfolding encode_ready
  encode_ready_few zero e h = refl
  encode_ready_few (suc n) e h = ground arith

  -- One round, given the claim for what is left after it.
  again :
      (m n : ℕ) (samples : List ℕ) (e : Encoder)
      → length (e.accum ++ samples) ≤ suc m
      → size ≤ length e.accum
      → (let e' = encode_frame opus size e in
          length (e'.accum ++ samples) ≤ m
          → encode_ready opus size m (push samples e')
            ≡ encode_ready opus size m (push samples (encode_ready opus size n e')))
      → encode_ready opus size (suc m) (push samples e)
        ≡ encode_ready opus size (suc m) (push samples (encode_ready opus size (suc n) e))
  again m n samples e h enough ih =
      let e' = encode_frame opus size e in
      let more : length (e'.accum ++ samples) ≤ m = omega (
        arith,
        length-append {0} e.accum samples,
        length-append {0} e'.accum samples,
        encode_frame-length e,
      ) in
      let done = encode_ready opus size n e' in
      let left : length (done.accum ++ samples) ≤ m = omega (
        arith,
        length-append {0} done.accum samples,
        length-append {0} e'.accum samples,
        encode_ready-le n e',
      ) in
      encode_ready_more m (push samples e) (omega (arith, length-append {0} e.accum samples))
      ∙ ap (encode_ready opus size m) (encode_frame-push samples e enough)
      ∙ ih more
      ∙ encode_ready-fuel m (suc m) (push samples done) left (omega arith)
      ∙ sym (
          ap (λ (d : Encoder). encode_ready opus size (suc m) (push samples d))
            (encode_ready_more n e enough))

  -- What is encoded before more samples come need not wait for them.
  encode_ready-push :
      (m n : ℕ) (samples : List ℕ) (e : Encoder)
      → length (e.accum ++ samples) ≤ m
      → length e.accum ≤ n
      → encode_ready opus size m (push samples e)
        ≡ encode_ready opus size m (push samples (encode_ready opus size n e))
  unfolding encode_ready
  encode_ready-push m zero samples e h k = refl
  encode_ready-push zero (suc n) samples e h k =
      rw (encode_ready_few (suc n) e (omega (arith, length-append {0} e.accum samples))) refl
  encode_ready-push (suc m) (suc n) samples e h k = elim (dec_lt (length e.accum) size) [
    | yes few ↦ rw (encode_ready_few (suc n) e few) refl
    | no enough ↦ again m n samples e h (omega arith) (λ more.
        encode_ready-push m n samples (encode_frame opus size e) more
          (omega (arith, encode_frame-length e)))
  ]

  pub feed_even :
      (e : Encoder) (pcm : Text)
      → length pcm % 2 ≡ 0
      → feed opus size e pcm
        ≡ encode_ready opus size (length (e.accum ++ to_samples pcm)) (push (to_samples pcm) e)
  unfolding feed
  feed_even e pcm even = ground arith

  -- Two chunks of even length are worth the one that they make up.
  pub feed-append :
      (e : Encoder) (p q : Text)
      → length p % 2 ≡ 0
      → length q % 2 ≡ 0
      → feed opus size (feed opus size e p) q ≡ feed opus size e (p ++ q)
  feed-append e p q hp hq =
      let wave = to_samples p in
      let e' = push wave e in
      let done = encode_ready opus size (length (e.accum ++ wave)) e' in
      let more = to_samples q in
      let fuel = length ((e.accum ++ wave) ++ more) in
      ap (λ (d : Encoder). feed opus size d q) (feed_even e p hp)
      ∙ feed_even done q hq
      ∙ encode_ready-fuel (length (done.accum ++ more)) fuel (push more done) (omega arith) (
          omega (
            arith,
            length-append {0} done.accum more,
            length-append {0} (e.accum ++ wave) more,
            encode_ready-le (length (e.accum ++ wave)) e',
          ))
      ∙ sym (encode_ready-push fuel (length (e.accum ++ wave)) more e' (omega arith) (omega arith))
      ∙ sym (
          feed_even e (p ++ q) (omega (arith, length-append {0} p q))
          ∙ ap (λ (a : List ℕ). encode_ready opus size (length (e.accum ++ a)) (push a e))
              (to_samples-append p q hp)
          ∙ ap (λ (a : List ℕ). encode_ready opus size (length a) (record e { accum = a }))
              (sym (append_assoc e.accum wave more)))
