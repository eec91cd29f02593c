-- ===== src/Realtime/Lossless.antt =====
-- The audio, from the service to whoever takes it.
use talk_go.Realtime.Ear.{SameEar, BySender, sender_step-SameEar}
use talk_go.Realtime.Said.{audio_of, sounds, messages, messages-heard, audio_of-snoc}
use talk_go.Prelude.{
  List, Option, Text, [], ap, append-nil, append-take-drop, append_assoc, arith, false, if_elim,
  inl, inr, length, length-append, length-drop, ltb, nat_eq, none, refl, some, sym, text_eq, true,
  ◌&&◌, ◌++◌, ◌==◌, ◌∙◌, ◌∷◌, ◌≡◌, ◌≤◌, ◌⊎◌,
}
use talk_go.Realtime.Receiver.{
  audio_delta, transcript_delta, transcript_done, content_part_done, error, response_created,
  response_done, other, Kind, WsMessage, Codecs,
}
use talk_go.Realtime.{
  cancels, ticks, writes_on, input_ends, sender_quits, receiver_quits, delivers, takes_audio,
  takes_transcript, frame_in, hears, step, run, Stream, switch, again, offer_transcript, step,
  receive, heard, takes_audio, kind_of, Event, give_up, put, reading, connected,
}

-- The audio that the receiver waits to send.
abbrev pub waiting : Option (Text × Text) → List Text
waiting none = []
waiting (some (decoded, text)) = decoded ∷ []

-- `lost` is audio that has come and goes nowhere.
record Keeps (codecs : Codecs) (s : Stream) : Type 0 where
  lost : List Text
  same :
      audio_of codecs (messages s.wire) ≡ s.taken_audio ++ s.audio_ch ++ waiting s.sending ++ lost
  few : length lost ≤ 1
  bounded : length s.audio_ch ≤ 8
  listening : s.receiver_on ≡ true → lost ≡ []
  going : s.ctx_done ≡ false → lost ≡ []
  alive : (s.receiver_on ≡ true) ⊎ (s.sending ≡ none)

SameEar-Keeps : (codecs : Codecs) (s s' : Stream) → SameEar s s' → Keeps codecs s → Keeps codecs s'
SameEar-Keeps codecs s s' same k = record {
  lost = k.lost;
  same = rw (same.same_messages, same.same_taken, same.same_audio, same.same_sending) k.same;
  few = k.few;
  bounded = rw (same.same_audio) k.bounded;
  listening = λ h. k.listening (sym same.same_receiver ∙ h);
  going = λ h. k.going (sym same.same_ctx ∙ h);
  alive = rw (same.same_receiver, same.same_sending) k.alive;
}

-- What the switch makes of a message, for the audio: `s'` waits to send what the message holds.
record Sounded (codecs : Codecs) (k : Kind) (m : WsMessage) (s s' : Stream) : Type 0 where
  same_taken : s'.taken_audio ≡ s.taken_audio
  same_audio : s'.audio_ch ≡ s.audio_ch
  same_wire : s'.wire ≡ s.wire
  same_ctx : s'.ctx_done ≡ s.ctx_done
  held : waiting s'.sending ≡ sounds codecs k m
  still : (s'.receiver_on ≡ true) ⊎ (s'.sending ≡ none)

module _ (codecs : Codecs) (m : WsMessage) (s : Stream) (on : s.receiver_on ≡ true)
    (free : s.sending ≡ none) where
  switch-Sounded : (k : Kind) → Sounded codecs k m s (switch codecs k m s)
  unfolding switch again offer_transcript sounds
  switch-Sounded audio_delta = ground arith
  switch-Sounded transcript_delta = ground arith
  switch-Sounded transcript_done = ground arith
  switch-Sounded content_part_done = ground arith
  switch-Sounded error = ground arith
  switch-Sounded response_created = ground arith
  switch-Sounded response_done = ground arith
  switch-Sounded other = ground arith

module _ (codecs : Codecs) where
  again-Keeps : (s : Stream) → s.sending ≡ none → Keeps codecs s → Keeps codecs (again s)
  unfolding again
  again-Keeps s free k =
      if_elim (Keeps codecs) s.ctx_done _ s
        (λ over. record {
          lost = k.lost;
          same = k.same;
          few = k.few;
          bounded = k.bounded;
          listening = λ h. cc;
          going = k.going;
          alive = inr free;
        })
        (λ on_going. k)

  offered-Keeps :
      (text : Text) (s : Stream)
      → s.sending ≡ none
      → Keeps codecs s
      → Keeps codecs (again (offer_transcript text s))
  unfolding offer_transcript
  offered-Keeps text s free k =
      if_elim (λ s'. Keeps codecs (again s')) (text == []) s _ (λ empty. again-Keeps s free k)
        λ worded.
          if_elim (λ s'. Keeps codecs (again s')) (ltb (length s.transcript_ch) 4) _ s
            (λ room. again-Keeps _ free (record {
              lost = k.lost;
              same = k.same;
              few = k.few;
              bounded = k.bounded;
              listening = k.listening;
              going = k.going;
              alive = k.alive;
            }))
            (λ full. again-Keeps s free k)

  receive-Keeps :
      (answer : Option WsMessage) (s : Stream)
      → s.receiver_on ≡ true
      → s.sending ≡ none
      → Keeps codecs s
      → Keeps codecs (receive codecs answer s)
  unfolding receive
  receive-Keeps none s on free k = record {
    lost = k.lost;
    same = k.same;
    few = k.few;
    bounded = k.bounded;
    listening = λ h. cc;
    going = k.going;
    alive = inr free;
  }
  receive-Keeps (some m) s on free k =
      let s' : Stream = record s { wire = s.wire ++ heard m ∷ [] } in
      let now = switch-Sounded codecs m s' on free (kind_of m.kind) in
      record {
        lost = [];
        same =
            rw
              (
                now.same_wire,
                now.same_taken,
                now.same_audio,
                now.held,
                messages-heard s.wire m,
                audio_of-snoc codecs (messages s.wire) m,
              )
              (rw (k.same, k.listening on, free) (simp (append-nil, append_assoc)));
        few = omega arith;
        bounded = rw (now.same_audio) k.bounded;
        listening = λ h. refl;
        going = λ h. refl;
        alive = now.still;
      }

  put-Keeps :
      (held : Option (Text × Text)) (s : Stream)
      → s.sending ≡ held
      → Keeps codecs s
      → Keeps codecs (put held s)
  unfolding put
  put-Keeps none s e k = k
  put-Keeps (some (decoded, text)) s e k =
      if_elim (Keeps codecs) (s.receiver_on && ltb (length s.audio_ch) 8) _ s
        (λ room.
          let on : s.receiver_on ≡ true = ground arith in
          offered-Keeps text _ refl (record {
            lost = k.lost;
            same = rw (k.same, e) (simp append_assoc);
            few = k.few;
            bounded = ground (arith, length-append s.audio_ch (decoded ∷ []));
            listening = k.listening;
            going = k.going;
            alive = inr refl;
          }))
        (λ full. k)

  give_up-Keeps :
      (held : Option (Text × Text)) (s : Stream)
      → s.sending ≡ held
      → Keeps codecs s
      → Keeps codecs (give_up held s)
  unfolding give_up
  give_up-Keeps none s e k = k
  give_up-Keeps (some (decoded, text)) s e k =
      let on : s.receiver_on ≡ true = ground arith in
      if_elim (Keeps codecs) s.ctx_done _ s
        (λ over. record {
          lost = decoded ∷ [];
          same = rw (k.same, e, k.listening on) (simp (append-nil));
          few = omega arith;
          bounded = k.bounded;
          listening = λ h. cc;
          going = λ h. cc;
          alive = inr refl;
        })
        (λ on_going. k)

  take_audio-Keeps : (s : Stream) → Keeps codecs s → Keeps codecs (step codecs s takes_audio)
  unfolding step
  take_audio-Keeps s k = record {
    lost = k.lost;
    same =
        k.same
        ∙ ap (λ (l : List Text). l ++ waiting s.sending ++ k.lost)
            (sym (append-take-drop 1 s.taken_audio s.audio_ch));
    few = k.few;
    bounded = omega (arith, length-drop 1 s.audio_ch, k.bounded);
    listening = k.listening;
    going = k.going;
    alive = k.alive;
  }

  sender_step-Keeps :
      (s : Stream) (e : Event) → BySender e → Keeps codecs s → Keeps codecs (step codecs s e)
  sender_step-Keeps s e h = SameEar-Keeps codecs s _ (sender_step-SameEar codecs s e h)

  step-Keeps : (s : Stream) (e : Event) → Keeps codecs s → Keeps codecs (step codecs s e)
  unfolding step
  step-Keeps s cancels k = record {
    lost = k.lost;
    same = k.same;
    few = k.few;
    bounded = k.bounded;
    listening = k.listening;
    going = λ h. cc;
    alive = k.alive;
  }
  step-Keeps s ticks k = sender_step-Keeps s ticks tt k
  step-Keeps s input_ends k = sender_step-Keeps s input_ends tt k
  step-Keeps s writes_on k = sender_step-Keeps s writes_on tt k
  step-Keeps s (frame_in frame written) k = sender_step-Keeps s (frame_in frame written) tt k
  step-Keeps s sender_quits k = sender_step-Keeps s sender_quits tt k
  step-Keeps s (hears answer) k =
      if_elim (Keeps codecs) (reading s) _ s
        (λ free. receive-Keeps answer s (ground arith) (ground arith) k) (λ busy. k)
  step-Keeps s delivers k = put-Keeps s.sending s refl k
  step-Keeps s receiver_quits k = give_up-Keeps s.sending s refl k
  step-Keeps s takes_audio k = take_audio-Keeps s k
  step-Keeps s takes_transcript k = record {
    lost = k.lost;
    same = k.same;
    few = k.few;
    bounded = k.bounded;
    listening = k.listening;
    going = k.going;
    alive = k.alive;
  }

  run-Keeps : (s : Stream) (es : List Event) → Keeps codecs s → Keeps codecs (run codecs s es)
  unfolding run
  run-Keeps s [] k = k
  run-Keeps s (e ∷ es) k = run-Keeps (step codecs s e) es (step-Keeps s e k)

  -- Whatever happens after `session.update` is written, in any order: the audio in the messages that
  -- the receiver has read is what has been taken from the channel, what is in it, what waits to be
  -- sent on it, and what is lost, in this order. At most one piece is lost, and none while the context
  -- is not cancelled; the channel holds at most 8.
  pub audio_lossless :
      (update : Text) (es : List Event)
      → (let s = run codecs (connected update) es in
          (lost : List Text) × audio_of codecs (messages s.wire)
            ≡ s.taken_audio ++ s.audio_ch ++ waiting s.sending ++ lost
          × length lost ≤ 1
          × (s.ctx_done ≡ false → lost ≡ [])
          × length s.audio_ch ≤ 8)
  unfolding connected messages audio_of
  audio_lossless update es =
      let k = run-Keeps (connected update) es (record {
        lost = [];
        same = refl;
        few = omega arith;
        bounded = omega arith;
        listening = λ h. refl;
        going = λ h. refl;
        alive = inl refl;
      }) in
      (k.lost, k.same, k.few, k.going, k.bounded)
