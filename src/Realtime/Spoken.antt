-- ===== src/Realtime/Spoken.antt =====
-- What one message of the service does to the transcripts.
use talk_go.Realtime.Said.{worded, says, deltas}
use talk_go.Prelude.{
  Bool-cases, List, Option, Option-cases, Text, [], ap, append-nil, append_assoc, arith, if_elim,
  inl, inr, length, length-append, ltb, nat_eq, none, refl, some, sym, text_eq, true, ◌++◌, ◌<◌,
  ◌==◌, ◌∷◌, ◌≡◌, ◌≢◌, ◌≤◌, ◌⊎◌,
}
use mathlib.Core.List.{Sublist as IsSublist, sublist-append_left}
use mathlib.Core.List.Sublist
use talk_go.Realtime.Receiver.{
  audio_delta, transcript_delta, transcript_done, content_part_done, error, response_created,
  response_done, other, Kind, WsMessage, Codecs,
}
use talk_go.Realtime.{Stream, offer_transcript, again, switch, part_audio, part_text}

-- The transcript that the receiver offers when it has sent its audio.
abbrev pub unsaid : Option (Text × Text) → List Text
unsaid none = []
unsaid (some (decoded, text)) = worded text

-- What has gone into the channel `ch`, of all that was offered.
pub record Offered (gone ch told : List Text) : Type 0 where
  pub within : IsSublist gone told
  pub counted : length gone ≤ length told
  pub bounded : length ch ≤ 4
  pub shorter : length ch ≤ length gone
  pub complete : length told ≤ 4 → gone ≡ told

room_taken :
    (taken ch told : List Text) (text : Text)
    → length ch < 4
    → Offered (taken ++ ch) ch told
    → Offered (taken ++ ch ++ text ∷ []) (ch ++ text ∷ []) (told ++ text ∷ [])
room_taken taken ch told text room o = record {
  within = Sublist.append o.within (Sublist.refl (text ∷ []));
  counted =
      omega
        (arith, o.counted, length-append (taken ++ ch) (text ∷ []), length-append told (text ∷ []));
  bounded = omega (arith, length-append ch (text ∷ []));
  shorter =
      omega
        (arith, o.shorter, length-append (taken ++ ch) (text ∷ []), length-append ch (text ∷ []));
  complete = λ h.
      ap (λ (l : List Text). l ++ text ∷ [])
        (o.complete (omega (arith, length-append told (text ∷ []))));
}

dropped_text :
    (gone ch told : List Text) (text : Text)
    → 4 ≤ length ch
    → Offered gone ch told
    → Offered gone ch (told ++ text ∷ [])
dropped_text gone ch told text full o = record {
  within = Sublist.trans o.within (sublist-append_left told (text ∷ []));
  counted = omega (arith, o.counted, length-append told (text ∷ []));
  bounded = o.bounded;
  shorter = o.shorter;
  complete = λ h. absurd (omega (arith, o.counted, o.shorter, length-append told (text ∷ [])));
}

-- Of the texts `told`, the stream has given or holds what it had room for.
abbrev pub Gives : List Text → Stream → Type 0
Gives told s = Offered (s.taken_transcripts ++ s.transcript_ch) s.transcript_ch told

pub offer-Gives :
    (text : Text) (s : Stream) (told : List Text)
    → Gives told s
    → Gives (told ++ worded text) (offer_transcript text s)
unfolding offer_transcript
offer-Gives text s told o = elim (Bool-cases (text == [])) [
  | inl empty ↦ rw (empty, append-nil told) o
  | inr words ↦ rw words (
      if_elim (Gives (told ++ text ∷ [])) (ltb (length s.transcript_ch) 4) _ s
        (λ room.
          rw (← append_assoc s.taken_transcripts s.transcript_ch (text ∷ []))
            (room_taken s.taken_transcripts s.transcript_ch told text (ground arith) o))
        (λ full. dropped_text _ s.transcript_ch told text (ground arith) o))
]

-- What the switch makes of a message, for the transcripts.
pub record Spoken (codecs : Codecs) (k : Kind) (m : WsMessage) (s s' : Stream) : Type 0 where
  pub now : List Text
  pub gives : (told : List Text) → Gives told s → Gives (told ++ now) s'
  pub split : says codecs k m s.transcript_buf ≡ now ++ unsaid s'.sending
  pub same_wire : s'.wire ≡ s.wire
  pub new_buf : s'.transcript_buf ≡ deltas k m s.transcript_buf
  pub still : (s'.receiver_on ≡ true) ⊎ (s'.sending ≡ none)

pub again-Gives : (told : List Text) (s : Stream) → Gives told s → Gives told (again s)
unfolding again
again-Gives told s g = if_elim (Gives told) s.ctx_done _ s (λ over. g) (λ going. g)

-- A message that offers nothing yet.
record Unoffered (codecs : Codecs) (k : Kind) (m : WsMessage) (s s' : Stream) : Type 0 where
  same_taken : s'.taken_transcripts ≡ s.taken_transcripts
  same_ch : s'.transcript_ch ≡ s.transcript_ch
  same_wire : s'.wire ≡ s.wire
  new_buf : s'.transcript_buf ≡ deltas k m s.transcript_buf
  all : unsaid s'.sending ≡ says codecs k m s.transcript_buf
  still : (s'.receiver_on ≡ true) ⊎ (s'.sending ≡ none)

module _ (codecs : Codecs) (m : WsMessage) where
  nothing_said : (k : Kind) (s s' : Stream) → Unoffered codecs k m s s' → Spoken codecs k m s s'
  nothing_said k s s' u = record {
    now = [];
    gives = λ told g. rw (u.same_taken, u.same_ch, append-nil told) g;
    split = sym u.all;
    same_wire = u.same_wire;
    new_buf = u.new_buf;
    still = u.still;
  }

  -- A text is offered at once, which leads to `t`.
  said_now :
      (k : Kind) (text : Text) (s t : Stream)
      → ((told : List Text) → Gives told s → Gives (told ++ worded text) t)
      → t.sending ≡ none
      → t.wire ≡ s.wire
      → t.transcript_buf ≡ deltas k m s.transcript_buf
      → says codecs k m s.transcript_buf ≡ worded text
      → Spoken codecs k m s (again t)
  unfolding again
  said_now k text s t gives free wire buf said = record {
    now = worded text;
    gives = λ told g. again-Gives (told ++ worded text) t (gives told g);
    split = ground (arith, append-nil (worded text));
    same_wire = ground arith;
    new_buf = ground arith;
    still = inr (ground arith);
  }

  module _ (s : Stream) (on : s.receiver_on ≡ true) (free : s.sending ≡ none) where
    silent_Unoffered :
        (k : Kind)
        → k ≢ transcript_done
        → k ≢ content_part_done
        → Unoffered codecs k m s (switch codecs k m s)
    unfolding switch says deltas again
    silent_Unoffered audio_delta = λ p q. ground arith
    silent_Unoffered transcript_delta = λ p q. ground arith
    silent_Unoffered transcript_done = λ p q. absurd (p refl)
    silent_Unoffered content_part_done = λ p q. absurd (q refl)
    silent_Unoffered error = λ p q. ground arith
    silent_Unoffered response_created = λ p q. ground arith
    silent_Unoffered response_done = λ p q. ground arith
    silent_Unoffered other = λ p q. ground arith

    quiet :
        (k : Kind)
        → k ≢ transcript_done
        → k ≢ content_part_done
        → Spoken codecs k m s (switch codecs k m s)
    quiet k p q = nothing_said k s _ (silent_Unoffered k p q)

    offer-free : (text : Text) → (offer_transcript text s).sending ≡ none
    unfolding offer_transcript
    offer-free text = ground arith

    offer-wire : (text : Text) → (offer_transcript text s).wire ≡ s.wire
    unfolding offer_transcript
    offer-wire text = ground arith

    offer-buf : (text : Text) → (offer_transcript text s).transcript_buf ≡ s.transcript_buf
    unfolding offer_transcript
    offer-buf text = ground arith

    mute_part :
        says codecs content_part_done m s.transcript_buf ≡ []
        → Spoken codecs content_part_done m s (again s)
    unfolding again deltas
    mute_part none_said = nothing_said content_part_done s (again s) (ground arith)

    loud_part :
        (decoded text : Text)
        → says codecs content_part_done m s.transcript_buf ≡ worded text
        → Spoken codecs content_part_done m s (record s { sending = some (decoded, text) })
    unfolding deltas
    loud_part decoded text all = nothing_said content_part_done s _ (record {
      same_taken = refl;
      same_ch = refl;
      same_wire = refl;
      new_buf = refl;
      all = sym all;
      still = inl on;
    })

    part_Spoken : Spoken codecs content_part_done m s (switch codecs content_part_done m s)
    unfolding switch deltas says
    part_Spoken = elim (Bool-cases (m.part == [])) [
      | inl empty ↦ rw (empty, switch) (mute_part (rw (empty, says) refl))
      | inr full ↦ elim (Option-cases (codecs.parse_part m.part)) [
        | inl bad ↦ rw (full, bad, switch) (mute_part (rw (full, bad, says) refl))
        | inr (part, e) ↦
            let text = part_text part in
            elim (Option-cases (part_audio codecs part)) [
              | inl mute ↦
                  rw (full, e, mute, switch)
                    (said_now content_part_done text s (offer_transcript text s)
                      (λ told. offer-Gives text s told) (offer-free text) (offer-wire text)
                      (offer-buf text) (rw (full, e, says) refl))
              | inr (decoded, loud) ↦
                  rw (full, e, loud, switch) (loud_part decoded text (rw (full, e, says) refl))
            ]
      ]
    ]

    pub switch-Spoken : (k : Kind) → Spoken codecs k m s (switch codecs k m s)
    unfolding switch says deltas
    switch-Spoken audio_delta = quiet audio_delta (λ p. cc) (λ p. cc)
    switch-Spoken transcript_delta = quiet transcript_delta (λ p. cc) (λ p. cc)
    switch-Spoken transcript_done =
        said_now transcript_done s.transcript_buf s _ (λ told. offer-Gives s.transcript_buf s told)
          (offer-free s.transcript_buf) (offer-wire s.transcript_buf) refl refl
    switch-Spoken content_part_done = part_Spoken
    switch-Spoken error = quiet error (λ p. cc) (λ p. cc)
    switch-Spoken response_created = quiet response_created (λ p. cc) (λ p. cc)
    switch-Spoken response_done = quiet response_done (λ p. cc) (λ p. cc)
    switch-Spoken other = quiet other (λ p. cc) (λ p. cc)
