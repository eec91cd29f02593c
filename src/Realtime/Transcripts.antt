-- ===== src/Realtime/Transcripts.antt =====
-- The transcripts, from the service to whoever takes them.
use talk_go.Realtime.Said.{
  worded, transcripts_of, messages, messages-heard, deltas_of, transcripts_of-snoc, deltas_of-snoc,
}
use talk_go.Prelude.{
  List, Option, Text, [], ap, append-nil, append-take-drop, append_assoc, arith, drop, if_elim, inl,
  inr, length, length-drop, ltb, nat_eq, none, refl, some, sym, take, text_eq, true, ◌&&◌, ◌++◌,
  ◌∙◌, ◌∷◌, ◌≡◌, ◌≤◌, ◌⊎◌,
}
use mathlib.Core.List.{Sublist as IsSublist, sublist-append_left}
use mathlib.Core.List.Sublist
use talk_go.Realtime.Spoken.{unsaid, Offered, offer-Gives, again-Gives, switch-Spoken}
use talk_go.Realtime.Receiver.{Codecs, WsMessage, kind_of}
use talk_go.Realtime.Ear.{SameEar, BySender, sender_step-SameEar}
use talk_go.Realtime.{
  Stream, Event, receive, put, give_up, again, step, run, reading, heard, cancels, ticks, writes_on,
  input_ends, sender_quits, receiver_quits, delivers, takes_audio, takes_transcript, frame_in,
  hears, connected, offer_transcript,
}

-- Of the transcripts, `told` have been offered, and `lost` are never offered.
record Tells (codecs : Codecs) (s : Stream) : Type 0 where
  told : List Text
  lost : List Text
  same : transcripts_of codecs [] (messages s.wire) ≡ told ++ unsaid s.sending ++ lost
  offered : Offered (s.taken_transcripts ++ s.transcript_ch) s.transcript_ch told
  buffered : s.transcript_buf ≡ deltas_of [] (messages s.wire)
  listening : s.receiver_on ≡ true → lost ≡ []
  alive : (s.receiver_on ≡ true) ⊎ (s.sending ≡ none)

SameEar-Tells : (codecs : Codecs) (s s' : Stream) → SameEar s s' → Tells codecs s → Tells codecs s'
SameEar-Tells codecs s s' same t = record {
  told = t.told;
  lost = t.lost;
  same = rw (same.same_messages, same.same_sending) t.same;
  offered = rw (same.same_read, same.same_transcripts) t.offered;
  buffered = rw (same.same_buf, same.same_messages) t.buffered;
  listening = λ h. t.listening (sym same.same_receiver ∙ h);
  alive = rw (same.same_receiver, same.same_sending) t.alive;
}

offered-rest :
    (text : Text) (s : Stream)
    → (let s' = again (offer_transcript text s) in
        (s'.wire ≡ s.wire) × (s'.transcript_buf ≡ s.transcript_buf) × (s'.sending ≡ s.sending))
unfolding again offer_transcript
offered-rest text s = (ground arith, ground arith, ground arith)

take-Offered :
    (taken ch told : List Text)
    → Offered (taken ++ ch) ch told
    → Offered ((taken ++ take 1 ch) ++ drop 1 ch) (drop 1 ch) told
take-Offered taken ch told o = rw (append-take-drop 1 taken ch) (record {
  within = o.within;
  counted = o.counted;
  bounded = omega (arith, o.bounded, length-drop 1 ch);
  shorter = omega (arith, o.shorter, length-drop 1 ch);
  complete = o.complete;
})

nil-Offered : Offered [] [] []
nil-Offered = record {
  within = Sublist.refl [];
  counted = omega arith;
  bounded = omega arith;
  shorter = omega arith;
  complete = λ h. refl;
}

module _ (codecs : Codecs) where
  all_told :
      (s : Stream) (t : Tells codecs s)
      → s.receiver_on ≡ true
      → s.sending ≡ none
      → transcripts_of codecs [] (messages s.wire) ≡ t.told
  all_told s t on free = t.same ∙ rw (t.listening on, free) (simp append-nil)

  receive-Tells :
      (answer : Option WsMessage) (s : Stream)
      → s.receiver_on ≡ true
      → s.sending ≡ none
      → Tells codecs s
      → Tells codecs (receive codecs answer s)
  unfolding receive
  receive-Tells none s on free t = record {
    told = t.told;
    lost = t.lost;
    same = t.same;
    offered = t.offered;
    buffered = t.buffered;
    listening = λ h. cc;
    alive = inr free;
  }
  receive-Tells (some m) s on free t =
      let s' : Stream = record s { wire = s.wire ++ heard m ∷ [] } in
      let sp = switch-Spoken codecs m s' on free (kind_of m.kind) in
      let before = messages s.wire in
      let all : transcripts_of codecs [] before ≡ t.told = all_told s t on free in
      record {
        told = t.told ++ sp.now;
        lost = [];
        same =
            rw
              (
                sp.same_wire,
                messages-heard s.wire m,
                transcripts_of-snoc codecs [] before m,
                all,
                ← t.buffered,
                sp.split,
              )
              (simp (append-nil, append_assoc));
        offered = sp.gives t.told t.offered;
        buffered =
            rw
              (
                sp.new_buf,
                sp.same_wire,
                messages-heard s.wire m,
                deltas_of-snoc [] before m,
                t.buffered,
              )
              refl;
        listening = λ h. refl;
        alive = sp.still;
      }

  put-Tells :
      (held : Option (Text × Text)) (s : Stream)
      → s.sending ≡ held
      → Tells codecs s
      → Tells codecs (put held s)
  unfolding put
  put-Tells none s e t = t
  put-Tells (some (decoded, text)) s e t =
      if_elim (Tells codecs) (s.receiver_on && ltb (length s.audio_ch) 8) _ s
        (λ room.
          let on : s.receiver_on ≡ true = ground arith in
          let sent_on : Stream = record s {
            sending = none;
            audio_ch = s.audio_ch ++ decoded ∷ [];
          } in
          let (wire, buf, sending) = offered-rest text sent_on in
          record {
            told = t.told ++ worded text;
            lost = [];
            same = rw (wire, sending, t.same, e, t.listening on) (simp append-nil);
            offered = again-Gives _ _ (offer-Gives text sent_on t.told t.offered);
            buffered = rw (wire, buf) t.buffered;
            listening = λ h. refl;
            alive = inr sending;
          })
        (λ full. t)

  give_up-Tells :
      (held : Option (Text × Text)) (s : Stream)
      → s.sending ≡ held
      → Tells codecs s
      → Tells codecs (give_up held s)
  unfolding give_up
  give_up-Tells none s e t = t
  give_up-Tells (some (decoded, text)) s e t =
      let on : s.receiver_on ≡ true = ground (arith, t.alive) in
      if_elim (Tells codecs) s.ctx_done _ s
        (λ over. record {
          told = t.told;
          lost = worded text;
          same = rw (t.same, e, t.listening on) (simp append-nil);
          offered = t.offered;
          buffered = t.buffered;
          listening = λ h. cc;
          alive = inr refl;
        })
        (λ going. t)

  sender_step-Tells :
      (s : Stream) (e : Event) → BySender e → Tells codecs s → Tells codecs (step codecs s e)
  sender_step-Tells s e h = SameEar-Tells codecs s _ (sender_step-SameEar codecs s e h)

  step-Tells : (s : Stream) (e : Event) → Tells codecs s → Tells codecs (step codecs s e)
  unfolding step
  step-Tells s cancels t = record {
    told = t.told;
    lost = t.lost;
    same = t.same;
    offered = t.offered;
    buffered = t.buffered;
    listening = t.listening;
    alive = t.alive;
  }
  step-Tells s ticks t = sender_step-Tells s ticks tt t
  step-Tells s input_ends t = sender_step-Tells s input_ends tt t
  step-Tells s writes_on t = sender_step-Tells s writes_on tt t
  step-Tells s (frame_in frame written) t = sender_step-Tells s (frame_in frame written) tt t
  step-Tells s sender_quits t = sender_step-Tells s sender_quits tt t
  step-Tells s (hears answer) t =
      if_elim (Tells codecs) (reading s) _ s
        (λ free. receive-Tells answer s (ground arith) (ground arith) t) (λ busy. t)
  step-Tells s delivers t = put-Tells s.sending s refl t
  step-Tells s receiver_quits t = give_up-Tells s.sending s refl t
  step-Tells s takes_audio t = record {
    told = t.told;
    lost = t.lost;
    same = t.same;
    offered = t.offered;
    buffered = t.buffered;
    listening = t.listening;
    alive = t.alive;
  }
  step-Tells s takes_transcript t = record {
    told = t.told;
    lost = t.lost;
    same = t.same;
    offered = take-Offered s.taken_transcripts s.transcript_ch t.told t.offered;
    buffered = t.buffered;
    listening = t.listening;
    alive = t.alive;
  }

  run-Tells : (s : Stream) (es : List Event) → Tells codecs s → Tells codecs (run codecs s es)
  unfolding run
  run-Tells s [] t = t
  run-Tells s (e ∷ es) t = run-Tells (step codecs s e) es (step-Tells s e t)

  told_within :
      (s : Stream)
      → Tells codecs s
      → IsSublist
          (s.taken_transcripts ++ s.transcript_ch)
          (transcripts_of codecs [] (messages s.wire))
  told_within s t = rw t.same (
      Sublist.trans t.offered.within (
        Sublist.trans (sublist-append_left t.told (unsaid s.sending))
          (sublist-append_left (t.told ++ unsaid s.sending) t.lost)))

  -- Whatever happens after `session.update` is written, in any order: the transcripts that have been
  -- taken from the channel or are in it are, in this order, among those that the messages read so far
  -- make: one of the deltas up to each "done", and one of each part with text. At most 4 are in the
  -- channel. If at most 4 have come, and the receiver waits for the next message, none is missing.
  pub transcripts_in_order :
      (update : Text) (es : List Event)
      → (let s = run codecs (connected update) es in
          let said = transcripts_of codecs [] (messages s.wire) in
          IsSublist (s.taken_transcripts ++ s.transcript_ch) said
          × length s.transcript_ch ≤ 4
          × (s.receiver_on ≡ true
              → s.sending ≡ none
              → length said ≤ 4
              → s.taken_transcripts ++ s.transcript_ch ≡ said))
  unfolding connected messages transcripts_of deltas_of
  transcripts_in_order update es =
      let t = run-Tells (connected update) es (record {
        told = [];
        lost = [];
        same = refl;
        offered = nil-Offered;
        buffered = refl;
        listening = λ h. refl;
        alive = inl refl;
      }) in
      (
        told_within _ t,
        t.offered.bounded,
        λ on free few.
            let all = all_told _ t on free in
            t.offered.complete (omega (arith, ap length all)) ∙ sym all,
      )
