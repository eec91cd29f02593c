-- ===== src/Realtime/Protocol.antt =====
-- The order of the messages on the WebSocket.
use talk_go.Prelude.{
  Bool, List, Option, Text, [], arith, false, if_elim, nat_eq, none, refl, some, subst, suc, sym,
  text_eq, true, zero, ℕ, ◌&&◌, ◌++◌, ◌==◌, ◌||◌, ◌∙◌, ◌∷◌, ◌≡◌, ◌≢◌,
}
use talk_go.Realtime.Receiver.{
  audio_delta, transcript_delta, transcript_done, content_part_done, error, response_created,
  response_done, other, kind_of, Kind, WsMessage, Codecs,
}
use talk_go.Realtime.{
  Outgoing, writes_on, selects, is_done, end_input, write_on, commit_audio, create_response,
  stop_sender, offer_transcript, commit, switch, again, append_frame, step, run, receive, reading,
  Event, cancels, ticks, input_ends, sender_quits, receiver_quits, delivers, takes_audio,
  takes_transcript, frame_in, hears, Stream, connected, Wire, sent, session_update, append_audio,
  heard, close_message, give_up, put,
}

-- Whether a response is active, after a message of the service.
unfoldable pub active_after : Kind → Bool → Bool
active_after response_created active = true
active_after response_done active = false
active_after _ active = active

-- `Talk n active left open ws`: what passes over the WebSocket keeps to the protocol. Since the last
-- decision to commit `n` frames are appended; a response may be active; `left` is what the client has
-- still to write of a commit; and the client may still write.
pub data Talk : ℕ → Bool → List Outgoing → Bool → List Wire → Type 0 where
  opened : (update : Text) → Talk 0 false [] true (sent (session_update update) ∷ [])
  appended :
      {n : ℕ} {active : Bool} {ws : List Wire}
      → Talk n active [] true ws
      → (audio : Text) → Talk (suc n) active [] true (ws ++ sent (append_audio audio) ∷ [])
  decided :
      {n : ℕ} {ws : List Wire}
      → Talk (suc n) false [] true ws
      → Talk 0 false (commit_audio ∷ create_response ∷ []) true ws
  wrote :
      {n : ℕ} {active : Bool} {o : Outgoing} {left : List Outgoing} {ws : List Wire}
      → Talk n active (o ∷ left) true ws
      → Talk n active left true (ws ++ sent o ∷ [])
  answered :
      {n : ℕ} {active open_ : Bool} {left : List Outgoing} {ws : List Wire}
      → Talk n active left open_ ws
      → (m : WsMessage)
      → Talk n (active_after (kind_of m.kind) active) left open_ (ws ++ heard m ∷ [])
  finished :
      {n : ℕ} {active : Bool} {ws : List Wire}
      → Talk n active [] true ws
      → Talk n active [] false (ws ++ sent close_message ∷ [])

-- The sender's counter is the number of frames since the last decision to commit, while the sender runs.
pub record Conforms (s : Stream) : Type 0 where
  pub since : ℕ
  pub talk : Talk since s.response_active s.commit_left s.sender_on s.wire
  pub counted : s.sender_on ≡ true → since ≡ s.pending_frames

connected-Conforms : (update : Text) → Conforms (connected update)
unfolding connected
connected-Conforms update = record { since = 0; talk = opened update; counted = λ h. refl }

-- `s'` has the same sender as `s`, and the messages `ws`.
record Same (s : Stream) (active : Bool) (ws : List Wire) (s' : Stream) : Type 0 where
  same_active : s'.response_active ≡ active
  same_sender : s'.sender_on ≡ s.sender_on
  same_wire : s'.wire ≡ ws
  same_pending : s'.pending_frames ≡ s.pending_frames
  same_left : s'.commit_left ≡ s.commit_left

Same-Conforms : (s s' : Stream) → Same s s.response_active s.wire s' → Conforms s → Conforms s'
Same-Conforms s s' same c = record {
  since = c.since;
  talk = rw (same.same_active, same.same_left, same.same_sender, same.same_wire) c.talk;
  counted = λ h. c.counted (sym same.same_sender ∙ h) ∙ sym same.same_pending;
}

Heard-Conforms :
    (s s' : Stream) (m : WsMessage)
    → Same s (active_after (kind_of m.kind) s.response_active) (s.wire ++ heard m ∷ []) s'
    → Conforms s
    → Conforms s'
Heard-Conforms s s' m same c = record {
  since = c.since;
  talk =
      rw (same.same_active, same.same_left, same.same_sender, same.same_wire) (answered c.talk m);
  counted = λ h. c.counted (sym same.same_sender ∙ h) ∙ sym same.same_pending;
}

offer-Same : (t : Text) (s : Stream) → Same s s.response_active s.wire (offer_transcript t s)
unfolding offer_transcript
offer-Same t s = ground arith

-- What the invariant says of a sender at its `select`, and of one that is writing.
at_select : (s : Stream) → selects s ≡ true → (s.sender_on ≡ true) × (s.commit_left ≡ [])
at_select s h = (ground arith, nothing s.commit_left (ground arith))
  where
    nothing : (left : List Outgoing) → is_done left ≡ true → left ≡ []
    nothing [] done = refl
    nothing (o ∷ left) done = absurd (ground arith)

open-Talk :
    (s : Stream) (left : List Outgoing)
    → s.sender_on ≡ true
    → s.commit_left ≡ left
    → (c : Conforms s) → Talk c.since s.response_active left true s.wire
open-Talk s left on at c =
    subst (λ b. Talk c.since s.response_active left b s.wire) on
      (subst (λ l. Talk c.since s.response_active l s.sender_on s.wire) at c.talk)

decides :
    (n : ℕ) (active : Bool) (ws : List Wire)
    → n ≢ 0
    → active ≡ false
    → Talk n active [] true ws
    → Talk 0 active (commit_audio ∷ create_response ∷ []) true ws
decides zero active ws some_wait idle t = absurd (some_wait refl)
decides (suc n) true ws some_wait idle t = absurd (ground arith)
decides (suc n) false ws some_wait idle t = decided t

commit-Conforms : (s : Stream) → selects s ≡ true → Conforms s → Conforms (commit s)
unfolding commit
commit-Conforms s free c =
    let (on, at) = at_select s free in
    if_elim Conforms (s.pending_frames == 0 || s.response_active) s _ (λ stays. c)
      λ goes. record {
        since = 0;
        talk =
            subst (λ b. Talk 0 s.response_active (commit_audio ∷ create_response ∷ []) b s.wire)
              (sym on)
              (decides c.since s.response_active s.wire (ground (arith, c.counted on)) (idle goes)
                (open-Talk s [] on at c));
        counted = λ h. refl;
      }
  where
    idle : (s.pending_frames == 0 || s.response_active) ≡ false → s.response_active ≡ false
    idle goes = ground arith

commit-sender_on : (s : Stream) → (commit s).sender_on ≡ s.sender_on
unfolding commit
commit-sender_on s = ground arith

stop_sender-Conforms :
    (s : Stream) → s.sender_on ≡ true → s.commit_left ≡ [] → Conforms s → Conforms (stop_sender s)
unfolding stop_sender
stop_sender-Conforms s on at c = record {
  since = c.since;
  talk =
      subst (λ l. Talk c.since s.response_active l false (s.wire ++ sent close_message ∷ []))
        (sym at) (finished (open-Talk s [] on at c));
  counted = λ h. cc;
}

end_input-Conforms :
    (left : List Outgoing) (s : Stream)
    → s.sender_on ≡ true
    → s.commit_left ≡ left
    → Conforms s
    → Conforms (end_input left s)
unfolding end_input
end_input-Conforms [] s on at c = stop_sender-Conforms s on at c
end_input-Conforms (o ∷ left) s on at c = record {
  since = c.since;
  talk = c.talk;
  counted = c.counted;
}

written-Conforms :
    (o : Outgoing) (left : List Outgoing) (s : Stream)
    → s.sender_on ≡ true
    → s.commit_left ≡ o ∷ left
    → Conforms s
    → Conforms (record s { commit_left = left; wire = s.wire ++ sent o ∷ [] })
written-Conforms o left s on at c = record {
  since = c.since;
  talk =
      subst (λ b. Talk c.since s.response_active left b (s.wire ++ sent o ∷ [])) (sym on)
        (wrote (open-Talk s (o ∷ left) on at c));
  counted = c.counted;
}

write_on-Conforms :
    (left : List Outgoing) (s : Stream)
    → s.sender_on ≡ true
    → s.commit_left ≡ left
    → Conforms s
    → Conforms (write_on left s)
unfolding write_on
write_on-Conforms [] s on at c = c
write_on-Conforms (o ∷ []) s on at c =
    let c' = written-Conforms o [] s on at c in
    if_elim Conforms s.ending _ _ (λ ends. stop_sender-Conforms _ on refl c') (λ goes_on. c')
write_on-Conforms (o ∷ p ∷ ps) s on at c = written-Conforms o (p ∷ ps) s on at c

put-Same : (held : Option (Text × Text)) (s : Stream) → Same s s.response_active s.wire (put held s)
unfolding put again offer_transcript
put-Same none s = ground arith
put-Same (some (decoded, text)) s = ground arith

give_up-Same :
    (held : Option (Text × Text)) (s : Stream) → Same s s.response_active s.wire (give_up held s)
unfolding give_up
give_up-Same none s = ground arith
give_up-Same (some held) s = ground arith

module _ (codecs : Codecs) where
  switch-Same :
      (k : Kind) (m : WsMessage) (s : Stream)
      → Same s (active_after k s.response_active) s.wire (switch codecs k m s)
  unfolding switch active_after again offer_transcript
  switch-Same audio_delta m s = ground arith
  switch-Same transcript_delta m s = ground arith
  switch-Same transcript_done m s = ground arith
  switch-Same content_part_done m s = ground arith
  switch-Same error m s = ground arith
  switch-Same response_created m s = ground arith
  switch-Same response_done m s = ground arith
  switch-Same other m s = ground arith

  receive-Conforms :
      (answer : Option WsMessage) (s : Stream) → Conforms s → Conforms (receive codecs answer s)
  unfolding receive
  receive-Conforms none s c = Same-Conforms s _ (ground arith) c
  receive-Conforms (some m) s c =
      let s' : Stream = record s { wire = s.wire ++ heard m ∷ [] } in
      let same = switch-Same (kind_of m.kind) m s' in
      Heard-Conforms s _ m
        (record {
          same_active = same.same_active;
          same_sender = same.same_sender;
          same_wire = same.same_wire;
          same_pending = same.same_pending;
          same_left = same.same_left;
        })
        c

  append_frame-Conforms :
      (frame : Text) (written : Bool) (s : Stream)
      → selects s ≡ true
      → Conforms s
      → Conforms (append_frame codecs frame written s)
  unfolding append_frame
  append_frame-Conforms frame true s free c =
      let (on, at) = at_select s free in
      let ws : List Wire = s.wire ++ sent (append_audio (codecs.encode frame)) ∷ [] in
      record {
        since = suc c.since;
        talk =
            subst (λ l. Talk (suc c.since) s.response_active l s.sender_on ws) (sym at)
              (subst (λ b. Talk (suc c.since) s.response_active [] b ws) (sym on)
                (appended (open-Talk s [] on at c) (codecs.encode frame)));
        counted = λ h. omega (arith, c.counted on);
      }
  append_frame-Conforms frame false s free c =
      unfold stop_sender in
      let (on, at) = at_select s free in
      record {
        since = c.since;
        talk =
            subst (λ l. Talk c.since s.response_active l false (s.wire ++ sent close_message ∷ []))
              (sym at) (finished (open-Talk s [] on at c));
        counted = λ h. cc;
      }

  step-Conforms : (s : Stream) (e : Event) → Conforms s → Conforms (step codecs s e)
  unfolding step
  step-Conforms s cancels c = Same-Conforms s _ (ground arith) c
  step-Conforms s ticks c =
      if_elim Conforms (selects s) _ s (λ free. commit-Conforms s free c) (λ off. c)
  step-Conforms s writes_on c =
      if_elim Conforms s.sender_on _ s (λ on. write_on-Conforms s.commit_left s on refl c)
        (λ off. c)
  step-Conforms s input_ends c =
      if_elim Conforms (selects s) _ s
        (λ free.
          end_input-Conforms (commit s).commit_left (commit s)
            (commit-sender_on s ∙ (at_select s free).0) refl (commit-Conforms s free c))
        (λ off. c)
  step-Conforms s (frame_in frame written) c =
      if_elim Conforms (selects s) _ s (λ free. append_frame-Conforms frame written s free c)
        (λ off. c)
  step-Conforms s sender_quits c =
      if_elim Conforms (selects s && s.ctx_done) _ s
        (λ over. let (on, at) = at_select s (both over) in stop_sender-Conforms s on at c)
        (λ going. c)
    where
      both : (selects s && s.ctx_done) ≡ true → selects s ≡ true
      both over = ground arith
  step-Conforms s (hears answer) c =
      if_elim Conforms (reading s) _ s (λ free. receive-Conforms answer s c) (λ busy. c)
  step-Conforms s delivers c = Same-Conforms s _ (put-Same s.sending s) c
  step-Conforms s receiver_quits c = Same-Conforms s _ (give_up-Same s.sending s) c
  step-Conforms s takes_audio c = Same-Conforms s _ (ground arith) c
  step-Conforms s takes_transcript c = Same-Conforms s _ (ground arith) c

  run-Conforms : (s : Stream) (es : List Event) → Conforms s → Conforms (run codecs s es)
  unfolding run
  run-Conforms s [] c = c
  run-Conforms s (e ∷ es) c = run-Conforms (step codecs s e) es (step-Conforms s e c)

  -- Whatever happens after `session.update` is written, in any order, what passes over the WebSocket
  -- keeps to the protocol: the sender decides to commit only when a frame has been appended since the
  -- last decision and no response is active at that moment; the commit and one request for a response
  -- are then written in this order, with no other message of the client between them, though messages
  -- of the service may come between; and the client writes nothing after its close message. While the
  -- sender runs, it has counted the frames since the last decision.
  pub run-Talk :
      (update : Text) (es : List Event)
      → (let s = run codecs (connected update) es in
          (n : ℕ) × Talk n s.response_active s.commit_left s.sender_on s.wire
          × (s.sender_on ≡ true → n ≡ s.pending_frames))
  run-Talk update es =
      let c = run-Conforms (connected update) es (connected-Conforms update) in
      (c.since, c.talk, c.counted)
