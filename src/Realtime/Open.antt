-- ===== src/Realtime/Open.antt =====
-- What the end of the audio, or of the context, does not end.
use talk_go.Realtime.Said.{client-heard, client, client-sent}
use talk_go.Prelude.{
  All, List, Option, Text, [], ap, arith, false, if_elim, nat_eq, none, refl, some, subst, sym,
  text_eq, true, ◌&&◌, ◌++◌, ◌==◌, ◌||◌, ◌∙◌, ◌∷◌, ◌≡◌,
}
use talk_go.Realtime.Receiver.{
  audio_delta, transcript_delta, transcript_done, content_part_done, error, response_created,
  response_done, other, kind_of, Kind, WsMessage, Codecs,
}
use talk_go.Realtime.Ear.{BySender, sender_step-SameEar}
use talk_go.Realtime.{
  end_input, selects, cancels, ticks, writes_on, input_ends, sender_quits, receiver_quits, delivers,
  takes_audio, takes_transcript, frame_in, step, run, reading, hears, Stream, Event, put, give_up,
  switch, receive, commit, stop_sender, again, heard, offer_transcript, close_message,
}

-- Nothing is read from the service.
abbrev pub NothingHeard : Event → Type 0
NothingHeard (hears answer) = ⊥
NothingHeard _ = Unit {0}

-- A receiver that waits for the service, `s.sending` being `none`.
abbrev Waits : Stream → Type 0
Waits s = (s.receiver_on ≡ true) × (s.sending ≡ none)

put_nothing :
    (held : Option (Text × Text)) (s : Stream) → s.sending ≡ held → Waits s → Waits (put held s)
unfolding put
put_nothing none s e w = w
put_nothing (some held) s e w = absurd (ground arith)

give_nothing_up :
    (held : Option (Text × Text)) (s : Stream) → s.sending ≡ held → Waits s → Waits (give_up held s)
unfolding give_up
give_nothing_up none s e w = w
give_nothing_up (some held) s e w = absurd (ground arith)

-- The client is silent from `s` to `s'`.
record Mute (s s' : Stream) : Type 0 where
  same_sender : s'.sender_on ≡ s.sender_on
  same_pending : s'.pending_frames ≡ s.pending_frames
  same_client : client s'.wire ≡ client s.wire

put-Mute : (held : Option (Text × Text)) (s : Stream) → Mute s (put held s)
unfolding put again offer_transcript
put-Mute none s = ground arith
put-Mute (some (decoded, text)) s = ground arith

give_up-Mute : (held : Option (Text × Text)) (s : Stream) → Mute s (give_up held s)
unfolding give_up
give_up-Mute none s = ground arith
give_up-Mute (some held) s = ground arith

Mute-refl : (s : Stream) → Mute s s
Mute-refl s = ground arith

module _ (codecs : Codecs) where
  switch-Mute : (k : Kind) (m : WsMessage) (s : Stream) → Mute s (switch codecs k m s)
  unfolding switch again offer_transcript
  switch-Mute audio_delta m s = ground arith
  switch-Mute transcript_delta m s = ground arith
  switch-Mute transcript_done m s = ground arith
  switch-Mute content_part_done m s = ground arith
  switch-Mute error m s = ground arith
  switch-Mute response_created m s = ground arith
  switch-Mute response_done m s = ground arith
  switch-Mute other m s = ground arith

  receive-Mute : (answer : Option WsMessage) (s : Stream) → Mute s (receive codecs answer s)
  unfolding receive
  receive-Mute none s = ground arith
  receive-Mute (some m) s =
      let now = switch-Mute (kind_of m.kind) m (record s { wire = s.wire ++ heard m ∷ [] }) in
      record {
        same_sender = now.same_sender;
        same_pending = now.same_pending;
        same_client = now.same_client ∙ client-heard s.wire m;
      }

  -- A sender that is gone says nothing.
  off-Mute : (s : Stream) (e : Event) → s.sender_on ≡ false → Mute s (step codecs s e)
  unfolding step
  off-Mute s cancels off = ground arith
  off-Mute s ticks off =
      if_elim (Mute s) (selects s) _ s (λ on. absurd (ground arith)) (λ _. Mute-refl s)
  off-Mute s writes_on off =
      if_elim (Mute s) s.sender_on _ s (λ on. absurd (ground arith)) (λ _. Mute-refl s)
  off-Mute s input_ends off =
      if_elim (Mute s) (selects s) _ s (λ on. absurd (ground arith)) (λ _. Mute-refl s)
  off-Mute s (frame_in frame written) off =
      if_elim (Mute s) (selects s) _ s (λ on. absurd (ground arith)) (λ _. Mute-refl s)
  off-Mute s sender_quits off =
      if_elim (Mute s) (selects s && s.ctx_done) _ s (λ on. absurd (ground arith))
        (λ _. Mute-refl s)
  off-Mute s (hears answer) off =
      if_elim (Mute s) (reading s) _ s (λ free. receive-Mute answer s) (λ busy. Mute-refl s)
  off-Mute s delivers off = put-Mute s.sending s
  off-Mute s receiver_quits off = give_up-Mute s.sending s
  off-Mute s takes_audio off = ground arith
  off-Mute s takes_transcript off = ground arith

  gone-Mute : (s : Stream) (es : List Event) → s.sender_on ≡ false → Mute s (run codecs s es)
  unfolding run
  gone-Mute s [] off = Mute-refl s
  gone-Mute s (e ∷ es) off =
      let now = off-Mute s e off in
      let later = gone-Mute (step codecs s e) es (now.same_sender ∙ off) in
      record {
        same_sender = later.same_sender ∙ now.same_sender;
        same_pending = later.same_pending ∙ now.same_pending;
        same_client = later.same_client ∙ now.same_client;
      }

  spoken : (s : Stream) (e : Event) → BySender e → Waits s → Waits (step codecs s e)
  spoken s e h w =
      let same = sender_step-SameEar codecs s e h in
      (same.same_receiver ∙ w.0, same.same_sending ∙ w.1)

  silent_step : (s : Stream) (e : Event) → NothingHeard e → Waits s → Waits (step codecs s e)
  unfolding step
  silent_step s cancels q w = w
  silent_step s ticks q w = spoken s ticks tt w
  silent_step s input_ends q w = spoken s input_ends tt w
  silent_step s writes_on q w = spoken s writes_on tt w
  silent_step s (frame_in frame written) q w = spoken s (frame_in frame written) tt w
  silent_step s sender_quits q w = spoken s sender_quits tt w
  silent_step s (hears answer) q w = absurd q
  silent_step s delivers q w = put_nothing s.sending s refl w
  silent_step s receiver_quits q w = give_nothing_up s.sending s refl w
  silent_step s takes_audio q w = w
  silent_step s takes_transcript q w = w

  -- However the input ends or the context is cancelled: as long as nothing can be read from the
  -- service, not even an error, a receiver that waits for it goes on waiting, so the channels stay
  -- open.
  pub silent_open :
      (s : Stream) (es : List Event)
      → s.receiver_on ≡ true
      → s.sending ≡ none
      → All NothingHeard es
      → (run codecs s es).receiver_on ≡ true
  unfolding run
  silent_open s [] on free q = on
  silent_open s (e ∷ es) on free q =
      let w = silent_step s e q.0 (on, free) in silent_open (step codecs s e) es w.0 w.1 q.1

  -- The sender waits in its `select`, and the input ends while a response is active: the frames since
  -- the last commit are not committed, then or later. The client's last message is the close message.
  pub input_ends-uncommitted :
      (s : Stream) (es : List Event)
      → s.sender_on ≡ true
      → s.commit_left ≡ []
      → s.response_active ≡ true
      → (let after = run codecs s (input_ends ∷ es) in
          after.pending_frames ≡ s.pending_frames
          × client after.wire ≡ client s.wire ++ close_message ∷ [])
  unfolding run step commit stop_sender end_input
  input_ends-uncommitted s es on free active =
      let ended : Stream = stop_sender s in
      let busy : commit s ≡ s =
        if_elim (λ t. t ≡ s) (s.pending_frames == 0 || s.response_active) s _ (λ stays. refl)
          (λ goes. absurd (ground arith)) in
      let stopped : end_input s.commit_left s ≡ ended = rw (free, end_input) refl in
      let now : step codecs s input_ends ≡ ended =
        if_elim (λ t. t ≡ ended) (selects s) _ s
          (λ h. ap (λ t. end_input t.commit_left t) busy ∙ stopped) (λ h. absurd (ground arith)) in
      let later = gone-Mute ended es refl in
      subst
        (λ t.
          (run codecs t es).pending_frames ≡ s.pending_frames
          × client (run codecs t es).wire ≡ client s.wire ++ close_message ∷ [])
        (sym now) (later.same_pending, later.same_client ∙ client-sent s.wire close_message)
