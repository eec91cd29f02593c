-- ===== src/Realtime/Ear.antt =====
-- The sender leaves the receiver and its channels alone.
use talk_go.Realtime.Said.{messages-sent, messages}
use talk_go.Prelude.{
  Bool, List, Text, [], arith, false, if_elim, nat_eq, text_eq, true, ◌&&◌, ◌++◌, ◌∷◌, ◌≡◌,
}
use talk_go.Realtime.Receiver.{Codecs}
use talk_go.Realtime.{
  Outgoing, end_input, write_on, selects, writes_on, sent, cancels, receiver_quits, delivers,
  takes_audio, takes_transcript, hears, ticks, input_ends, sender_quits, frame_in, Stream,
  stop_sender, commit, step, Event, append_frame, append_audio, close_message,
}

-- `s'` has the same receiver and channels as `s`.
pub record SameEar (s s' : Stream) : Type 0 where
  pub same_ctx : s'.ctx_done ≡ s.ctx_done
  pub same_receiver : s'.receiver_on ≡ s.receiver_on
  pub same_buf : s'.transcript_buf ≡ s.transcript_buf
  pub same_sending : s'.sending ≡ s.sending
  pub same_audio : s'.audio_ch ≡ s.audio_ch
  pub same_transcripts : s'.transcript_ch ≡ s.transcript_ch
  pub same_taken : s'.taken_audio ≡ s.taken_audio
  pub same_read : s'.taken_transcripts ≡ s.taken_transcripts
  pub same_messages : messages s'.wire ≡ messages s.wire

commit-SameEar : (s : Stream) → SameEar s (commit s)
unfolding commit
commit-SameEar s = ground arith

stop_sender-SameEar : (s : Stream) → SameEar s (stop_sender s)
unfolding stop_sender
stop_sender-SameEar s = ground (arith, messages-sent s.wire close_message)

end_input-SameEar : (left : List Outgoing) (s : Stream) → SameEar s (end_input left s)
unfolding end_input
end_input-SameEar [] s = stop_sender-SameEar s
end_input-SameEar (o ∷ left) s = ground arith

write_on-SameEar : (left : List Outgoing) (s : Stream) → SameEar s (write_on left s)
unfolding write_on stop_sender
write_on-SameEar [] s = ground arith
write_on-SameEar (o ∷ []) s =
    ground (arith, messages-sent s.wire o, messages-sent (s.wire ++ sent o ∷ []) close_message)
write_on-SameEar (o ∷ p ∷ ps) s = ground (arith, messages-sent s.wire o)

SameEar-refl : (s : Stream) → SameEar s s
SameEar-refl s = ground arith

SameEar-trans : (s t u : Stream) → SameEar s t → SameEar t u → SameEar s u
SameEar-trans s t u p q = ground arith

append_frame-SameEar :
    (codecs : Codecs) (frame : Text) (written : Bool) (s : Stream)
    → SameEar s (append_frame codecs frame written s)
unfolding append_frame stop_sender
append_frame-SameEar codecs frame true s =
    ground (arith, messages-sent s.wire (append_audio (codecs.encode frame)))
append_frame-SameEar codecs frame false s = ground (arith, messages-sent s.wire close_message)

-- The events of the sender.
abbrev pub BySender : Event → Type 0
BySender ticks = Unit {0}
BySender input_ends = Unit {0}
BySender writes_on = Unit {0}
BySender (frame_in frame written) = Unit {0}
BySender sender_quits = Unit {0}
BySender _ = ⊥

pub sender_step-SameEar :
    (codecs : Codecs) (s : Stream) (e : Event) → BySender e → SameEar s (step codecs s e)
unfolding step
sender_step-SameEar codecs s ticks h =
    if_elim (SameEar s) (selects s) _ s (λ on. commit-SameEar s) (λ off. SameEar-refl s)
sender_step-SameEar codecs s input_ends h =
    if_elim (SameEar s) (selects s) _ s
      (λ on.
        SameEar-trans s (commit s) _ (commit-SameEar s)
          (end_input-SameEar (commit s).commit_left (commit s)))
      (λ off. SameEar-refl s)
sender_step-SameEar codecs s writes_on h =
    if_elim (SameEar s) s.sender_on _ s (λ on. write_on-SameEar s.commit_left s)
      (λ off. SameEar-refl s)
sender_step-SameEar codecs s (frame_in frame written) h =
    if_elim (SameEar s) (selects s) _ s (λ on. append_frame-SameEar codecs frame written s)
      (λ off. SameEar-refl s)
sender_step-SameEar codecs s sender_quits h =
    if_elim (SameEar s) (selects s && s.ctx_done) _ s (λ over. stop_sender-SameEar s)
      (λ going. SameEar-refl s)
sender_step-SameEar codecs s cancels h = absurd h
sender_step-SameEar codecs s receiver_quits h = absurd h
sender_step-SameEar codecs s delivers h = absurd h
sender_step-SameEar codecs s takes_audio h = absurd h
sender_step-SameEar codecs s takes_transcript h = absurd h
sender_step-SameEar codecs s (hears answer) h = absurd h
