-- ===== src/Hub/Pumps/Stuck.antt =====
-- When the read pump, blocked in `dispatch`, can go on.
use talk_go.Prelude.{
  All, List, Option, [], ap, arith, false, if_elim, leb, length, ltb, nat_eq, refl, text_eq, true,
  ◌++◌, ◌∙◌, ◌∷◌, ◌≡◌, ◌≤◌,
}
use talk_go.Hub.{Frame, send_buffer_size}
use talk_go.Hub.Pumps.{
  hand_over, done, Reader, reads, sends, Writer, waits, gone, writes, Pumps, Event, comes, enqueues,
  fails, takes, notifies, wrote, pinged, read_step, enqueue, fail, notify_pumps, take_next,
  end_write, end_ping, step, run,
}

-- The reader waits to send on a full channel; the writer is at `w`.
record Held (f : Frame) (w : Writer) (p : Pumps) : Type 0 where
  at : p.reader ≡ sends f
  writer_at : p.writer ≡ w
  full : length p.send ≡ 8

-- The events that are no step of the writer.
abbrev pub Elsewhere : Event → Type 0
Elsewhere takes = ⊥
Elsewhere (wrote went_well) = ⊥
Elsewhere (pinged went_well) = ⊥
Elsewhere _ = Unit {0}

no_room : (p : Pumps) → length p.send ≡ 8 → ltb (length p.send) send_buffer_size ≡ false
no_room p full = ground arith

module _ (f : Frame) (w : Writer) (p : Pumps) (held : Held f w p) where
  read_step-Held :
      (r : Reader) (answer : Option Frame) → r ≡ sends f → Held f w (read_step r p answer)
  unfolding read_step
  read_step-Held reads answer same = absurd (ground arith)
  read_step-Held done answer same = held
  read_step-Held (sends g) answer same = held

  enqueue-Held : (r : Reader) → Held f w (enqueue r p)
  unfolding enqueue
  enqueue-Held reads = held
  enqueue-Held done = held
  enqueue-Held (sends g) = rw (no_room p held.full) held

  fail-Held : (r : Reader) → r ≡ sends f → Held f w (fail r p)
  unfolding fail
  fail-Held reads same = absurd (ground arith)
  fail-Held done same = held
  fail-Held (sends g) same = held

Elsewhere-Held :
    (f : Frame) (w : Writer) (p : Pumps) (e : Event)
    → Elsewhere e
    → Held f w p
    → Held f w (step p e)
unfolding step notify_pumps
Elsewhere-Held f w p (comes answer) h held = read_step-Held f w p held p.reader answer held.at
Elsewhere-Held f w p enqueues h held = enqueue-Held f w p held p.reader
Elsewhere-Held f w p fails h held = fail-Held f w p held p.reader held.at
Elsewhere-Held f w p (notifies g) h held =
    if_elim (Held f w) p.closed _ _
      (λ over. record { at = held.at; writer_at = held.writer_at; full = held.full })
      (λ on. rw (no_room p held.full) held)
Elsewhere-Held f w p takes h held = absurd h
Elsewhere-Held f w p (wrote went_well) h held = absurd h
Elsewhere-Held f w p (pinged went_well) h held = absurd h

run-Held :
    (f : Frame) (w : Writer) (es : List Event) (p : Pumps)
    → All Elsewhere es
    → Held f w p
    → Held f w (run p es)
unfolding run
run-Held f w [] p h held = held
run-Held f w (e ∷ es) p h held = run-Held f w es (step p e) h.1 (Elsewhere-Held f w p e h.0 held)

wrote-Held :
    (f g : Frame) (w : Writer) (p : Pumps)
    → w ≡ writes g
    → p.reader ≡ sends f
    → length p.send ≡ 8
    → Held f waits (end_write w p true)
unfolding end_write
wrote-Held f g waits p is at full = absurd (ground arith)
wrote-Held f g gone p is at full = absurd (ground arith)
wrote-Held f g (writes h) p is at full = record { at = at; writer_at = refl; full = full }

enqueue_frees :
    (r : Reader) (f : Frame) (p : Pumps)
    → r ≡ sends f
    → length p.send ≤ 7
    → (enqueue r p).reader ≡ reads
unfolding enqueue
enqueue_frees r f p at few =
    let free : ltb (length p.send) send_buffer_size ≡ true = ground arith in rw (at, free) refl

handed_over :
    (f : Frame) (w : Writer) (fs : List Frame) (p : Pumps)
    → w ≡ waits
    → p.reader ≡ sends f
    → length fs ≡ 8
    → (take_next w fs p).reader ≡ reads
unfolding take_next hand_over
handed_over f w [] p is at full = absurd (omega (arith, full))
handed_over f w (g ∷ fs) p is at full =
    let was_full : leb send_buffer_size (length (g ∷ fs)) ≡ true = ground (arith, full) in
    rw (is, was_full) (enqueue_frees p.reader f _ at (omega (arith, full)))

run-append : (es later : List Event) (p : Pumps) → run p (es ++ later) ≡ run (run p es) later
unfolding run
run-append [] later p = refl
run-append (e ∷ es) later p = run-append es later (step p e)

pub writer_frees_reader :
    (es later : List Event) (p : Pumps) (f g : Frame)
    → p.reader ≡ sends f
    → p.writer ≡ writes g
    → length p.send ≡ 8
    → All Elsewhere es
    → All Elsewhere later
    → (run p (es ++ wrote true ∷ (later ++ takes ∷ []))).reader ≡ reads
unfolding run step
writer_frees_reader es later p f g at writing full h k =
    let q = run p es in
    let held =
      run-Held f (writes g) es p h (record { at = at; writer_at = writing; full = full }) in
    let q' = end_write q.writer q true in
    let held' = wrote-Held f g q.writer q held.writer_at held.at held.full in
    let last = run-Held f waits later q' k held' in
    let r = run q' later in
    ap (λ (t : Pumps). t.reader) (run-append es (wrote true ∷ (later ++ takes ∷ [])) p)
    ∙ ap (λ (t : Pumps). t.reader) (run-append later (takes ∷ []) q')
    ∙ handed_over f r.writer r.send r last.writer_at last.at last.full

step_stuck :
    (p : Pumps) (f : Frame) (e : Event)
    → p.reader ≡ sends f
    → p.writer ≡ gone
    → length p.send ≡ 8
    → p.closed ≡ false
    → step p e ≡ p
unfolding step read_step enqueue fail notify_pumps take_next end_write end_ping
step_stuck p f (comes answer) at over full on = rw (at) refl
step_stuck p f enqueues at over full on = rw (at, no_room p full) refl
step_stuck p f fails at over full on = rw (at) refl
step_stuck p f takes at over full on = rw (over) refl
step_stuck p f (notifies g) at over full on = rw (on, no_room p full) refl
step_stuck p f (wrote went_well) at over full on = rw (over) refl
step_stuck p f (pinged went_well) at over full on = rw (over) refl

-- Once the write pump has ended, a read pump that is blocked in `dispatch` on the full channel stays
-- there: whatever comes, nothing changes any more, so that the client is never unregistered.
pub blocked_forever :
    (later : List Event) (p : Pumps) (f : Frame)
    → p.reader ≡ sends f
    → p.writer ≡ gone
    → length p.send ≡ 8
    → p.closed ≡ false
    → run p later ≡ p
unfolding run
blocked_forever [] p f at over full on = refl
blocked_forever (e ∷ es) p f at over full on =
    rw (step_stuck p f e at over full on) (blocked_forever es p f at over full on)
