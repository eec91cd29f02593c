-- ===== src/Hub/Pumps/InOrder.antt =====
-- What is on the socket is what was put in the channel.
use talk_go.Prelude.{
  Bool, List, Option, [], append-nil, append_assoc, arith, false, if_elim, leb, length,
  length-append, ltb, nat_eq, none, refl, some, subst, text_eq, true, ◌++◌, ◌∷◌, ◌≡◌, ◌≤◌,
}
use talk_go.Hub.{Frame, send_buffer_size}
use talk_go.Hub.Pumps.{
  hand_over, Reader, reads, done, sends, Writer, waits, gone, writes, Pumps, new_pumps, Event,
  comes, enqueues, fails, takes, notifies, wrote, pinged, accept, read_step, enqueue, fail,
  notify_pumps, take_next, end_write, end_ping, step, run,
}

-- The frame that is being written.
abbrev pub in_hand : Writer → List Frame
in_hand waits = []
in_hand gone = []
in_hand (writes f) = f ∷ []

-- A frame is lost only if the writer ends with it.
abbrev pub Intact : Writer → List Frame → Type 0
Intact waits lost = lost ≡ []
Intact gone lost = length lost ≤ 1
Intact (writes f) lost = lost ≡ []

pub record Ordered (p : Pumps) : Type 0 where
  pub flow : ((p.written ++ p.lost) ++ in_hand p.writer) ++ p.send ≡ p.accepted
  pub intact : Intact p.writer p.lost
  pub room : length p.send ≤ 8

accept-Ordered :
    (p : Pumps) (f : Frame)
    → ltb (length p.send) send_buffer_size ≡ true
    → Ordered p
    → Ordered (accept p f)
unfolding accept
accept-Ordered p f free o = record {
  flow = rw (← o.flow) (simp append_assoc);
  intact = o.intact;
  room = ground (arith, length-append p.send (f ∷ []));
}

read_step-Ordered :
    (r : Reader) (p : Pumps) (answer : Option Frame) → Ordered p → Ordered (read_step r p answer)
unfolding read_step
read_step-Ordered reads p none o = o
read_step-Ordered reads p (some f) o = record { flow = o.flow; intact = o.intact; room = o.room }
read_step-Ordered done p answer o = o
read_step-Ordered (sends f) p answer o = o

enqueue-Ordered : (r : Reader) (p : Pumps) → Ordered p → Ordered (enqueue r p)
unfolding enqueue
enqueue-Ordered reads p o = o
enqueue-Ordered done p o = o
enqueue-Ordered (sends f) p o =
    if_elim Ordered (ltb (length p.send) send_buffer_size) _ p
      (λ free.
        let a = accept-Ordered p f free o in
        record { flow = a.flow; intact = a.intact; room = a.room })
      (λ full. o)

fail-Ordered : (r : Reader) (p : Pumps) → Ordered p → Ordered (fail r p)
unfolding fail
fail-Ordered reads p o = record { flow = o.flow; intact = o.intact; room = o.room }
fail-Ordered done p o = o
fail-Ordered (sends f) p o = o

notify_pumps-Ordered : (p : Pumps) (f : Frame) → Ordered p → Ordered (notify_pumps p f)
unfolding notify_pumps
notify_pumps-Ordered p f o =
    if_elim Ordered p.closed _ _
      (λ over. record { flow = o.flow; intact = o.intact; room = o.room })
      λ on.
        if_elim Ordered (ltb (length p.send) send_buffer_size) (accept p f) p
          (λ free. accept-Ordered p f free o) (λ full. o)

hand_over-Ordered : (was_full : Bool) (p : Pumps) → Ordered p → Ordered (hand_over was_full p)
unfolding hand_over
hand_over-Ordered true p o = enqueue-Ordered p.reader p o
hand_over-Ordered false p o = o

take_next-Ordered :
    (w : Writer) (fs : List Frame) (p : Pumps)
    → p.writer ≡ w
    → p.send ≡ fs
    → Ordered p
    → Ordered (take_next w fs p)
unfolding take_next
take_next-Ordered waits [] p at empty o =
    let kept : p.lost ≡ [] = subst (λ w. Intact w p.lost) at o.intact in
    if_elim Ordered p.closed _ p
      (λ over. record {
        flow = subst (λ w. ((p.written ++ p.lost) ++ in_hand w) ++ p.send ≡ p.accepted) at o.flow;
        intact = rw (kept) (omega arith);
        room = o.room;
      })
      (λ on. o)
take_next-Ordered waits (f ∷ fs) p at next o =
    let flow : ((p.written ++ p.lost) ++ []) ++ p.send ≡ p.accepted =
      subst (λ w. ((p.written ++ p.lost) ++ in_hand w) ++ p.send ≡ p.accepted) at o.flow in
    let room : length (f ∷ fs) ≤ 8 = subst (λ fs. length fs ≤ 8) next o.room in
    let taken : Pumps = record p { writer = writes f; send = fs } in
    let o' : Ordered taken = record {
      flow = rw (← flow, next) (simp (append_assoc, append-nil));
      intact = subst (λ w. Intact w p.lost) at o.intact;
      room = omega (arith, room);
    } in
    hand_over-Ordered (leb send_buffer_size (length (f ∷ fs))) taken o'
take_next-Ordered gone fs p at next o = o
take_next-Ordered (writes g) fs p at next o = o

end_write-Ordered :
    (w : Writer) (p : Pumps) (went_well : Bool)
    → p.writer ≡ w
    → Ordered p
    → Ordered (end_write w p went_well)
unfolding end_write
end_write-Ordered waits p went_well at o = o
end_write-Ordered gone p went_well at o = o
end_write-Ordered (writes f) p true at o =
    let kept : p.lost ≡ [] = subst (λ w. Intact w p.lost) at o.intact in
    let flow : ((p.written ++ p.lost) ++ f ∷ []) ++ p.send ≡ p.accepted =
      subst (λ w. ((p.written ++ p.lost) ++ in_hand w) ++ p.send ≡ p.accepted) at o.flow in
    record {
      flow = rw (← flow, kept) (simp (append_assoc, append-nil));
      intact = kept;
      room = o.room;
    }
end_write-Ordered (writes f) p false at o =
    let kept : p.lost ≡ [] = subst (λ w. Intact w p.lost) at o.intact in
    let flow : ((p.written ++ p.lost) ++ f ∷ []) ++ p.send ≡ p.accepted =
      subst (λ w. ((p.written ++ p.lost) ++ in_hand w) ++ p.send ≡ p.accepted) at o.flow in
    record {
      flow = rw (← flow) (simp (append_assoc, append-nil));
      intact = rw (kept) (omega arith);
      room = o.room;
    }

end_ping-Ordered :
    (w : Writer) (p : Pumps) (went_well : Bool)
    → p.writer ≡ w
    → Ordered p
    → Ordered (end_ping w p went_well)
unfolding end_ping
end_ping-Ordered waits p true at o = o
end_ping-Ordered waits p false at o =
    let kept : p.lost ≡ [] = subst (λ w. Intact w p.lost) at o.intact in
    record {
      flow = subst (λ w. ((p.written ++ p.lost) ++ in_hand w) ++ p.send ≡ p.accepted) at o.flow;
      intact = rw (kept) (omega arith);
      room = o.room;
    }
end_ping-Ordered gone p went_well at o = o
end_ping-Ordered (writes f) p went_well at o = o

step-Ordered : (p : Pumps) (e : Event) → Ordered p → Ordered (step p e)
unfolding step
step-Ordered p (comes answer) o = read_step-Ordered p.reader p answer o
step-Ordered p enqueues o = enqueue-Ordered p.reader p o
step-Ordered p fails o = fail-Ordered p.reader p o
step-Ordered p takes o = take_next-Ordered p.writer p.send p refl refl o
step-Ordered p (notifies f) o = notify_pumps-Ordered p f o
step-Ordered p (wrote went_well) o = end_write-Ordered p.writer p went_well refl o
step-Ordered p (pinged went_well) o = end_ping-Ordered p.writer p went_well refl o

from-Ordered : (es : List Event) (p : Pumps) → Ordered p → Ordered (run p es)
unfolding run
from-Ordered [] p o = o
from-Ordered (e ∷ es) p o = from-Ordered es (step p e) (step-Ordered p e o)

-- In any order of the pumps' steps: the frames written, then the one whose write failed, the one
-- that is being written, and those that wait, are the frames that were put in the channel, in order.
-- At most one is lost, and none while the write pump runs; at most eight wait.
pub frames_in_order : (es : List Event) → Ordered (run new_pumps es)
frames_in_order es =
    from-Ordered es new_pumps (record { flow = refl; intact = refl; room = omega arith })
