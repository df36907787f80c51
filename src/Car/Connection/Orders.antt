-- ===== src/Car/Connection/Orders.antt =====
-- How the controller's orders reach the shared memory: assignment2/car.c, `controller_connection`.
use cab403work.Base.{
  take-all, ◌+◌, ◌≡◌, ◌≢◌, refl, ◌∙◌, ◌⊎◌, inl, [], ◌∷◌, ◌++◌, arith, Option, none, some, Bool,
  true, false, if_both, ◌==◌, drop,
}
use cab403work.Base.Text.{Bytes, codes}
use cab403work.Libc.{streq_iff, starts_with, scan_word}
use cab403work.Libc.Words.{IsWord, scan_word-whole}
use cab403work.Controller.Queue.{floor_message}
use cab403work.Shared.Memory.{SharedMem, between}
use cab403work.Car.Connection.{
  Link, Polled, poll_error, poll_timeout, events, PipeRead, some_bytes, pipe_end, pipe_error,
  deliver_pending, set_pending, read_order, read_pipe, after_poll, link_round,
}

-- What a round does to the memory: at most the destination changes, to the pending one, and then
-- the car is not between two floors and is woken.
abbrev pub Delivers : Link → Link → Type 0
Delivers l l' =
    ((l'.memory ≡ l.memory) × (l'.broadcasts ≡ l.broadcasts))
    ⊎ ((l.memory.status ≢ between)
        × (l.pending ≢ [])
        × (l'.memory ≡ record l.memory { destination_floor = l.pending })
        × (l'.broadcasts ≡ l.broadcasts + 1))

-- The memory and the broadcasts are those behind the critical section.
abbrev SameMemory : Link → Link → Type 0
SameMemory l l' = (l'.memory ≡ l.memory) × (l'.broadcasts ≡ l.broadcasts)

read_order-SameMemory : (text : Bytes) (l : Link) → SameMemory l (read_order text l)
unfolding read_order
read_order-SameMemory text l =
    if_both (SameMemory l) (starts_with text (codes "FLOOR "))
      (λ _. by_word (scan_word 3 (drop 6 text))) (λ _. (refl, refl))
  where
    by_word : (o : Option (Bytes × Bytes)) → SameMemory l (set_pending o l)
    by_word none = (refl, refl)
    by_word (some (floor, rest)) = (refl, refl)

read_pipe-SameMemory :
    (o : Option PipeRead) (now : SharedMem) (l : Link) → SameMemory l (read_pipe o now l)
read_pipe-SameMemory none now l = (refl, refl)
read_pipe-SameMemory (some some_bytes) now l = (refl, refl)
read_pipe-SameMemory (some pipe_end) now l = (refl, refl)
read_pipe-SameMemory (some pipe_error) now l = (refl, refl)

after_poll-SameMemory :
    (p : Polled) (now : SharedMem) (l : Link) → SameMemory l (after_poll p now l)
after_poll-SameMemory poll_error now l = (refl, refl)
after_poll-SameMemory poll_timeout now l = (refl, refl)
after_poll-SameMemory (events none pipe) now l = read_pipe-SameMemory pipe now l
after_poll-SameMemory (events (some none) pipe) now l = (refl, refl)
after_poll-SameMemory (events (some (some text)) pipe) now l =
    let (m, b) = read_pipe-SameMemory pipe now (read_order text l) in
    let (m', b') = read_order-SameMemory text l in (m ∙ m', b ∙ b')

deliver_pending-Delivers : (l : Link) → Delivers l (deliver_pending l)
unfolding deliver_pending
deliver_pending-Delivers l =
    ground (arith, streq_iff l.pending [], streq_iff l.memory.status between)

then_same : (l m n : Link) → Delivers l m → SameMemory m n → Delivers l n
then_same l m n d s = ground arith

link_round-SameMemory :
    (p : Polled) (now : SharedMem) (l : Link)
    → SameMemory (deliver_pending l) (link_round true p now l)
unfolding link_round
link_round-SameMemory p now l =
    let l' = deliver_pending l in
    let P = SameMemory l' in
    if_both P (l'.memory.emergency_mode == 1) (λ _. (refl, refl))
      λ _.
        if_both P (l'.memory.individual_service_mode == 1) (λ _. (refl, refl))
          λ _. after_poll-SameMemory p now l'

-- Every round of the thread, whatever the monitor, `poll` and the messages are, leaves the memory
-- alone without a broadcast, or puts a pending destination into it with one broadcast, and then
-- the status is not Between.
pub link_round-Delivers :
    (alive : Bool) (p : Polled) (now : SharedMem) (l : Link) → Delivers l (link_round alive p now l)
link_round-Delivers false p now l = unfold link_round in inl (refl, refl)
link_round-Delivers true p now l =
    then_same l (deliver_pending l) (link_round true p now l) (deliver_pending-Delivers l)
      (link_round-SameMemory p now l)

deliver_pending-keeps :
    (l : Link)
    → ((deliver_pending l).memory.emergency_mode ≡ l.memory.emergency_mode)
      × ((deliver_pending l).memory.individual_service_mode ≡ l.memory.individual_service_mode)
      × ((deliver_pending l).sent ≡ l.sent)
unfolding deliver_pending
deliver_pending-keeps l = ground arith

read_order-floor :
    (floor : Bytes) (l : Link)
    → IsWord 3 floor
    → (read_order (floor_message floor) l).pending ≡ floor
unfolding read_order
read_order-floor floor l w = rw (take-all 3 floor w.2, scan_word-whole 3 floor w)

pub word-ne-nil : (floor : Bytes) → IsWord 3 floor → floor ≢ []
word-ne-nil [] w e = absurd (omega arith)
word-ne-nil (c ∷ s) w e = cc

deliver_now :
    (l : Link) (floor : Bytes)
    → l.pending ≡ floor
    → floor ≢ []
    → l.memory.status ≢ between
    → (deliver_pending l).memory ≡ record l.memory { destination_floor = floor }
unfolding deliver_pending
deliver_now l floor h n b =
    ground (arith, streq_iff l.pending [], streq_iff l.memory.status between)

link_round-delivered :
    (p : Polled) (now : SharedMem) (l : Link) (floor : Bytes)
    → l.pending ≡ floor
    → floor ≢ []
    → l.memory.status ≢ between
    → (link_round true p now l).memory ≡ record l.memory { destination_floor = floor }
link_round-delivered p now l floor h n b =
    (link_round-SameMemory p now l).0 ∙ deliver_now l floor h n b

-- While the connection is alive, a round in emergency mode sends "EMERGENCY" and ends the
-- connection, and a round in individual service mode and not in emergency mode sends "INDIVIDUAL
-- SERVICE" and ends it.
link_round-leaves :
    (p : Polled) (now : SharedMem) (l : Link)
    → ((l.memory.emergency_mode ≡ 1)
        → ((link_round true p now l).connected ≡ false)
          × ((link_round true p now l).sent ≡ l.sent ++ codes "EMERGENCY" ∷ []))
      × ((l.memory.emergency_mode ≢ 1)
          → (l.memory.individual_service_mode ≡ 1)
          → ((link_round true p now l).connected ≡ false)
            × ((link_round true p now l).sent ≡ l.sent ++ codes "INDIVIDUAL SERVICE" ∷ []))
unfolding link_round
link_round-leaves p now l = ground (arith, deliver_pending-keeps l)

pending_order :
    (floor : Bytes) (now : SharedMem) (l : Link)
    → IsWord 3 floor
    → l.memory.emergency_mode ≢ 1
    → l.memory.individual_service_mode ≢ 1
    → (link_round true (events (some (some (floor_message floor))) none) now l).pending ≡ floor
unfolding link_round
pending_order floor now l w e i =
    let kept = deliver_pending-keeps l in
    let calm : (deliver_pending l).memory.emergency_mode == 1 ≡ false = ground (arith, kept) in
    let normal : (deliver_pending l).memory.individual_service_mode == 1 ≡ false =
      ground (arith, kept) in
    rw (calm, normal) (read_order-floor floor (deliver_pending l) w)

-- While the connection is alive and the car is in neither mode: after a round that reads the order
-- for a floor, a word of at most three bytes, the next round on any memory whose status is not
-- Between puts the floor into it as the destination.
pub order_arrives :
    (floor : Bytes) (now now' m : SharedMem) (p : Polled) (l : Link)
    → IsWord 3 floor
    → l.memory.emergency_mode ≢ 1
    → l.memory.individual_service_mode ≢ 1
    → m.status ≢ between
    → let l' = link_round true (events (some (some (floor_message floor))) none) now l in
      (link_round true p now' (record l' { memory = m })).memory
      ≡ record m { destination_floor = floor }
order_arrives floor now now' m p l w e i b =
    let l' = link_round true (events (some (some (floor_message floor))) none) now l in
    link_round-delivered p now' (record l' { memory = m }) floor (pending_order floor now l w e i)
      (word-ne-nil floor w) b
