-- ===== src/Shared/Wire/Delivery.antt =====
-- Messages arrive whole, however `write` and `read` split them: assignment2/shared.h,
-- `send_message` and `receive_msg`.
use cab403work.Base.{
  ℕ, zero, suc, ◌+◌, ◌-◌, ◌%◌, ◌^◌, ◌≤◌, ◌<◌, ◌≡◌, refl, ap, ◌∙◌, ltb, true, false, List, [], ◌∷◌,
  ◌++◌, ◌==◌, length, length-append, length-take, length-drop, take-append-drop, take, drop, min,
  arith,
}
use cab403work.Base.Text.{Bytes, All}
use cab403work.Shared.Wire.{
  Outcome, bytes, error, sent, send_looped, then_send, network_bytes, host_number, send_message,
  received, recv_looped, message, buffer_size, receive_buffer, receive_msg,
}

-- The call moves at least one byte.
abbrev pub Moves : Outcome → Type 0
Moves (bytes k) = 0 < k
Moves error = ⊥

-- What is left of the outcomes when `n` bytes have been moved.
record Spent (os : List Outcome) (n : ℕ) (os' : List Outcome) : Type 0 where
  moves : All Moves os'
  few : length os ≤ length os' + n

-- Where every `write` takes a byte or more, and there are as many as bytes, all bytes are sent.
send_looped_total :
    (s : Bytes) (os : List Outcome)
    → All Moves os
    → length s ≤ length os
    → (os' : List Outcome) × (send_looped s os ≡ sent s os') × Spent os (length s) os'
unfolding send_looped
send_looped_total [] os h l = (os, refl, record { moves = h; few = omega arith })
send_looped_total (c ∷ s) [] h l = absurd (omega arith)
send_looped_total (c ∷ s) (error ∷ os) h l = elim h.0 [ ]
send_looped_total (c ∷ s) (bytes k ∷ os) h l =
    let shorter = length-drop k (c ∷ s) in
    let (os', run, spent) =
      send_looped_total (drop k (c ∷ s)) os h.1 (omega (arith, shorter, h.0)) in
    (
      os',
      rw run (ap (λ t. sent t os') (take-append-drop k (c ∷ s))),
      record { moves = spent.moves; few = omega (arith, shorter, h.0, spent.few) },
    )

positive : (n : ℕ) → 0 < n → n == 0 ≡ false
positive n h = ground arith

take-nil : (n : ℕ) → take {A = ℕ} n [] ≡ []
take-nil zero = refl
take-nil (suc n) = refl

drop-nil : (n : ℕ) → drop {A = ℕ} n [] ≡ []
drop-nil zero = refl
drop-nil (suc n) = refl

suc_add : (i j : ℕ) → suc i + j ≡ suc (i + j)
suc_add i j = omega arith

take-add : (i j : ℕ) (s : Bytes) → take i s ++ take j (drop i s) ≡ take (i + j) s
take-add zero j s = ap (λ k. take k s) (omega arith)
take-add (suc i) j [] = rw (take-nil j, take-nil (suc i + j))
take-add (suc i) j (c ∷ s) = rw (suc_add i j, take-add i j s)

drop-add : (i j : ℕ) (s : Bytes) → drop j (drop i s) ≡ drop (i + j) s
drop-add zero j s = ap (λ k. drop k s) (omega arith)
drop-add (suc i) j [] = rw (drop-nil j, drop-nil (suc i + j))
drop-add (suc i) j (c ∷ s) = rw (suc_add i j, drop-add i j s)

-- One `read`, and the loop behind it.
recv_step :
    (n k : ℕ) (s : Bytes) (os os' : List Outcome)
    → 0 < k
    → suc n ≤ length s
    → let j = min k (suc n) in
      recv_looped (suc n - j) (drop j s) os
        ≡ received (take (suc n - j) (drop j s)) (drop (suc n - j) (drop j s)) os'
      → recv_looped (suc n) s (bytes k ∷ os) ≡ received (take (suc n) s) (drop (suc n) s) os'
unfolding recv_looped
recv_step n k s os os' pos enough run =
    let j = min k (suc n) in
    let size = length-take j s in
    let moved : length (take j s) ≡ j = omega (arith, size) in
    let whole : j + (suc n - j) ≡ suc n = omega arith in
    rw (
      moved,
      positive j (omega arith),
      run,
      take-add j (suc n - j) s,
      drop-add j (suc n - j) s,
      whole,
    )

-- Where the bytes are there and every `read` takes one or more, the buffer is filled with them.
-- The loop of `read`s with `rounds` outcomes to come.
recv_looped_total :
    (n : ℕ) (s : Bytes) (os : List Outcome)
    → All Moves os
    → n ≤ length s
    → n ≤ length os
    → (os' : List Outcome) × (recv_looped n s os ≡ received (take n s) (drop n s) os')
      × Spent os n os'
unfolding recv_looped
recv_looped_total zero s os h l m = (os, refl, record { moves = h; few = omega arith })
recv_looped_total (suc n) s [] h l m = absurd (omega arith)
recv_looped_total (suc n) s (error ∷ os) h l m = elim h.0 [ ]
recv_looped_total (suc n) s (bytes k ∷ os) h l m =
    let (os', run, spent) =
      recv_looped_total (suc n - min k (suc n)) (drop (min k (suc n)) s) os h.1
        (omega (arith, length-drop (min k (suc n)) s)) (omega (arith, h.0)) in
    (
      os',
      recv_step n k s os os' h.0 l run,
      record { moves = spent.moves; few = omega (arith, h.0, spent.few) },
    )

take-append : (s t : Bytes) → take (length s) (s ++ t) ≡ s
take-append [] t = refl
take-append (c ∷ s) t = ap (λ r. c ∷ r) (take-append s t)

drop-append : (s t : Bytes) → drop (length s) (s ++ t) ≡ t
drop-append [] t = refl
drop-append (c ∷ s) t = drop-append s t

host_number-network_bytes : (n : ℕ) → n < 2 ^ 32 → host_number (network_bytes n) ≡ n
unfolding host_number network_bytes
host_number-network_bytes n h = omega arith

send_both :
    (a b : Bytes) (os os₁ os₂ : List Outcome)
    → send_looped a os ≡ sent a os₁
    → send_looped b os₁ ≡ sent b os₂
    → then_send (send_looped a os) (send_looped b) ≡ sent (a ++ b) os₂
send_both a b os os₁ os₂ first second = rw (first, second)

send_message_total :
    (text : Bytes) (os : List Outcome)
    → length text < 2 ^ 32
    → All Moves os
    → length text + 4 ≤ length os
    → (os' : List Outcome) × (send_message text os ≡ sent (network_bytes (length text) ++ text) os')
unfolding send_message network_bytes
send_message_total text os h m p =
    let size : length text % 2 ^ 32 ≡ length text = omega arith in
    let (os₁, first, spent) = send_looped_total (network_bytes (length text)) os m (omega arith) in
    let (os₂, second, _) = send_looped_total text os₁ spent.moves (omega (arith, spent.few)) in
    (
      os₂,
      ap (λ n. then_send (send_looped (network_bytes n) os) (send_looped text)) size
          ∙ send_both (network_bytes (length text)) text os os₁ os₂ first second,
    )

receive_msg_total :
    (unset : ℕ) (text later : Bytes) (us : List Outcome)
    → length text + 1 < 2 ^ 32
    → All Moves us
    → length text + 4 ≤ length us
    → (us' : List Outcome) × (receive_msg unset ((network_bytes (length text) ++ text) ++ later) us
        ≡ message text later us')
unfolding receive_msg receive_buffer buffer_size network_bytes
receive_msg_total unset text later us h m p =
    let room : ltb (length text) ((length text + 1) % 2 ^ 32) ≡ true = ground arith in
    let (us₁, first, spent) =
      recv_looped_total 4 ((network_bytes (length text) ++ text) ++ later) us m
        (omega (arith, length-append text later)) (omega arith) in
    let (us₂, second, _) =
      recv_looped_total (length text) (text ++ later) us₁ spent.moves
        (omega (arith, length-append text later)) (omega (arith, spent.few)) in
    (
      us₂,
      rw (
        first,
        host_number-network_bytes (length text) (omega arith),
        room,
        second,
        take-append,
        drop-append,
      ),
    )

-- A text of less than 2^32 - 1 bytes that is sent is received whole, and the bytes that follow on the
-- stream stay there, whatever `write` and `read` move at a time, as long as each call moves a byte
-- and there are as many calls as bytes.
pub receive_msg-send_message :
    (unset : ℕ) (text later : Bytes) (os us : List Outcome)
    → length text + 1 < 2 ^ 32
    → All Moves os
    → All Moves us
    → length text + 4 ≤ length os
    → length text + 4 ≤ length us
    → (out : Bytes) × (os' : List Outcome) × (us' : List Outcome) × (send_message text os
        ≡ sent out os')
      × (receive_msg unset (out ++ later) us ≡ message text later us')
receive_msg-send_message unset text later os us h m n p q =
    let (os', go) = send_message_total text os (omega arith) m p in
    let (us', come) = receive_msg_total unset text later us h n q in
    (network_bytes (length text) ++ text, os', us', go, come)
