-- ===== src/Shared/Wire.antt =====
-- assignment2/shared.h: messages over a socket, four bytes of length and the text. `write` and
-- `read` move as many bytes as the environment decides, which a list of outcomes gives.
pub mod Delivery
use cab403work.Base.{
  ℕ, zero, suc, ◌+◌, ◌*◌, ◌-◌, ◌/◌, ◌%◌, ◌^◌, Bool, List, [], ◌∷◌, ◌++◌, ◌==◌, if◌then◌else◌, ltb,
  length, take, drop, min, Option, none, some,
}
use cab403work.Base.Text.{Bytes}

-- What a call moves: at most so many bytes, or -1.
pub data Outcome : Type 0 where
  bytes : ℕ → Outcome
  error : Outcome

-- `send_looped` has returned, has called `exit`, or waits for the next `write`; with the bytes
-- that are on their way.
pub data Sent : Type 0 where
  sent : Bytes → List Outcome → Sent
  exited : Bytes → Sent
  sending : Bytes → Sent

abbrev pub prefixed : Bytes → Sent → Sent
prefixed out (sent more os) = sent (out ++ more) os
prefixed out (exited more) = exited (out ++ more)
prefixed out (sending more) = sending (out ++ more)

-- The loop over what remains of the buffer.
unfoldable pub send_looped : Bytes → List Outcome → Sent
send_looped [] os = sent [] os
send_looped (c ∷ s) [] = sending []
send_looped (c ∷ s) (error ∷ os) = exited []
send_looped (c ∷ s) (bytes k ∷ os) = prefixed (take k (c ∷ s)) (send_looped (drop k (c ∷ s)) os)

abbrev pub then_send : Sent → (List Outcome → Sent) → Sent
then_send (sent out os) k = prefixed out (k os)
then_send (exited out) k = exited out
then_send (sending out) k = sending out

-- `htonl`: most significant byte first.
unfoldable pub network_bytes : ℕ → Bytes
network_bytes n = (n / 2 ^ 24 % 256) ∷ (n / 2 ^ 16 % 256) ∷ (n / 2 ^ 8 % 256) ∷ (n % 256) ∷ []

-- `ntohl`, of the four bytes of `nlen`.
unfoldable pub host_number : Bytes → ℕ
host_number (a ∷ b ∷ c ∷ d ∷ s) = a * 2 ^ 24 + b * 2 ^ 16 + c * 2 ^ 8 + d
host_number s = 0

-- The length is a `uint32_t`.
unfoldable pub send_message : Bytes → List Outcome → Sent
unfolding send_looped network_bytes
send_message buf os =
    then_send (send_looped (network_bytes (length buf % 2 ^ 32)) os) (send_looped buf)

-- `recv_looped` has filled the buffer, has returned -1, or waits for the next `read`; with the
-- buffer, the bytes still on their way and the outcomes to come.
pub data Received : Type 0 where
  received : Bytes → Bytes → List Outcome → Received
  dropped : Bytes → List Outcome → Received
  receiving : Received

abbrev pub after : Bytes → Received → Received
after got (received more s os) = received (got ++ more) s os
after got (dropped s os) = dropped s os
after got receiving = receiving

-- The loop with `remain` bytes to read from the stream `s`; a `read` of no byte is the end of the
-- connection.
unfoldable pub recv_looped : ℕ → Bytes → List Outcome → Received
recv_looped zero s os = received [] s os
recv_looped (suc n) s [] = receiving
recv_looped (suc n) s (error ∷ os) = dropped s os
recv_looped (suc n) s (bytes k ∷ os) =
    let got = take (min k (suc n)) s in
    let rest = after got (recv_looped (suc n - length got) (drop (length got) s) os) in
    if length got == 0 then dropped s os else rest

-- `receive_msg` has returned a buffer, or NULL, or waits, or has written outside of its buffer.
pub data Reply : Type 0 where
  message : Bytes → Bytes → List Outcome → Reply
  null : Bytes → List Outcome → Reply
  waiting : Reply
  out_of_bounds : Reply

abbrev pub to_reply : Received → Reply
to_reply (received buf s os) = message buf s os
to_reply (dropped s os) = null s os
to_reply receiving = waiting

-- What `malloc` is asked for; `len + 1` is a `uint32_t`.
unfoldable pub buffer_size : ℕ → ℕ
buffer_size len = (len + 1) % 2 ^ 32

-- The buffer, the NUL in it, and the text: `buf[len] = 0` lies outside of a buffer of no more than
-- `len` bytes. `malloc` is taken to succeed.
unfoldable pub receive_buffer : ℕ → Bytes → List Outcome → Reply
unfolding buffer_size recv_looped
receive_buffer len s os =
    let reply = to_reply (recv_looped len s os) in
    if ltb len (buffer_size len) then reply else out_of_bounds

-- Behind the first `recv_looped`, whose result is not looked at: where it failed, the length is
-- `unset`, whatever stands in the variable.
abbrev pub receive_text : ℕ → Received → Reply
receive_text unset (received nlen s os) = receive_buffer (host_number nlen) s os
receive_text unset (dropped s os) = receive_buffer unset s os
receive_text unset receiving = waiting

unfoldable pub receive_msg : ℕ → Bytes → List Outcome → Reply
unfolding recv_looped host_number receive_buffer
receive_msg unset s os = receive_text unset (recv_looped 4 s os)
