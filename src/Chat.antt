-- ===== src/Chat.antt =====
-- week8/chatapp/server.c: the table of the clients of a chat server. A slot of the table is the
-- descriptor in it, 0 where it is free; the other fields of a slot are copied but never read. Each
-- loop over the table runs under the mutex and is one step; a leaving client is closed before.
pub mod Broadcast
pub mod Table
use cab403work.Base.{
  ℕ, zero, suc, Bool, true, false, not, ◌+◌, ◌-◌, List, [], ◌∷◌, ◌++◌, ◌==◌, ltb, Option, none,
  some, if◌then◌else◌,
}
use cab403work.Base.Text.{Bytes, codes}
use cab403work.Libc.{truncated, streq}

abbrev pub max_client_name : ℕ
max_client_name = 50

abbrev pub bad_name : Bytes
bad_name = codes "Username is too long"

-- The table, what has been sent to which descriptor, and the descriptors that have been closed.
pub record Server : Type 0 where
  pub slots : List ℕ
  pub sent : List (ℕ × Bytes)
  pub closed : List ℕ

-- The first free slot gets the client; a full table is left as it is.
unfoldable pub add_client : ℕ → List ℕ → List ℕ
add_client fd [] = []
add_client fd (slot ∷ slots) =
    let rest = add_client fd slots in if slot == 0 then fd ∷ slots else slot ∷ rest

-- The first slot with the descriptor is cleared.
unfoldable pub remove_client : ℕ → List ℕ → List ℕ
remove_client fd [] = []
remove_client fd (slot ∷ slots) =
    let rest = remove_client fd slots in if slot == fd then 0 ∷ slots else slot ∷ rest

-- The text of a message, in a buffer of BUFFER_SIZE + MAX_CLIENT_NAME + 50 bytes.
abbrev pub full_message : Bytes → Bytes → Bytes → Bytes
full_message time sender text = truncated 612 (time ++ codes " " ++ sender ++ codes ": " ++ text)

-- The slots behind the loop of `broadcast_msg`, where `fails` says for which descriptors `send`
-- returns -1.
unfoldable pub kept_slots : (ℕ → Bool) → List ℕ → List ℕ
kept_slots fails [] = []
kept_slots fails (slot ∷ slots) =
    let rest = kept_slots fails slots in
    if not (slot == 0) then (if fails slot then 0 ∷ rest else slot ∷ rest) else slot ∷ rest

-- The descriptors that it sends to.
unfoldable pub receivers : List ℕ → List ℕ
receivers [] = []
receivers (slot ∷ slots) =
    let rest = receivers slots in if not (slot == 0) then slot ∷ rest else rest

-- The descriptors that it closes.
unfoldable pub lost : (ℕ → Bool) → List ℕ → List ℕ
lost fails [] = []
lost fails (slot ∷ slots) =
    let rest = lost fails slots in
    if not (slot == 0) then (if fails slot then slot ∷ rest else rest) else rest

abbrev pub to_all : Bytes → List ℕ → List (ℕ × Bytes)
to_all text [] = []
to_all text (fd ∷ fds) = (fd, text) ∷ to_all text fds

unfoldable pub broadcast_msg : (ℕ → Bool) → Bytes → Server → Server
unfolding kept_slots receivers lost
broadcast_msg fails text s = record {
  slots = kept_slots fails s.slots;
  sent = s.sent ++ to_all text (receivers s.slots);
  closed = s.closed ++ lost fails s.slots;
}

-- The beginning of `handle_client`, where the first `recv` gives `num_bytes` bytes.
unfoldable pub join : ℕ → ℕ → Server → Server
unfolding add_client
join fd num_bytes s =
    if ltb (max_client_name - 1) num_bytes
    then record s { sent = s.sent ++ (fd, bad_name) ∷ []; closed = s.closed ++ fd ∷ [] }
    else record s { slots = add_client fd s.slots }

-- A round of its loop, on the text that `recv` puts into the buffer, or none where it returns no
-- more than 0; and whether the client leaves, its descriptor being closed and its slot not cleared.
unfoldable pub handle_message :
    (ℕ → Bool) → ℕ → Bytes → Bytes → Option Bytes → Server → Server × Bool
unfolding broadcast_msg
handle_message fails fd name time none s = (record s { closed = s.closed ++ fd ∷ [] }, true)
handle_message fails fd name time (some text) s =
    if streq text (codes "\\quit")
    then (record s { closed = s.closed ++ fd ∷ [] }, true)
    else (broadcast_msg fails (full_message time name text) s, false)

-- The critical section behind the loop.
unfoldable pub clear_slot : ℕ → Server → Server
unfolding remove_client
clear_slot fd s = record s { slots = remove_client fd s.slots }
