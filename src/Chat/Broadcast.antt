-- ===== src/Chat/Broadcast.antt =====
-- The chat server of week8/chatapp/server.c: who is in the table, and who gets a message.
use cab403work.Base.{
  ℕ, zero, suc, ◌+◌, ◌≡◌, ◌≢◌, Bool, true, false, List, [], ◌∷◌, ◌++◌, ◌≤◌, Option, if◌then◌else◌,
}
use cab403work.Base.Text.{Bytes}
use cab403work.Chat.{Server, to_all, join, handle_message, clear_slot}
use cab403work.Chat.Table.{present, count}

-- The server, the clients that are closed and whose slots are not cleared yet, and the descriptors
-- that a new client got while they stood in the table.
pub record Program : Type 0 where
  pub server : Server
  pub leaving : List ℕ
  pub reused : List ℕ

-- The client goes on behind a round of its loop, or leaves.
abbrev pub behind_round : ℕ → Server × Bool → Program → Program
behind_round fd (s, true) p = record p { server = s; leaving = p.leaving ++ fd ∷ [] }
behind_round fd (s, false) p = record p { server = s }

-- A step of a client's thread: the start, which can come with the descriptor of any client that was
-- closed; a round of the loop, up to its critical section; and the one behind the loop.
pub data Step (p : Program) : Program → Type 0 where
  joins :
      (fd num_bytes : ℕ)
      → fd ≢ 0
      → Step p (record p {
        server = join fd num_bytes p.server;
        reused = if present fd p.server.slots then fd ∷ p.reused else p.reused;
      })
  handles :
      (fails : ℕ → Bool) (fd : ℕ) (name time : Bytes) (received : Option Bytes)
      → fd ≢ 0
      → Step p (behind_round fd (handle_message fails fd name time received p.server) p)
  leaves :
      (before behind : List ℕ) (fd : ℕ)
      → p.leaving ≡ before ++ fd ∷ behind
      → Step p (record p { server = clear_slot fd p.server; leaving = before ++ behind })

pub data Reach (p : Program) : Program → Type 0 where
  here : Reach p p
  later : {p' p'' : Program} → Reach p p' → Step p' p'' → Reach p p''

-- A descriptor stands in one slot, or in as many more as it was given out again too early.
abbrev Bounded : ℕ → Program → Type 0
Bounded fd p = count fd p.server.slots ≤ 1 + count fd p.reused

-- `memset` of the table.
abbrev pub no_clients : ℕ → List ℕ
no_clients zero = []
no_clients (suc n) = 0 ∷ no_clients n

abbrev pub started_server : Server
started_server = record { slots = no_clients 50; sent = []; closed = [] }

abbrev pub started_program : Program
started_program = record { server = started_server; leaving = []; reused = [] }

-- What a message to all does to a descriptor, which was given out too early so many times.
pub record Delivers (fails : ℕ → Bool) (text : Bytes) (fd reused : ℕ) (s s' : Server) : Type 0 where
  pub sent :
      (fds : List ℕ) × (s'.sent ≡ s.sent ++ to_all text fds) × (count fd fds ≡ count fd s.slots)
  pub once : count fd s.slots ≤ 1 + reused
  pub keeps : count fd s'.slots ≡ (if fails fd then 0 else count fd s.slots)
