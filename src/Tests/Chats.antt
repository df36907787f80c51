-- ===== src/Tests/Chats.antt =====
-- week8/chatapp/server.c with a client at the descriptor 4, which leaves while another one comes.
use cab403work.Base.{false, none, [], ◌∷◌}
use cab403work.Base.Text.{codes}
use cab403work.Chat.{join, handle_message}
use cab403work.Chat.Broadcast.{Program, started_server}

-- The descriptor 4 has been closed and given out again, and its slot is not cleared.
abbrev given_again : Program
given_again = record {
  server =
      join 4 5
        (handle_message (λ fd. false) 4 (codes "Ann") (codes "[00:00:00]") none
          (join 4 3 started_server)).0;
  leaving = 4 ∷ [];
  reused = 4 ∷ [];
}
