-- ===== src/Car/Attempts/Greeted.antt =====
-- The connections of assignment2/car.c to the controller: what is said first, and which sockets stay
-- open.
use mathlib.Core.Option.{some-injective, none-ne-some}
use cab403work.Base.{
  ℕ, ◌≡◌, refl, sym, ap, ◌∙◌, subst, inl, inr, Bool, true, false, not, ◌&&◌, List, [], ◌∷◌, ◌++◌,
  append_assoc, append-nil, drop, take, take-append-drop, ltb, length, if◌then◌else◌, ◌==◌, Option,
  none, some, Bool-cases,
}
use cab403work.Base.Text.{Bytes, codes, All, All-append}
use cab403work.Libc.{starts_with, scan_word, streq}
use cab403work.Shared.Memory.{SharedMem, between}
use cab403work.Car.Connection.{
  Link, Polled, send, disconnect, greeting, status_message, link_round, deliver_pending,
  set_pending, read_order, read_pipe, after_poll, poll_error, poll_timeout, events, some_bytes,
  pipe_end, pipe_error, PipeRead,
}
use cab403work.Car.Attempts.{
  Setup, no_socket, no_address, no_controller, no_memory, no_thread, monitored, Found, session,
  Attempt, Client, Standing, retrying, connected, joining, exited, cut, given_up, exits,
  ended_early, cleanup, after_session, greeted, set_up, attempt, goes_on, attempts, unconnected,
}

-- More has been sent, and nothing that was sent is lost.
abbrev Sends : Link → Link → Type 0
Sends l l' = (more : List Bytes) × (l'.sent ≡ l.sent ++ more)

same_sent : (l l' : Link) → l'.sent ≡ l.sent → Sends l l'
same_sent l l' e = ([], e ∙ sym (append-nil l.sent))

one_more : (l l' : Link) (text : Bytes) → l'.sent ≡ l.sent → Sends l (send text l')
one_more l l' text e = (text ∷ [], ap (λ s. s ++ text ∷ []) e)

Sends-trans : (a b c : Link) → Sends a b → Sends b c → Sends a c
Sends-trans a b c (m, e) (n, f) = (m ++ n, f ∙ ap (λ s. s ++ n) e ∙ append_assoc a.sent m n)

deliver_pending-sent : (l : Link) → (deliver_pending l).sent ≡ l.sent
unfolding deliver_pending
deliver_pending-sent l =
    elim (Bool-cases (not (streq l.pending []) && not (streq l.memory.status between))) [
      | inl yes_there ↦ rw yes_there refl
      | inr not_there ↦ rw not_there refl
    ]

set_pending-sent : (o : Option (Bytes × Bytes)) (l : Link) → (set_pending o l).sent ≡ l.sent
set_pending-sent none l = refl
set_pending-sent (some found) l = refl

read_order-sent : (text : Bytes) (l : Link) → (read_order text l).sent ≡ l.sent
unfolding read_order
read_order-sent text l = elim (Bool-cases (starts_with text (codes "FLOOR "))) [
  | inl order ↦ rw order (set_pending-sent (scan_word 3 (drop 6 text)) l)
  | inr other ↦ rw other refl
]

read_pipe-Sends :
    (pipe : Option PipeRead) (now : SharedMem) (l : Link) → Sends l (read_pipe pipe now l)
read_pipe-Sends none now l = same_sent l l refl
read_pipe-Sends (some some_bytes) now l = one_more l l (status_message now) refl
read_pipe-Sends (some pipe_end) now l = same_sent l (disconnect l) refl
read_pipe-Sends (some pipe_error) now l = same_sent l (disconnect l) refl

after_poll-Sends :
    (polled : Polled) (now : SharedMem) (l : Link) → Sends l (after_poll polled now l)
after_poll-Sends poll_error now l = same_sent l (disconnect l) refl
after_poll-Sends poll_timeout now l = one_more l l (status_message now) refl
after_poll-Sends (events none pipe) now l = read_pipe-Sends pipe now l
after_poll-Sends (events (some none) pipe) now l = same_sent l (disconnect l) refl
after_poll-Sends (events (some (some text)) pipe) now l =
    Sends-trans l (read_order text l) (read_pipe pipe now (read_order text l))
      (same_sent l (read_order text l) (read_order-sent text l))
      (read_pipe-Sends pipe now (read_order text l))

-- Behind the critical section.
after_delivery :
    (emergency service : Bool) (polled : Polled) (now : SharedMem) (l : Link)
    → Sends l (
        if emergency
        then disconnect (send (codes "EMERGENCY") l)
        else if service
        then disconnect (send (codes "INDIVIDUAL SERVICE") l)
        else after_poll polled now l)
after_delivery true service polled now l = (codes "EMERGENCY" ∷ [], refl)
after_delivery false true polled now l = (codes "INDIVIDUAL SERVICE" ∷ [], refl)
after_delivery false false polled now l = after_poll-Sends polled now l

link_round-Sends :
    (alive : Bool) (polled : Polled) (now : SharedMem) (l : Link)
    → Sends l (link_round alive polled now l)
unfolding link_round
link_round-Sends false polled now l = same_sent l (disconnect l) refl
link_round-Sends true polled now l =
    let l' = deliver_pending l in
    Sends-trans l l' (link_round true polled now l) (same_sent l l' (deliver_pending-sent l)) (
      after_delivery (l'.memory.emergency_mode == 1) (l'.memory.individual_service_mode == 1) polled
        now l')

either-Sends : (b : Bool) (l l' : Link) → Sends l l' → Sends l (if b then l' else l)
either-Sends true l l' h = h
either-Sends false l l' h = same_sent l l refl

session-Sends : (rounds : List Found) (l : Link) → Sends l (session rounds l)
unfolding session
session-Sends [] l = same_sent l l refl
session-Sends (found ∷ rounds) l =
    let start = record l { memory = found.memory } in
    let next = link_round found.connection_alive found.polled found.now start in
    either-Sends l.connected l (session rounds next) (
      Sends-trans start next (session rounds next)
        (link_round-Sends found.connection_alive found.polled found.now start)
        (session-Sends rounds next))

-- All the sockets are closed, or all but the last.
abbrev pub Sockets : Standing → List ℕ → List ℕ → Type 0
Sockets retrying opened closed = closed ≡ opened
Sockets connected opened closed = (fd : ℕ) × (opened ≡ closed ++ fd ∷ [])
Sockets joining opened closed = (fd : ℕ) × (opened ≡ closed ++ fd ∷ [])
Sockets exited opened closed = (fd : ℕ) × (opened ≡ closed ++ fd ∷ [])

module _ (name lowest_floor highest_floor : Bytes) where
  -- The greeting comes first, and a status behind it.
  abbrev pub IsGreeted : List Bytes → Type 0
  IsGreeted texts =
      (memory : SharedMem) × (more : List Bytes) × (texts
        ≡ greeting name lowest_floor highest_floor ∷ status_message memory ∷ more)

  -- The beginning of such a connection.
  abbrev pub IsBegun : List Bytes → Type 0
  IsBegun texts = (rest : List Bytes) × IsGreeted (texts ++ rest)

  abbrev pub Greetings : Standing → List (List Bytes) → Type 0
  Greetings retrying connections = All IsGreeted connections
  Greetings connected connections = All IsGreeted connections
  Greetings joining connections = All IsGreeted connections
  Greetings exited connections =
      (before : List (List Bytes)) × (last : List Bytes) × (connections ≡ before ++ last ∷ [])
      × All IsGreeted before
      × IsBegun last

  abbrev pub IsOrderly : Client → Type 0
  IsOrderly c = Sockets c.standing c.opened c.closed × Greetings c.standing c.connections

  -- In front of a new attempt.
  abbrev IsReady : Client → Type 0
  IsReady c = (c.standing ≡ retrying) × (c.closed ≡ c.opened) × All IsGreeted c.connections

  greeted-IsGreeted :
      (memory : SharedMem) (pending : Bytes) (l : Link)
      → Sends (greeted name lowest_floor highest_floor memory pending) l
      → IsGreeted l.sent
  unfolding greeted
  greeted-IsGreeted memory pending l (more, e) = (memory, more, e)

  -- What went out of the texts before a write failed.
  cut-begins :
      (failing : Option ℕ) (all texts : List Bytes)
      → cut failing all ≡ some texts
      → (rest : List Bytes) × (texts ++ rest ≡ all)
  unfolding cut
  cut-begins none all texts e = absurd cc
  cut-begins (some k) all texts e = elim (Bool-cases (ltb k (length all))) [
    | inl some_left ↦
        let e' : some (take k all) ≡ some texts =
          subst (λ b. (if b then some (take k all) else none) ≡ some texts) some_left e in
        (
          drop k all,
          ap (λ l. l ++ drop k all) (sym (some-injective _ texts e')) ∙ take-append-drop k all,
        )
    | inr all_out ↦ absurd (
        none-ne-some texts
          (subst (λ b. (if b then some (take k all) else none) ≡ some texts) all_out e))
  ]

  ready-IsOrderly : (c : Client) → IsReady c → IsOrderly c
  ready-IsOrderly c (at, closed, all) = (
    subst (λ st. Sockets st c.opened c.closed) (sym at) closed,
    subst (λ st. Greetings st c.connections) (sym at) all,
  )

  given_up-IsReady : (fd : ℕ) (c : Client) → IsReady c → IsReady (given_up fd c)
  given_up-IsReady fd c (at, closed, all) = (at, ap (λ s. s ++ fd ∷ []) closed, all)

  exits-IsOrderly :
      (fd : ℕ) (texts sent : List Bytes) (c : Client)
      → IsReady c
      → IsGreeted sent
      → (rest : List Bytes) × (texts ++ rest ≡ sent)
      → IsOrderly (exits fd texts c)
  exits-IsOrderly fd texts sent c (at, closed, all) g (rest, e) = (
    (fd, ap (λ s. s ++ fd ∷ []) (sym closed)),
    (c.connections, texts, refl, all, (rest, subst IsGreeted (sym e) g)),
  )

  more_greetings :
      (sent : List Bytes) (c : Client)
      → All IsGreeted c.connections
      → IsGreeted sent
      → All IsGreeted (c.connections ++ sent ∷ [])
  more_greetings sent c all g = All-append IsGreeted c.connections (sent ∷ []) all (g, tt)

  ended_early-IsOrderly :
      (out : Option (List Bytes)) (failing : Option ℕ) (fd : ℕ) (l : Link) (c : Client)
      → cut failing l.sent ≡ out
      → IsReady c
      → IsGreeted l.sent
      → IsOrderly (ended_early out fd l c)
  ended_early-IsOrderly (some texts) failing fd l c e h g =
      exits-IsOrderly fd texts l.sent c h g (cut-begins failing l.sent texts e)
  ended_early-IsOrderly none failing fd l c e (at, closed, all) g =
      ready-IsOrderly (ended_early none fd l c)
        (at, ap (λ s. s ++ fd ∷ []) closed, more_greetings l.sent c all g)

  -- Behind the inner loop, which has ended or not.
  still-IsOrderly :
      (fd : ℕ) (l : Link) (c : Client) (monitor_ends b : Bool)
      → c.closed ≡ c.opened
      → All IsGreeted (c.connections ++ l.sent ∷ [])
      → let c' = record c {
        pending = l.pending;
        opened = c.opened ++ fd ∷ [];
        connections = c.connections ++ l.sent ∷ [];
        standing = connected;
      } in
        IsOrderly (if b then c' else cleanup monitor_ends fd c')
  still-IsOrderly fd l c monitor_ends true closed more =
      ((fd, ap (λ s. s ++ fd ∷ []) (sym closed)), more)
  still-IsOrderly fd l c true false closed more = (ap (λ s. s ++ fd ∷ []) closed, more)
  still-IsOrderly fd l c false false closed more = ((fd, ap (λ s. s ++ fd ∷ []) (sym closed)), more)

  after_session-IsOrderly :
      (out : Option (List Bytes)) (failing : Option ℕ) (monitor_ends : Bool) (fd : ℕ) (l : Link)
      (c : Client)
      → cut failing l.sent ≡ out
      → IsReady c
      → IsGreeted l.sent
      → IsOrderly (after_session out monitor_ends fd l c)
  after_session-IsOrderly (some texts) failing monitor_ends fd l c e h g =
      exits-IsOrderly fd texts l.sent c h g (cut-begins failing l.sent texts e)
  after_session-IsOrderly none failing monitor_ends fd l c e (at, closed, all) g =
      still-IsOrderly fd l c monitor_ends l.connected closed (more_greetings l.sent c all g)

  set_up-IsOrderly :
      (setup : Setup) (a : Attempt) (c : Client)
      → IsReady c
      → IsOrderly (set_up name lowest_floor highest_floor setup a c)
  set_up-IsOrderly no_socket a c h = ready-IsOrderly c h
  set_up-IsOrderly no_address a c h = ready-IsOrderly (given_up a.fd c) (given_up-IsReady a.fd c h)
  set_up-IsOrderly no_controller a c h =
      ready-IsOrderly (given_up a.fd c) (given_up-IsReady a.fd c h)
  set_up-IsOrderly no_memory a c h =
      let l = greeted name lowest_floor highest_floor a.memory c.pending in
      ended_early-IsOrderly (cut a.failing_write l.sent) a.failing_write a.fd l c refl h
        (greeted-IsGreeted a.memory c.pending l (same_sent l l refl))
  set_up-IsOrderly no_thread a c h =
      let l = greeted name lowest_floor highest_floor a.memory c.pending in
      ended_early-IsOrderly (cut a.failing_write l.sent) a.failing_write a.fd l c refl h
        (greeted-IsGreeted a.memory c.pending l (same_sent l l refl))
  set_up-IsOrderly monitored a c h =
      let start = greeted name lowest_floor highest_floor a.memory c.pending in
      let l = session a.rounds start in
      after_session-IsOrderly (cut a.failing_write l.sent) a.failing_write a.monitor_ends a.fd l c
        refl h (greeted-IsGreeted a.memory c.pending l (session-Sends a.rounds start))

  attempt-IsOrderly :
      (a : Attempt) (c : Client)
      → IsReady c
      → IsOrderly (attempt name lowest_floor highest_floor a c)
  unfolding attempt
  attempt-IsOrderly a c h = set_up-IsOrderly a.setup a c h

  going_on :
      (standing : Standing) (c rest : Client)
      → c.standing ≡ standing
      → IsOrderly c
      → (IsReady c → IsOrderly rest)
      → IsOrderly (goes_on name lowest_floor highest_floor standing c rest)
  going_on retrying c rest e (sockets, all) k = k (
    e,
    subst (λ st. Sockets st c.opened c.closed) e sockets,
    subst (λ st. Greetings st c.connections) e all,
  )
  going_on connected c rest e h k = h
  going_on joining c rest e h k = h
  going_on exited c rest e h k = h

  attempts_lem :
      (list : List Attempt) (c : Client)
      → IsOrderly c
      → IsOrderly (attempts name lowest_floor highest_floor list c)
  unfolding attempts
  attempts_lem [] c h = h
  attempts_lem (a ∷ others) c h =
      let next = attempt name lowest_floor highest_floor a c in
      going_on c.standing c (attempts name lowest_floor highest_floor others next) refl h
        (λ ready. attempts_lem others next (attempt-IsOrderly a c ready))

  -- However often the set-up fails, connections break off and the thread tries again: each connection
  -- begins with the greeting and a status, but where a failed write has ended the program the last
  -- one may be a beginning of that; and of the sockets that were opened all are closed, each once and
  -- in their order, but the last where the thread is in a connection, waits behind it for the monitor
  -- thread, or is gone.
  pub attempts-IsOrderly :
      (list : List Attempt) → IsOrderly (attempts name lowest_floor highest_floor list unconnected)
  attempts-IsOrderly list = attempts_lem list unconnected (refl, tt)
