-- ===== src/Controller/Listener/Counts.antt =====
-- How the critical sections of assignment2/controller.c keep count of the descriptors.
use mathlib.Core.Option.{some-injective}
use cab403work.Base.{
  subst, ℕ, ◌+◌, ◌<◌, ◌≤◌, ◌≡◌, refl, ap, Bool, true, false, List, [], ◌∷◌, ◌++◌, ◌==◌, ==_iff,
  Bool-cases, inl, inr, if◌then◌else◌, arith, Option, some,
}
use cab403work.Base.Text.{Bytes}
use cab403work.Controller.State.{Controller}
use cab403work.Controller.Dispatch.{control_step}
use cab403work.Controller.Dispatch.Order.{in_hand}
use cab403work.Controller.Connections.{leave_list, close_last}
use cab403work.Controller.Listener.{
  Listener, Accept, accept_error, accepted, listen_round, handle_connection,
}
use cab403work.Controller.Listener.Held.{
  occurrences, occurrences-append, car_fds, call_fds, held, close-Gains, handle_connection-Gains,
  handle_connection-cars, control_step-keeps, remove_car-fds, Round,
}
use cab403work.Controller.Listener.Program.{
  Program, at_controller, ending_fds, same_flag, flagged, after_round,
}

-- Every accepted descriptor is in one place; a car's connection that was closed and whose car is in
-- the list still is in two.
abbrev pub Accounted : ℕ → Program → Type 0
Accounted x p =
    let l = p.listener in
    occurrences x l.opened + occurrences x (flagged false p.ending)
    ≡ occurrences x l.starting
      + occurrences x (call_fds (in_hand p.turn))
      + held x l.controller
      + occurrences x (flagged true p.left)

-- No more connections are behind their loops than there are cars in the list.
abbrev pub Listed : ℕ → Program → Type 0
Listed x p =
    occurrences x (ending_fds p.ending) ≤ occurrences x (car_fds p.listener.controller.cars)

abbrev pub IsKept : Program → Type 0
IsKept p = (x : ℕ) → Accounted x p × Listed x p

pub ending_fds-append :
    (x : ℕ) (xs ys : List (ℕ × Bool))
    → occurrences x (ending_fds (xs ++ ys))
      ≡ occurrences x (ending_fds xs) + occurrences x (ending_fds ys)
ending_fds-append x [] ys = omega arith
ending_fds-append x ((fd, connected) ∷ xs) ys = omega (arith, ending_fds-append x xs ys)

pub flagged-append :
    (b : Bool) (x : ℕ) (xs ys : List (ℕ × Bool))
    → occurrences x (flagged b (xs ++ ys))
      ≡ occurrences x (flagged b xs) + occurrences x (flagged b ys)
flagged-append b x [] ys = omega arith
flagged-append b x ((fd, connected) ∷ xs) ys =
    let one = if same_flag b connected then fd ∷ [] else [] in
    omega (
      arith,
      flagged-append b x xs ys,
      occurrences-append x one (flagged b (xs ++ ys)),
      occurrences-append x one (flagged b xs),
    )

-- Splitting off the connection that takes a step.
pub ending_fds-split :
    (x : ℕ) (before behind all : List (ℕ × Bool)) (fd : ℕ) (connected : Bool)
    → all ≡ before ++ (fd, connected) ∷ behind
    → occurrences x (ending_fds all)
      ≡ occurrences x (ending_fds (before ++ behind)) + occurrences x (fd ∷ [])
ending_fds-split x before behind all fd connected e =
    let at = ap (λ l. occurrences x (ending_fds l)) e in
    omega (
      arith,
      at,
      ending_fds-append x before ((fd, connected) ∷ behind),
      ending_fds-append x before behind,
    )

pub flagged-split :
    (b : Bool) (x : ℕ) (before behind all : List (ℕ × Bool)) (fd : ℕ) (connected : Bool)
    → all ≡ before ++ (fd, connected) ∷ behind
    → occurrences x (flagged b all)
      ≡ occurrences x (flagged b (before ++ behind))
        + occurrences x (flagged b ((fd, connected) ∷ []))
flagged-split b x before behind all fd connected e =
    let at = ap (λ l. occurrences x (flagged b l)) e in
    let one = if same_flag b connected then fd ∷ [] else [] in
    omega (
      arith,
      at,
      flagged-append b x before ((fd, connected) ∷ behind),
      flagged-append b x before behind,
      occurrences-append x one (flagged b behind),
      occurrences-append x one [],
    )

pub occurrences_self : (fd : ℕ) → occurrences fd (fd ∷ []) ≡ 1
occurrences_self fd = ground (arith, ==_iff fd fd)

pub either_flag :
    (x fd : ℕ) (connected : Bool)
    → occurrences x (flagged true ((fd, connected) ∷ []))
        + occurrences x (flagged false ((fd, connected) ∷ []))
      ≡ occurrences x (fd ∷ [])
either_flag x fd true = omega arith
either_flag x fd false = omega arith

-- One more connection behind its loop, whose car is in the list.
pub still_listed :
    (fd x : ℕ) (ends : List (ℕ × Bool)) (cars cars' : List ℕ) (connected : Bool)
    → cars' ≡ cars
    → occurrences x (ending_fds ends) ≤ occurrences x cars
    → occurrences fd (ending_fds ends) < occurrences fd cars
    → occurrences x (ending_fds (ends ++ (fd, connected) ∷ [])) ≤ occurrences x cars'
still_listed fd x ends cars cars' connected e listed m =
    let more = ending_fds-append x ends ((fd, connected) ∷ []) in
    let same = ap (occurrences x) e in
    elim (Bool-cases (fd == x)) [
      | inl own ↦
          let at : fd ≡ x = (==_iff fd x).0 own in
          let m' = subst (λ y. occurrences y (ending_fds ends) < occurrences y cars) at m in
          rw same (ground (arith, more, m', own))
      | inr other ↦ rw same (ground (arith, more, listed, other))
    ]

pub listen_round-keeps :
    (a : Accept) (l l' : Listener) (x : ℕ)
    → listen_round a l ≡ some l'
    → (occurrences x l'.opened + occurrences x l.starting + held x l.controller
        ≡ occurrences x l.opened + occurrences x l'.starting + held x l'.controller)
      × (l'.controller.cars ≡ l.controller.cars)
unfolding listen_round
listen_round-keeps accept_error l l' x e = absurd cc
listen_round-keeps (accepted fd true) l l' x e =
    subst
      (λ k.
        (occurrences x k.opened + occurrences x l.starting + held x l.controller
          ≡ occurrences x l.opened + occurrences x k.starting + held x k.controller)
        × (k.controller.cars ≡ l.controller.cars))
      (some-injective _ l' e)
      (
        omega (
          arith,
          occurrences-append x l.opened (fd ∷ []),
          occurrences-append x l.starting (fd ∷ []),
        ),
        refl,
      )
listen_round-keeps (accepted fd false) l l' x e =
    subst
      (λ k.
        (occurrences x k.opened + occurrences x l.starting + held x l.controller
          ≡ occurrences x l.opened + occurrences x k.starting + held x k.controller)
        × (k.controller.cars ≡ l.controller.cars))
      (some-injective _ l' e)
      (omega (arith, occurrences-append x l.opened (fd ∷ []), close-Gains fd l.controller x), refl)

pub begins-keeps :
    (before behind : List ℕ) (fd : ℕ) (text : Bytes) (status : Option Bytes) (p : Program)
    → p.listener.starting ≡ before ++ fd ∷ behind
    → IsKept p
    → IsKept (record p {
      listener = record p.listener {
        starting = before ++ behind;
        controller = handle_connection fd text status p.listener.controller;
      };
    })
begins-keeps before behind fd text status p e h x =
    let (all, listed) = h x in
    let at = ap (occurrences x) e in
    (
      omega (
        arith,
        all,
        at,
        occurrences-append x before (fd ∷ behind),
        occurrences-append x before behind,
        handle_connection-Gains fd text status p.listener.controller x,
      ),
      omega (arith, listed, handle_connection-cars fd text status p.listener.controller x),
    )

pub goes_on-keeps :
    (p : Program)
    → IsKept p
    → let r = control_step p.turn p.listener.controller in
      IsKept (record (at_controller r.controller p) { turn = r.turn })
goes_on-keeps p h x =
    let (all, listed) = h x in
    let (kept, cars) = control_step-keeps p.turn p.listener.controller x in
    let same = ap (occurrences x) cars in (omega (arith, all, kept), omega (arith, listed, same))

pub after_round-keeps :
    (fd : ℕ) (r : Controller × Bool × Bool) (p : Program)
    → ((x : ℕ) → Round fd x p.listener.controller r)
    → occurrences fd (ending_fds p.ending) < occurrences fd (car_fds p.listener.controller.cars)
    → IsKept p
    → IsKept (after_round fd r p)
after_round-keeps fd (c, connected, true) p rounds m h x =
    let (all, listed) = h x in
    let r = rounds x in
    let cars = ap (occurrences x) r.cars in
    let calls = ap (λ l. occurrences x (call_fds l)) r.calls in
    let flag = r.flag_kept refl in
    let shut =
      ap
        (λ b.
          occurrences x p.listener.controller.closed + occurrences x (if b then [] else fd ∷ []))
        flag in
    (omega (arith, all, cars, calls, r.closed, shut), omega (arith, listed, cars))
after_round-keeps fd (c, true, false) p rounds m h x =
    let (all, listed) = h x in
    let r = rounds x in
    let cars = ap (occurrences x) r.cars in
    let calls = ap (λ l. occurrences x (call_fds l)) r.calls in
    (
      omega (arith, all, cars, calls, r.closed, flagged-append false x p.ending ((fd, true) ∷ [])),
      still_listed fd x p.ending (car_fds p.listener.controller.cars) (car_fds c.cars) true r.cars
          listed m,
    )
after_round-keeps fd (c, false, false) p rounds m h x =
    let (all, listed) = h x in
    let r = rounds x in
    let cars = ap (occurrences x) r.cars in
    let calls = ap (λ l. occurrences x (call_fds l)) r.calls in
    (
      omega (arith, all, cars, calls, r.closed, flagged-append false x p.ending ((fd, false) ∷ [])),
      still_listed fd x p.ending (car_fds p.listener.controller.cars) (car_fds c.cars) false r.cars
          listed m,
    )

pub leaves-keeps :
    (before behind : List (ℕ × Bool)) (fd : ℕ) (connected : Bool) (p : Program)
    → p.ending ≡ before ++ (fd, connected) ∷ behind
    → IsKept p
    → IsKept (record (at_controller (leave_list fd p.listener.controller) p) {
      ending = before ++ behind;
      left = p.left ++ (fd, connected) ∷ [];
    })
leaves-keeps before behind fd connected p e h x =
    let (all, listed) = h x in
    let cars = p.listener.controller.cars in
    let there = (h fd).1 in
    let own = ending_fds-split fd before behind p.ending fd connected e in
    let here = occurrences_self fd in
    let gone = remove_car-fds fd x cars (omega (arith, there, own, here)) in
    let ends = ending_fds-split x before behind p.ending fd connected e in
    let early = flagged-split false x before behind p.ending fd connected e in
    let more = flagged-append true x p.left ((fd, connected) ∷ []) in
    let parts = either_flag x fd connected in
    (omega (arith, all, gone, early, more, parts), omega (arith, listed, gone, ends))

pub close_last-fds :
    (fd x : ℕ) (connected : Bool) (c : Controller)
    → (held x (close_last fd connected c)
        ≡ held x c + occurrences x (flagged true ((fd, connected) ∷ [])))
      × ((close_last fd connected c).cars ≡ c.cars)
close_last-fds fd x true c = (omega (arith, occurrences-append x c.closed (fd ∷ [])), refl)
close_last-fds fd x false c = (omega arith, refl)

pub closes-keeps :
    (before behind : List (ℕ × Bool)) (fd : ℕ) (connected : Bool) (p : Program)
    → p.left ≡ before ++ (fd, connected) ∷ behind
    → IsKept p
    → IsKept (record (at_controller (close_last fd connected p.listener.controller) p) {
      left = before ++ behind;
    })
closes-keeps before behind fd connected p e h x =
    let (all, listed) = h x in
    let (kept, cars) = close_last-fds fd x connected p.listener.controller in
    let same = ap (λ l. occurrences x (car_fds l)) cars in
    (
      omega (arith, all, kept, flagged-split true x before behind p.left fd connected e),
      omega (arith, listed, same),
    )
