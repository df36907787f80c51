-- ===== src/PrintPid/Progress.antt =====
-- The children of week4/workshop4/semaphores/print_pid.c do not stop before all are done.
use cab403work.Base.{
  Bool-cases, ◌==◌, ==_iff, ap, ◌∙◌, ℕ, zero, suc, ◌<◌, ◌≡◌, refl, ◌⊎◌, inl, inr, Option-cases,
  get_elem?, arith,
}
use cab403work.Base.Text.{Bytes}
use cab403work.PrintPid.{
  Phase, outside, done, prints, Printing, Step, enters, puts, leaves, Reach, split,
}
use cab403work.PrintPid.Moves.{IsQuiet, Orderly, free, busy}
use cab403work.PrintPid.Lines.{Reach-Orderly}

-- Some child has not begun, or all have.
some_outside :
    (n : ℕ) (phase : ℕ → Phase)
    → ((j : ℕ) → IsQuiet (phase j))
    → ((id : ℕ) × (id < n) × (phase id ≡ outside)) ⊎ ((id : ℕ) → id < n → phase id ≡ done)
some_outside zero phase q = inr (λ id h. absurd (omega arith))
some_outside (suc n) phase q = elim (some_outside n phase q) [
  | inl (id, h, e) ↦ inl (id, omega arith, e)
  | inr all ↦ by_last (phase n) refl (q n) all
]
  where
    by_last :
        (p : Phase)
        → phase n ≡ p
        → IsQuiet p
        → ((id : ℕ) → id < n → phase id ≡ done)
        → ((id : ℕ) × (id < suc n) × (phase id ≡ outside))
          ⊎ ((id : ℕ) → id < suc n → phase id ≡ done)
    by_last outside e q all = inl (n, omega arith, e)
    by_last done e q all = inr (λ id h. up_to id h)
      where
        up_to : (id : ℕ) → id < suc n → phase id ≡ done
        up_to id h = elim (Bool-cases (id == n)) [
          | inl same ↦ ap phase ((==_iff id n).0 same) ∙ e
          | inr other ↦ all id (ground arith)
        ]
    by_last (prints ptr) e q all = absurd q

-- From every state that the children can come to, all of them are done, or one can take a step.
pub some_child_goes_on :
    (getpid : ℕ → ℕ) (child_number : ℕ) (buffer : Bytes) {s : Printing}
    → Reach getpid child_number (split buffer) s
    → ((id : ℕ) → id < child_number → s.phase id ≡ done)
      ⊎ ((s' : Printing) × Step getpid child_number s s')
some_child_goes_on getpid child_number buffer {s} r =
    by_order (Reach-Orderly getpid child_number buffer r).0
  where
    by_order :
        Orderly getpid child_number s
        → ((id : ℕ) → id < child_number → s.phase id ≡ done)
          ⊎ ((s' : Printing) × Step getpid child_number s s')
    by_order (free f) = elim (some_outside child_number s.phase f.quiet) [
      | inl (id, h, e) ↦ inr (_, enters id 0 h e f.open_lock)
      | inr all ↦ inl all
    ]
    by_order (busy id ptr b) = elim (Option-cases (get_elem? s.buffer ptr)) [
      | inl e ↦ inr (_, leaves id ptr b.printing e)
      | inr (c, e) ↦ inr (_, puts id ptr c b.printing e)
    ]
