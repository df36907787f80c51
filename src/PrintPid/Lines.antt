-- ===== src/PrintPid/Lines.antt =====
-- The output of week4/workshop4/semaphores/print_pid.c is made of whole lines.
use cab403work.Base.{
  ℕ, suc, ◌+◌, ◌≡◌, refl, sym, ap, ◌∙◌, ◌⊎◌, List, [], ◌∷◌, ◌++◌, ◌==◌, ==_iff, if◌then◌else◌,
  Bool-cases, inl, inr, take, arith,
}
use cab403work.Base.Text.{Bytes}
use cab403work.PrintPid.{
  Phase, outside, done, prints, Printing, moved, child_text, Step, enters, puts, leaves, Reach,
  here, later, split,
}
use cab403work.PrintPid.Moves.{
  all_lines, Orderly, free, busy, printer, enter-Orderly, put-Orderly, leave-Orderly,
}

abbrev pub times : ℕ → List ℕ → ℕ
times id [] = 0
times id (i ∷ ids) = (if i == id then 1 else 0) + times id ids

abbrev pub has_printed : Phase → ℕ
has_printed outside = 0
has_printed done = 1
has_printed (prints ptr) = 0

abbrev pub Counted : Printing → Type 0
Counted s = (j : ℕ) → times j s.finished ≡ has_printed (s.phase j)

times-append_one :
    (j : ℕ) (ids : List ℕ) (id : ℕ)
    → times j (ids ++ id ∷ []) ≡ times j ids + (if id == j then 1 else 0)
times-append_one j [] id = omega arith
times-append_one j (i ∷ ids) id = omega (arith, times-append_one j ids id)

-- A child that moves and has printed its line neither before nor behind the step.
moved-Counted :
    (s : Printing) (id : ℕ) (p : Phase)
    → has_printed (s.phase id) ≡ 0
    → has_printed p ≡ 0
    → Counted s
    → (j : ℕ) → times j s.finished ≡ has_printed (moved s.phase id p j)
moved-Counted s id p e e' h j = elim (Bool-cases (j == id)) [
  | inl same ↦
      let at : j ≡ id = (==_iff j id).0 same in
      rw same (h j ∙ ap (λ i. has_printed (s.phase i)) at ∙ e ∙ sym e')
  | inr other ↦ rw other (h j)
]

left-Counted :
    (s : Printing) (id : ℕ)
    → has_printed (s.phase id) ≡ 0
    → Counted s
    → (j : ℕ) → times j (s.finished ++ id ∷ []) ≡ has_printed (moved s.phase id done j)
left-Counted s id e h j = elim (Bool-cases (j == id)) [
  | inl same ↦
      let at : j ≡ id = (==_iff j id).0 same in
      let before = h j ∙ ap (λ i. has_printed (s.phase i)) at ∙ e in
      rw same (ground (arith, times-append_one j s.finished id, before, ==_iff id j))
  | inr other ↦
      rw other (ground (arith, times-append_one j s.finished id, h j, ==_iff id j, ==_iff j id))
]

module _ (getpid : ℕ → ℕ) (child_number : ℕ) where
  Step-Orderly :
      {s s' : Printing}
      → Step getpid child_number s s'
      → Orderly getpid child_number s × Counted s
      → Orderly getpid child_number s' × Counted s'
  Step-Orderly {s} (enters id lock h e l) (o, c) = (
    enter-Orderly getpid child_number s id lock o l,
    moved-Counted s id (prints 0) (ap has_printed e) refl c,
  )
  Step-Orderly {s} (puts id ptr b e g) (o, c) = (
    put-Orderly getpid child_number s id ptr b (printer getpid child_number s id ptr o e) g,
    moved-Counted s id (prints (suc ptr)) (ap has_printed e) refl c,
  )
  Step-Orderly {s} (leaves id ptr e g) (o, c) = (
    leave-Orderly getpid child_number s id ptr (printer getpid child_number s id ptr o e) g,
    left-Counted s id (ap has_printed e) c,
  )

  pub Reach-Orderly :
      (buffer : Bytes) {s : Printing}
      → Reach getpid child_number (split buffer) s
      → Orderly getpid child_number s × Counted s
  Reach-Orderly buffer here =
      (free (record { open_lock = refl; quiet = λ j. tt; lines = refl }), λ j. refl)
  Reach-Orderly buffer (later r s) = Step-Orderly s (Reach-Orderly buffer r)

-- What is printed: the lines of the children that are done, whole and in their order, and then
-- nothing or the beginning of one child's line.
abbrev pub Printed : (ℕ → ℕ) → Printing → Type 0
Printed getpid s =
    (s.output ≡ all_lines getpid s.finished)
    ⊎ ((id ptr : ℕ) × (s.phase id ≡ prints ptr)
        × (s.output ≡ all_lines getpid s.finished ++ take ptr (child_text getpid id)))

-- In every order of the steps of the children, whatever the buffer held and whatever the process
-- ids are: the output is the lines of the children that are done, whole and one behind the other,
-- and then at most the beginning of the line of the one child that prints; and a child is in the
-- list of those that are done once if it is done, and never otherwise.
pub Reach-Printed :
    (getpid : ℕ → ℕ) (child_number : ℕ) (buffer : Bytes) {s : Printing}
    → Reach getpid child_number (split buffer) s
    → Printed getpid s × ((j : ℕ) → times j s.finished ≡ has_printed (s.phase j))
Reach-Printed getpid child_number buffer {s} r =
    let (o, c) = Reach-Orderly getpid child_number buffer r in (by_order o, c)
  where
    by_order : Orderly getpid child_number s → Printed getpid s
    by_order (free f) = inl f.lines
    by_order (busy id ptr b) = inr (id, ptr, b.printing, b.lines)
