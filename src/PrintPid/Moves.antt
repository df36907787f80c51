-- ===== src/PrintPid/Moves.antt =====
-- What a step of a child does to the output of week4/workshop4/semaphores/print_pid.c.
use mathlib.Core.Bool.{false≢true}
use mathlib.Core.Option.{some-injective}
use cab403work.Base.{
  ℕ, zero, suc, ◌≡◌, ◌≢◌, refl, sym, ap, ◌∙◌, List, [], ◌∷◌, ◌++◌, append_assoc, append-nil, ◌==◌,
  ==_iff, Bool-cases, inl, inr, get_elem?, take, none, some, arith, subst,
}
use cab403work.Base.Text.{Bytes}
use cab403work.PrintPid.{
  Phase, outside, done, prints, Printing, moved, child_text, enter, put, leave,
}

module _ (getpid : ℕ → ℕ) where
  -- The lines of these children, one behind the other.
  abbrev pub all_lines : List ℕ → Bytes
  all_lines [] = []
  all_lines (id ∷ ids) = (child_text getpid id ++ 10 ∷ []) ++ all_lines ids

  all_lines-append_one :
      (ids : List ℕ) (id : ℕ)
      → all_lines (ids ++ id ∷ []) ≡ all_lines ids ++ (child_text getpid id ++ 10 ∷ [])
  all_lines-append_one [] id = append-nil (child_text getpid id ++ 10 ∷ [])
  all_lines-append_one (i ∷ ids) id =
      ap (λ t. (child_text getpid i ++ 10 ∷ []) ++ t) (all_lines-append_one ids id)
      ∙ sym (append_assoc (child_text getpid i ++ 10 ∷ []) (all_lines ids) _)

abbrev pub IsQuiet : Phase → Type 0
IsQuiet outside = Unit {0}
IsQuiet done = Unit {0}
IsQuiet (prints ptr) = ⊥

take-step :
    {A : Type 0} (xs : List A) (p : ℕ) (c : A)
    → get_elem? xs p ≡ some c
    → take (suc p) xs ≡ take p xs ++ c ∷ []
take-step [] p c e = cc
take-step (x ∷ xs) zero c e = ap (λ y. y ∷ []) (some-injective x c e)
take-step (x ∷ xs) (suc p) c e = ap (λ l. x ∷ l) (take-step xs p c e)

take-whole : {A : Type 0} (xs : List A) (p : ℕ) → get_elem? xs p ≡ none → take p xs ≡ xs
take-whole [] zero e = refl
take-whole [] (suc p) e = refl
take-whole (x ∷ xs) zero e = cc
take-whole (x ∷ xs) (suc p) e = ap (λ l. x ∷ l) (take-whole xs p e)

moved_same : (phase : ℕ → Phase) (id : ℕ) (p : Phase) → moved phase id p id ≡ p
moved_same phase id p = ground (arith, ==_iff id id)

moved_other : (phase : ℕ → Phase) (id j : ℕ) (p : Phase) → j ≢ id → moved phase id p j ≡ phase j
moved_other phase id j p n = ground (arith, ==_iff j id)

module _ (getpid : ℕ → ℕ) (child_number : ℕ) where
  -- No child prints, and the semaphore is 1.
  pub record Free (s : Printing) : Type 0 where
    pub open_lock : s.child_process_lock ≡ 1
    pub quiet : (j : ℕ) → IsQuiet (s.phase j)
    pub lines : s.output ≡ all_lines getpid s.finished

  -- One child prints, and has printed so many bytes of its line.
  pub record Busy (id ptr : ℕ) (s : Printing) : Type 0 where
    pub shut_lock : s.child_process_lock ≡ 0
    pub printing : s.phase id ≡ prints ptr
    pub quiet : (j : ℕ) → j ≢ id → IsQuiet (s.phase j)
    pub text : s.buffer ≡ child_text getpid id
    pub lines : s.output ≡ all_lines getpid s.finished ++ take ptr (child_text getpid id)

  pub data Orderly (s : Printing) : Type 0 where
    free : Free s → Orderly s
    busy : (id ptr : ℕ) → Busy id ptr s → Orderly s

  -- The child that prints is the one that the lock is taken by.
  pub printer : (s : Printing) (id ptr : ℕ) → Orderly s → s.phase id ≡ prints ptr → Busy id ptr s
  printer s id ptr (free f) e = absurd (subst IsQuiet e (f.quiet id))
  printer s id ptr (busy id' ptr' b) e = elim (Bool-cases (id == id')) [
    | inr other ↦
        absurd (subst IsQuiet e (b.quiet id (λ q. false≢true (sym other ∙ (==_iff id id').1 q))))
    | inl same ↦
        let at : id' ≡ id = sym ((==_iff id id').0 same) in
        let b' : Busy id ptr' s = subst (λ i. Busy i ptr' s) at b in
        subst (λ p. Busy id p s) (prints_injective (sym b'.printing ∙ e)) b'
  ]
    where
      prints_injective : {p q : ℕ} → prints p ≡ prints q → p ≡ q
      prints_injective h = cc

  pub enter-Orderly :
      (s : Printing) (id lock : ℕ)
      → Orderly s
      → s.child_process_lock ≡ suc lock
      → Orderly (enter getpid child_number id lock s)
  enter-Orderly s id lock (busy id' ptr' b) l = absurd (omega (arith, b.shut_lock, l))
  enter-Orderly s id lock (free f) l = busy id 0 (record {
    shut_lock = omega (arith, f.open_lock, l);
    printing = moved_same s.phase id (prints 0);
    quiet = λ j n. subst IsQuiet (sym (moved_other s.phase id j (prints 0) n)) (f.quiet j);
    text = refl;
    lines = f.lines ∙ sym (append-nil (all_lines getpid s.finished));
  })

  pub put-Orderly :
      (s : Printing) (id ptr c : ℕ)
      → Busy id ptr s
      → get_elem? s.buffer ptr ≡ some c
      → Orderly (put getpid child_number id ptr c s)
  put-Orderly s id ptr c b e =
      let next =
        take-step (child_text getpid id) ptr c (subst (λ t. get_elem? t ptr ≡ some c) b.text e) in
      busy id (suc ptr) (record {
        shut_lock = b.shut_lock;
        printing = moved_same s.phase id (prints (suc ptr));
        quiet = λ j n.
            subst IsQuiet (sym (moved_other s.phase id j (prints (suc ptr)) n)) (b.quiet j n);
        text = b.text;
        lines =
            ap (λ o. o ++ c ∷ []) b.lines
            ∙ append_assoc (all_lines getpid s.finished) (take ptr (child_text getpid id)) (c ∷ [])
            ∙ ap (λ o. all_lines getpid s.finished ++ o) (sym next);
      })

  pub leave-Orderly :
      (s : Printing) (id ptr : ℕ)
      → Busy id ptr s
      → get_elem? s.buffer ptr ≡ none
      → Orderly (leave getpid child_number id s)
  leave-Orderly s id ptr b e =
      let whole =
        take-whole (child_text getpid id) ptr (subst (λ t. get_elem? t ptr ≡ none) b.text e) in
      free (record {
        open_lock = ap suc b.shut_lock;
        quiet = λ j. elim (Bool-cases (j == id)) [
          | inl same ↦ rw same tt
          | inr other ↦ rw other (b.quiet j (λ q. false≢true (sym other ∙ (==_iff j id).1 q)))
        ];
        lines =
            ap (λ o. o ++ 10 ∷ []) (b.lines ∙ ap (λ o. all_lines getpid s.finished ++ o) whole)
            ∙ append_assoc (all_lines getpid s.finished) (child_text getpid id) (10 ∷ [])
            ∙ sym (all_lines-append_one getpid s.finished id);
      })
