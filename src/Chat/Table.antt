-- ===== src/Chat/Table.antt =====
-- What is in the table of week8/chatapp/server.c behind each of its loops.
use cab403work.Base.{
  ℕ, ◌+◌, ◌≤◌, ◌≡◌, ◌≢◌, inl, inr, refl, sym, Bool, false, ◌||◌, List, [], ◌∷◌, ◌==◌, ==_iff, arith,
  Bool-cases, if◌then◌else◌,
}
use cab403work.Chat.{add_client, remove_client, kept_slots, receivers}

abbrev pub present : ℕ → List ℕ → Bool
present fd [] = false
present fd (slot ∷ slots) = (fd == slot) || present fd slots

-- In how many slots the descriptor stands.
abbrev pub count : ℕ → List ℕ → ℕ
count fd [] = 0
count fd (slot ∷ slots) = (if fd == slot then 1 else 0) + count fd slots

pub count-absent : (fd : ℕ) (slots : List ℕ) → present fd slots ≡ false → count fd slots ≡ 0
count-absent fd [] h = refl
count-absent fd (slot ∷ slots) h = ground (arith, h, count-absent fd slots)

pub count-add_client :
    (fd g : ℕ) (slots : List ℕ)
    → fd ≢ 0
    → count fd (add_client g slots) ≤ count fd slots + (if fd == g then 1 else 0)
unfolding add_client
count-add_client fd g [] n = omega arith
count-add_client fd g (slot ∷ slots) n =
    let rest = count-add_client fd g slots n in ground (arith, rest)

pub count-remove_client :
    (fd g : ℕ) (slots : List ℕ) → fd ≢ 0 → count fd (remove_client g slots) ≤ count fd slots
unfolding remove_client
count-remove_client fd g [] n = omega arith
count-remove_client fd g (slot ∷ slots) n =
    let rest = count-remove_client fd g slots n in ground (arith, rest)

pub count-kept_slots :
    (fd : ℕ) (fails : ℕ → Bool) (slots : List ℕ)
    → fd ≢ 0
    → count fd (kept_slots fails slots) ≡ (if fails fd then 0 else count fd slots)
unfolding kept_slots
count-kept_slots fd fails [] n = ground arith
count-kept_slots fd fails (slot ∷ slots) n =
    let rest = count-kept_slots fd fails slots n in
    elim (Bool-cases (fd == slot)) [
      | inl same ↦
          let at : slot ≡ fd = sym ((==_iff fd slot).0 same) in rw at (ground (arith, rest))
      | inr other ↦ ground (arith, rest, other)
    ]

pub count-receivers :
    (fd : ℕ) (slots : List ℕ) → fd ≢ 0 → count fd (receivers slots) ≡ count fd slots
unfolding receivers
count-receivers fd [] n = refl
count-receivers fd (slot ∷ slots) n = let rest = count-receivers fd slots n in ground (arith, rest)
