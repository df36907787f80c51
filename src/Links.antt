-- ===== src/Links.antt =====
-- Pointers between nodes: `next` maps an address to what its `next` field holds, with none for NULL.
-- What the nodes hold besides is kept by the users of this file.
use cab403work.Base.{
  ℕ, ◌≡◌, ◌≢◌, ◌⊎◌, ◌≤◌, refl, sym, ap, inl, inr, List, [], ◌∷◌, ◌++◌, Option, none, some, ◌==◌,
  Bool-cases, ==_iff, if◌then◌else◌, arith, subst, length,
}
use cab403work.Base.Text.{All}

abbrev pub Links : Type 0
Links = ℕ → Option ℕ

-- `a->next = p`
abbrev pub link : Links → ℕ → Option ℕ → Links
link next a p b = if b == a then p else next b

-- From `p` the pointers lead through the addresses in their order to `q`.
abbrev pub Seg : Links → Option ℕ → List ℕ → Option ℕ → Type 0
Seg next p [] q = p ≡ q
Seg next p (a ∷ xs) q = (p ≡ some a) × Seg next (next a) xs q

-- The address is not in the list.
abbrev pub Apart : ℕ → List ℕ → Type 0
Apart a = All (λ b. b ≢ a)

abbrev pub Distinct : List ℕ → Type 0
Distinct [] = Unit {0}
Distinct (a ∷ xs) = Apart a xs × Distinct xs

-- The last address, or `p` if there is none.
abbrev pub last_of : Option ℕ → List ℕ → Option ℕ
last_of p [] = p
last_of p (a ∷ xs) = last_of (some a) xs

pub link_same : (next : Links) (a : ℕ) (p : Option ℕ) → link next a p a ≡ p
link_same next a p = ground (arith, ==_iff a a)

pub link_other : (next : Links) (a b : ℕ) (p : Option ℕ) → b ≢ a → link next a p b ≡ next b
link_other next a b p n = ground (arith, ==_iff b a)

pub link_id : (next : Links) (a b : ℕ) (r : Option ℕ) → next a ≡ r → link next a r b ≡ next b
link_id next a b r e = elim (Bool-cases (b == a)) [
  | inl same ↦ let at : b ≡ a = (==_iff b a).0 same in rw (same, at) (sym e)
  | inr other ↦ rw other refl
]

-- A write at another address keeps the path.
pub Seg-link :
    (next : Links) (a : ℕ) (r p : Option ℕ) (xs : List ℕ) (q : Option ℕ)
    → Apart a xs
    → Seg next p xs q
    → Seg (link next a r) p xs q
Seg-link next a r p [] q n s = s
Seg-link next a r p (b ∷ xs) q (n, ns) (e, s) =
    (e, rw (link_other next a b r n) (Seg-link next a r (next b) xs q ns s))

pub Seg-append :
    (next : Links) (p : Option ℕ) (xs : List ℕ) (q : Option ℕ) (ys : List ℕ) (r : Option ℕ)
    → Seg next p xs q
    → Seg next q ys r
    → Seg next p (xs ++ ys) r
Seg-append next p [] q ys r e t = rw e t
Seg-append next p (a ∷ xs) q ys r (e, s) t = (e, Seg-append next (next a) xs q ys r s t)

pub Apart-append : (a : ℕ) (xs ys : List ℕ) → Apart a xs → Apart a ys → Apart a (xs ++ ys)
Apart-append a [] ys m n = n
Apart-append a (b ∷ xs) ys (e, m) n = (e, Apart-append a xs ys m n)

-- A write at the last address of a path turns its end.
pub Seg-link_last :
    (next : Links) (p : Option ℕ) (xs : List ℕ) (a : ℕ) (q r : Option ℕ)
    → Apart a xs
    → Seg next p (xs ++ a ∷ []) q
    → Seg (link next a r) p (xs ++ a ∷ []) r
Seg-link_last next p [] a q r n (e, s) = (e, link_same next a r)
Seg-link_last next p (b ∷ xs) a q r (m, n) (e, s) =
    (e, rw (link_other next a b r m) (Seg-link_last next (next b) xs a q r n s))

pub last_of-append : (p : Option ℕ) (xs : List ℕ) (a : ℕ) → last_of p (xs ++ a ∷ []) ≡ some a
last_of-append p [] a = refl
last_of-append p (b ∷ xs) a = last_of-append (some b) xs a

pub Distinct-append_one : (xs : List ℕ) (a : ℕ) → Distinct xs → Apart a xs → Distinct (xs ++ a ∷ [])
Distinct-append_one [] a d n = (tt, tt)
Distinct-append_one (b ∷ xs) a (m, d) (e, n) =
    (Apart-append b xs (a ∷ []) m ((λ q. e (sym q)), tt), Distinct-append_one xs a d n)

-- A list is empty or has a last element.
pub last_cases : (xs : List ℕ) → (xs ≡ []) ⊎ ((ys : List ℕ) × (a : ℕ) × (xs ≡ ys ++ a ∷ []))
last_cases [] = inl refl
last_cases (x ∷ xs) = elim (last_cases xs) [
  | inl e ↦ inr ([], x, ap (λ l. x ∷ l) e)
  | inr (ys, a, e) ↦ inr (x ∷ ys, a, ap (λ l. x ∷ l) e)
]

pub Apart-split : (a : ℕ) (xs ys : List ℕ) → Apart a (xs ++ ys) → Apart a xs × Apart a ys
Apart-split a [] ys n = (tt, n)
Apart-split a (x ∷ xs) ys (e, n) = let (m, k) = Apart-split a xs ys n in ((e, m), k)

-- An element of a list of distinct addresses is apart from what is before it and behind it.
pub Distinct-split :
    (xs : List ℕ) (a : ℕ) (ys : List ℕ)
    → Distinct (xs ++ a ∷ ys)
    → Apart a xs × Apart a ys × Distinct (xs ++ ys)
Distinct-split [] a ys (n, d) = (tt, n, d)
Distinct-split (x ∷ xs) a ys (n, d) =
    let (m, k, e) = Distinct-split xs a ys d in
    let (front, (ne, behind)) = Apart-split x xs (a ∷ ys) n in
    (((λ q. ne (sym q)), m), k, (Apart-append x xs ys front behind, e))

pub Distinct-insert :
    (xs : List ℕ) (a : ℕ) (ys : List ℕ)
    → Apart a xs
    → Apart a ys
    → Distinct (xs ++ ys)
    → Distinct (xs ++ a ∷ ys)
Distinct-insert [] a ys m n d = (n, d)
Distinct-insert (x ∷ xs) a ys (ne, m) n (k, d) =
    let (front, behind) = Apart-split x xs ys k in
    (Apart-append x xs (a ∷ ys) front ((λ q. ne (sym q)), behind), Distinct-insert xs a ys m n d)

-- The part of a path up to an address of it.
pub Seg-front :
    (next : Links) (p : Option ℕ) (xs : List ℕ) (a : ℕ) (ys : List ℕ) (q : Option ℕ)
    → Seg next p (xs ++ a ∷ ys) q
    → Seg next p (xs ++ a ∷ []) (next a)
Seg-front next p [] a ys q (e, s) = (e, refl)
Seg-front next p (x ∷ xs) a ys q (e, s) = (e, Seg-front next (next x) xs a ys q s)

-- A path to NULL is determined by where it starts.
Seg-unique :
    (next : Links) (p : Option ℕ) (xs ys : List ℕ)
    → Seg next p xs none
    → Seg next p ys none
    → xs ≡ ys
Seg-unique next p [] [] s u = refl
Seg-unique next p [] (b ∷ ys) s (e, u) = cc
Seg-unique next p (a ∷ xs) [] (e, s) u = cc
Seg-unique next p (a ∷ xs) (b ∷ ys) (e, s) (e', u) =
    let same : a ≡ b = cc in
    rw same (
      ap (λ l. b ∷ l)
        (Seg-unique next (next b) xs ys (subst (λ x. Seg next (next x) xs none) same s) u))

-- A node whose pointer leads through all of `full` to NULL is on no path that is not longer.
Seg-Apart :
    (next : Links) (a : ℕ) (full : List ℕ) (p : Option ℕ) (xs : List ℕ)
    → Seg next (next a) full none
    → Seg next p xs none
    → length xs ≤ length full
    → Apart a xs
Seg-Apart next a full p [] s u le = tt
Seg-Apart next a full p (b ∷ xs) s (e, u) le = (
  (λ same.
      let all : full ≡ xs =
        Seg-unique next (next a) full xs s (subst (λ x. Seg next (next x) xs none) same u) in
      let long = ap length all in omega arith),
  Seg-Apart next a full (next b) xs s u (omega arith),
)

-- A path to NULL meets no address twice.
pub Seg-Distinct : (next : Links) (p : Option ℕ) (xs : List ℕ) → Seg next p xs none → Distinct xs
Seg-Distinct next p [] s = tt
Seg-Distinct next p (a ∷ xs) (e, s) =
    (Seg-Apart next a xs (next a) xs s s (omega arith), Seg-Distinct next (next a) xs s)

-- `if (prev != NULL) prev->next = node; else head = node;`, for `next` and for `head`.
abbrev pub behind_prev : Option ℕ → ℕ → Links → Links
behind_prev none node next = next
behind_prev (some prev) node next = link next prev (some node)

abbrev pub head_or : Option ℕ → ℕ → Option ℕ → Option ℕ
head_or none node head = some node
head_or (some prev) node head = head

pub Distinct-front : (xs ys : List ℕ) → Distinct (xs ++ ys) → Distinct xs
Distinct-front [] ys d = tt
Distinct-front (x ∷ xs) ys (n, d) = ((Apart-split x xs ys n).0, Distinct-front xs ys d)

-- A node behind `prev`, whatever its own pointer is.
pub attach :
    (next : Links) (head prev : Option ℕ) (front : List ℕ) (q : Option ℕ) (a : ℕ)
    → prev ≡ last_of none front
    → Distinct front
    → Apart a front
    → Seg next head front q
    → Seg (behind_prev prev a next) (head_or prev a head) (front ++ a ∷ []) (next a)
attach next head prev front q a e d n s = elim (last_cases front) [
  | inl none_there ↦ rw (e, none_there) (refl, refl)
  | inr (fr, p, snoc) ↦
      let (apart_fr, (ne, _)) = Apart-split a fr (p ∷ []) (subst (Apart a) snoc n) in
      let (p_fr, _, _) = Distinct-split fr p [] (subst Distinct snoc d) in
      let path = subst (λ l. Seg next head l q) snoc s in
      rw (e, snoc, last_of-append none fr p)
        (Seg-append (link next p (some a)) head (fr ++ p ∷ []) (some a) (a ∷ []) (next a)
          (Seg-link_last next head fr p q (some a) p_fr path)
          (refl, link_other next p a (some a) (λ h. ne (sym h))))
]

-- Writing what is there already changes nothing.
pub Seg-link_id :
    (next : Links) (a : ℕ) (r p : Option ℕ) (xs : List ℕ) (q : Option ℕ)
    → next a ≡ r
    → Seg next p xs q
    → Seg (link next a r) p xs q
Seg-link_id next a r p [] q e s = s
Seg-link_id next a r p (b ∷ xs) q e (h, s) =
    (h, rw (link_id next a b r e) (Seg-link_id next a r (next b) xs q e s))
