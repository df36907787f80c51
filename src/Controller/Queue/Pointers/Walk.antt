-- ===== src/Controller/Queue/Pointers/Walk.antt =====
-- Paths through the nodes under the writes of assignment2/controller.c,
-- `insert_floors_into_queue`.
use cab403work.Base.{
  ℕ, ◌≡◌, ◌≢◌, refl, sym, ap, ◌∙◌, inl, inr, List, [], ◌∷◌, ◌++◌, append_assoc, Option, none, some,
  subst,
}
use cab403work.Links.{
  behind_prev, attach, Distinct-front, Links, link, Seg, Apart, Distinct, last_of, link_same,
  Seg-link, Seg-append, Seg-link_last, last_of-append, last_cases, Apart-append, Distinct-split,
  Seg-front,
}
use cab403work.Controller.Queue.Pointers.{Cursor, link_in}

-- The nodes up to `prev`, and those from `curr` on.
pub record At (s : Cursor) (front rest : List ℕ) : Type 0 where
  pub prev : s.prev ≡ last_of none front
  pub path : Seg s.next s.head front s.curr
  pub ahead : Seg s.next s.curr rest none
  pub distinct : Distinct (front ++ rest)

pub attach_ahead :
    (next : Links) (prev curr : Option ℕ) (front rest : List ℕ) (a : ℕ)
    → prev ≡ last_of none front
    → Distinct (front ++ rest)
    → Seg next curr rest none
    → Seg (behind_prev prev a next) curr rest none
attach_ahead next prev curr front rest a e d s = elim (last_cases front) [
  | inl none_there ↦ rw (e, none_there) s
  | inr (fr, p, snoc) ↦
      let all : Distinct (fr ++ p ∷ rest) =
        subst Distinct (ap (λ l. l ++ rest) snoc ∙ append_assoc fr (p ∷ []) rest) d in
      rw (e, snoc, last_of-append none fr p)
        (Seg-link next p (some a) curr rest none (Distinct-split fr p rest all).1 s)
]

-- `link_in` puts the node between `prev` and `curr`.
pub link_in-At :
    (s : Cursor) (front rest : List ℕ) (a : ℕ)
    → At s front rest
    → Apart a front
    → Apart a rest
    → Distinct ((front ++ a ∷ []) ++ rest)
    → At (link_in a s) (front ++ a ∷ []) rest
unfolding link_in
link_in-At s front rest a h m n d = record {
  prev = sym (last_of-append none front a);
  path = subst (Seg _ _ (front ++ a ∷ [])) (link_same s.next a s.curr) (
      attach (link s.next a s.curr) s.head s.prev front s.curr a h.prev
        (Distinct-front front rest h.distinct) m
        (Seg-link s.next a s.curr s.head front s.curr m h.path));
  ahead =
      attach_ahead (link s.next a s.curr) s.prev s.curr front rest a h.prev h.distinct
        (Seg-link s.next a s.curr s.curr rest none n h.ahead);
  distinct = d;
}

-- `from_node->next = to_node; to_node->next = curr`, where the path leads through `from_node`.
pub cut_lem :
    (next : Links) (head curr q : Option ℕ) (before mid rest : List ℕ) (f t : ℕ)
    → f ≢ t
    → Apart f before
    → Apart f rest
    → Apart t before
    → Apart t rest
    → Seg next head (before ++ f ∷ mid) q
    → Seg next curr rest none
    → Seg (link (link next f (some t)) t curr) head (before ++ f ∷ t ∷ rest) none
cut_lem next head curr q before mid rest f t ne f_before f_rest t_before t_rest s r =
    let next' = link next f (some t) in
    let next'' = link next' t curr in
    let path : Seg next'' head (before ++ f ∷ []) (some t) =
      Seg-link next' t curr head (before ++ f ∷ []) (some t)
        (Apart-append t before (f ∷ []) t_before (ne, tt))
        (Seg-link_last next head before f (next f) (some t) f_before
          (Seg-front next head before f mid q s)) in
    let behind : Seg next'' curr rest none =
      Seg-link next' t curr curr rest none t_rest
        (Seg-link next f (some t) curr rest none f_rest r) in
    subst (λ l. Seg next'' head l none) (append_assoc before (f ∷ []) (t ∷ rest))
      (Seg-append next'' head (before ++ f ∷ []) (some t) (t ∷ rest) none path
        (refl, rw (link_same next' t curr) behind))
