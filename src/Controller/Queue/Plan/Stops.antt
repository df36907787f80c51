-- ===== src/Controller/Queue/Plan/Stops.antt =====
-- The plan for a call in the direction of the car keeps the queue and serves the call.
use mathlib.Core.List.{Sublistᴰ}
use mathlib.Core.List.Sublistᴰ
use cab403work.Base.{◌≡◌, refl, sym, ap, ◌∙◌, true, false, not, List, [], ◌∷◌, arith, if_both}
use cab403work.Libc.{streq_iff}
use cab403work.Controller.State.{Direction, same_direction, FloorNode}
use cab403work.Controller.Queue.{past, same_stop}
use cab403work.Controller.Queue.Plan.{insert_stop, insert_call}

same_stop→≡ : (a b : FloorNode) → same_stop a b ≡ true → a ≡ b
same_stop→≡ a b h = ground (arith, streq_iff a.floor b.floor)

keep : (l : List FloorNode) → Sublistᴰ l l
keep l = Sublistᴰ.refl l

none_of : (l : List FloorNode) → Sublistᴰ [] l
none_of [] = Sublistᴰ.slnil
none_of (x ∷ l) = Sublistᴰ.cons (none_of l)

first : (x : FloorNode) (l : List FloorNode) → Sublistᴰ (x ∷ []) (x ∷ l)
first x l = Sublistᴰ.cons-cons refl (none_of l)

module _ (direction : Direction) where
  -- One more stop keeps the others.
  insert_stop-sublist :
      (node : FloorNode) (queue : List FloorNode)
      → Sublistᴰ queue (insert_stop direction node queue)
  unfolding insert_stop
  insert_stop-sublist node [] = Sublistᴰ.cons Sublistᴰ.slnil
  insert_stop-sublist node (curr ∷ rest) =
      let P = Sublistᴰ (curr ∷ rest) in
      if_both P (not (same_direction curr.direction direction)) (λ _. Sublistᴰ.cons (keep _))
        λ _.
          if_both P (past direction curr node)
            (λ _. if_both P (same_stop curr node) (λ _. keep _) (λ _. Sublistᴰ.cons (keep _)))
            (λ _. Sublistᴰ.cons-cons refl (insert_stop-sublist node rest))

  -- The new stop is in the queue.
  insert_stop-serves :
      (node : FloorNode) (queue : List FloorNode)
      → Sublistᴰ (node ∷ []) (insert_stop direction node queue)
  unfolding insert_stop
  insert_stop-serves node [] = keep _
  insert_stop-serves node (curr ∷ rest) =
      let P = Sublistᴰ (node ∷ []) in
      if_both P (not (same_direction curr.direction direction)) (λ _. first node _)
        λ _.
          if_both P (past direction curr node)
            (λ _.
              if_both P (same_stop curr node)
                (λ same. Sublistᴰ.cons-cons (sym (same_stop→≡ curr node same)) (none_of _))
                (λ _. first node _))
            (λ _. Sublistᴰ.cons (insert_stop-serves node rest))

  behind_start :
      (curr to_node : FloorNode) (rest : List FloorNode)
      → not (same_direction curr.direction direction) ≡ false
      → past direction curr to_node ≡ false
      → insert_stop direction to_node (curr ∷ rest) ≡ curr ∷ insert_stop direction to_node rest
  unfolding insert_stop
  behind_start curr to_node rest inside short = rw (inside, short)

  -- The plan for a call keeps every stop of the queue, in its order.
  pub insert_call-sublist :
      (from_node to_node : FloorNode) (queue : List FloorNode)
      → Sublistᴰ queue (insert_call direction from_node to_node queue)
  unfolding insert_call
  insert_call-sublist from_node to_node [] = none_of _
  insert_call-sublist from_node to_node (curr ∷ rest) =
      let P = Sublistᴰ (curr ∷ rest) in
      if_both P (not (same_direction curr.direction direction))
        (λ _. Sublistᴰ.cons (Sublistᴰ.cons (keep _)))
        λ _.
          if_both P (past direction curr from_node)
            (λ _.
              if_both P (same_stop curr from_node) (λ _. insert_stop-sublist to_node (curr ∷ rest))
                (λ _. Sublistᴰ.cons (insert_stop-sublist to_node (curr ∷ rest))))
            (λ _. Sublistᴰ.cons-cons refl (insert_call-sublist from_node to_node rest))

  -- Where the destination lies strictly behind the start, the plan has the stop of the start and
  -- behind it the stop of the destination.
  pub insert_call-serves :
      (from_node to_node : FloorNode) (queue : List FloorNode)
      → past direction from_node to_node ≡ false
      → Sublistᴰ (from_node ∷ to_node ∷ []) (insert_call direction from_node to_node queue)
  unfolding insert_call
  insert_call-serves from_node to_node [] way = keep _
  insert_call-serves from_node to_node (curr ∷ rest) way =
      let P = Sublistᴰ (from_node ∷ to_node ∷ []) in
      if_both P (not (same_direction curr.direction direction))
        (λ _. Sublistᴰ.cons-cons refl (first to_node _))
        λ inside.
          if_both P (past direction curr from_node)
            (λ _.
              if_both P (same_stop curr from_node)
                (λ same.
                  let e = same_stop→≡ curr from_node same in
                  rw
                    (behind_start curr to_node rest inside
                      (ap (λ c. past direction c to_node) e ∙ way))
                    (Sublistᴰ.cons-cons (sym e) (insert_stop-serves to_node rest)))
                (λ _. Sublistᴰ.cons-cons refl (insert_stop-serves to_node (curr ∷ rest))))
            (λ _. Sublistᴰ.cons (insert_call-serves from_node to_node rest way))
