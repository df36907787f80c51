-- ===== src/ShmIpc/Turns.antt =====
-- The turns of assignment1/sharedMemory/shm_ipc.c: what they keep, and what is left of them.
use cab403work.Base.{
  ◌≤◌, ◌<◌, ◌≡◌, ◌⊎◌, inl, inr, refl, arith, Bool, true, false, [], ◌∷◌, ◌++◌, map,
}
use cab403work.ShmIpc.{Arithmetic}
use cab403work.ShmIpc.Phases.{
  answer, Phase, calm, wrote, asked, taken, did, replied, got, quit_wrote, quit_asked, quit_taken,
  quit_did, quit_replied, quit_got, quit_calm, over, open_calls, AllWork, rank, next, prints,
}

module _ {D : Type 0} (arithmetic : Arithmetic D) where
  -- A turn keeps the results that are printed or to come, and does not add to what is left.
  pub next-Kept :
      (side : Bool) (p : Phase arithmetic)
      → (prints arithmetic side p
            ++ map (answer arithmetic) (open_calls arithmetic (next arithmetic side p))
          ≡ map (answer arithmetic) (open_calls arithmetic p))
        × (AllWork arithmetic (open_calls arithmetic p)
            → AllWork arithmetic (open_calls arithmetic (next arithmetic side p)))
        × (rank arithmetic (next arithmetic side p) ≤ rank arithmetic p)
  unfolding next AllWork
  next-Kept true (calm [] q x) = (refl, (λ h. h), omega arith)
  next-Kept true (calm (r ∷ qs) q x) = (refl, (λ h. h), omega arith)
  next-Kept true (wrote q qs x) = (refl, (λ h. h), omega arith)
  next-Kept true (asked q qs x) = (refl, (λ h. h), omega arith)
  next-Kept true (taken q qs x) = (refl, (λ h. h), omega arith)
  next-Kept true (did q qs) = (refl, (λ h. h), omega arith)
  next-Kept true (replied q qs) = (refl, (λ h. h), omega arith)
  next-Kept true (got q qs) = (refl, (λ h. h.1), omega arith)
  next-Kept true (quit_wrote x) = (refl, (λ h. h), omega arith)
  next-Kept true (quit_asked x) = (refl, (λ h. h), omega arith)
  next-Kept true (quit_taken x) = (refl, (λ h. h), omega arith)
  next-Kept true (quit_did x) = (refl, (λ h. h), omega arith)
  next-Kept true (quit_replied b x) = (refl, (λ h. h), omega arith)
  next-Kept true (quit_got b x) = (refl, (λ h. h), omega arith)
  next-Kept true (quit_calm b x) = (refl, (λ h. h), omega arith)
  next-Kept true (over b x) = (refl, (λ h. h), omega arith)
  next-Kept false (calm [] q x) = (refl, (λ h. h), omega arith)
  next-Kept false (calm (r ∷ qs) q x) = (refl, (λ h. h), omega arith)
  next-Kept false (wrote q qs x) = (refl, (λ h. h), omega arith)
  next-Kept false (asked q qs x) = (refl, (λ h. h), omega arith)
  next-Kept false (taken q qs x) = (refl, (λ h. h), omega arith)
  next-Kept false (did q qs) = (refl, (λ h. h), omega arith)
  next-Kept false (replied q qs) = (refl, (λ h. h), omega arith)
  next-Kept false (got q qs) = (refl, (λ h. h), omega arith)
  next-Kept false (quit_wrote x) = (refl, (λ h. h), omega arith)
  next-Kept false (quit_asked x) = (refl, (λ h. h), omega arith)
  next-Kept false (quit_taken x) = (refl, (λ h. h), omega arith)
  next-Kept false (quit_did x) = (refl, (λ h. h), omega arith)
  next-Kept false (quit_replied false x) = (refl, (λ h. h), omega arith)
  next-Kept false (quit_replied true x) = (refl, (λ h. h), omega arith)
  next-Kept false (quit_got false x) = (refl, (λ h. h), omega arith)
  next-Kept false (quit_got true x) = (refl, (λ h. h), omega arith)
  next-Kept false (quit_calm false x) = (refl, (λ h. h), omega arith)
  next-Kept false (quit_calm true x) = (refl, (λ h. h), omega arith)
  next-Kept false (over false x) = (refl, (λ h. h), omega arith)
  next-Kept false (over true x) = (refl, (λ h. h), omega arith)

  -- A turn of the one or of the other has an effect, before both are at their ends.
  pub next-rank :
      (p : Phase arithmetic)
      → (rank arithmetic p ≡ 0)
        ⊎ (rank arithmetic (next arithmetic false (next arithmetic true p)) < rank arithmetic p)
  unfolding next
  next-rank (calm [] q x) = inr (omega arith)
  next-rank (calm (r ∷ qs) q x) = inr (omega arith)
  next-rank (wrote q qs x) = inr (omega arith)
  next-rank (asked q qs x) = inr (omega arith)
  next-rank (taken q qs x) = inr (omega arith)
  next-rank (did q qs) = inr (omega arith)
  next-rank (replied q qs) = inr (omega arith)
  next-rank (got q qs) = inr (omega arith)
  next-rank (quit_wrote x) = inr (omega arith)
  next-rank (quit_asked x) = inr (omega arith)
  next-rank (quit_taken x) = inr (omega arith)
  next-rank (quit_did x) = inr (omega arith)
  next-rank (quit_replied false x) = inr (omega arith)
  next-rank (quit_replied true x) = inr (omega arith)
  next-rank (quit_got false x) = inr (omega arith)
  next-rank (quit_got true x) = inr (omega arith)
  next-rank (quit_calm false x) = inr (omega arith)
  next-rank (quit_calm true x) = inr (omega arith)
  next-rank (over false x) = inr (omega arith)
  next-rank (over true x) = inl refl

  pub rank_zero : (p : Phase arithmetic) → rank arithmetic p ≡ 0 → (x : D) × (p ≡ over true x)
  rank_zero (over true x) e = (x, refl)
  rank_zero (calm qs q x) e = absurd (omega arith)
  rank_zero (wrote q qs x) e = absurd (omega arith)
  rank_zero (asked q qs x) e = absurd (omega arith)
  rank_zero (taken q qs x) e = absurd (omega arith)
  rank_zero (did q qs) e = absurd (omega arith)
  rank_zero (replied q qs) e = absurd (omega arith)
  rank_zero (got q qs) e = absurd (omega arith)
  rank_zero (quit_wrote x) e = absurd (omega arith)
  rank_zero (quit_asked x) e = absurd (omega arith)
  rank_zero (quit_taken x) e = absurd (omega arith)
  rank_zero (quit_did x) e = absurd (omega arith)
  rank_zero (quit_replied b x) e = absurd (omega arith)
  rank_zero (quit_got b x) e = absurd (omega arith)
  rank_zero (quit_calm b x) e = absurd (omega arith)
  rank_zero (over false x) e = absurd (omega arith)
