-- ===== src/Safety/Checks.antt =====
-- What one round of assignment2/safety.c does to the shared memory.
use cab403work.Base.{
  ℕ, ◌≤◌, ◌≡◌, ◌≢◌, ◌↔◌, sym, ap, ◌∙◌, ◌⊎◌, inl, inr, Bool, Bool-cases, false, not, ◌&&◌, ◌||◌, [],
  ltb, ◌==◌, arith, length,
}
use mathlib.Core.Bool.{false≢true}
use native.Mathlib.Decide.{ℕ_discrete}
use cab403work.Base.Text.{Bytes}
use cab403work.Libc.{streq, streq_iff}
use cab403work.Shared.Memory.{SharedMem, opening, closing}
use cab403work.Safety.{
  validate_floor_input, validate_status, safe_strcmp, safe_strncpy, Watch, inconsistent,
  check_obstruction, check_stop, check_overload, check_data, watch,
}
use cab403work.Safety.Texts.{
  IsPanelText, IsStatus, validate_floor_input_iff, validate_status_iff, safe_strcmp-streq,
}

-- What the last check asks for: floors of the right shape, one of the five statuses, flags of 0 or
-- 1, and an obstruction only while the doors move.
pub record IsConsistent (m : SharedMem) : Type 0 where
  pub floors : IsPanelText m.current_floor × IsPanelText m.destination_floor
  pub status : IsStatus m.status
  pub buttons : (m.open_button ≤ 1) × (m.close_button ≤ 1)
  pub sensors : (m.door_obstruction ≤ 1) × (m.overload ≤ 1) × (m.emergency_stop ≤ 1)
  pub modes : (m.individual_service_mode ≤ 1) × (m.emergency_mode ≤ 1)
  pub obstruction : m.door_obstruction ≡ 1 → (m.status ≡ opening) ⊎ (m.status ≡ closing)

none_of :
    (floor target text open_one close_one door_one load_one stop_one service_one emergency_one
      blocked : Bool)
    → (floor || target || text || open_one || close_one || door_one || load_one || stop_one
          || service_one || emergency_one || blocked
        ≡ false)
      ↔ ((floor ≡ false)
          × (target ≡ false)
          × (text ≡ false)
          × (open_one ≡ false)
          × (close_one ≡ false)
          × (door_one ≡ false)
          × (load_one ≡ false)
          × (stop_one ≡ false)
          × (service_one ≡ false)
          × (emergency_one ≡ false)
          × (blocked ≡ false))
none_of floor target text open_one close_one door_one load_one stop_one service_one emergency_one
      blocked =
    ground arith

module _ (m : SharedMem) where
  floor_lem : (s : Bytes) → (not (validate_floor_input s) ≡ false) ↔ IsPanelText s
  floor_lem s = ground (arith, validate_floor_input_iff s)

  status_lem : (not (validate_status m.status) ≡ false) ↔ IsStatus m.status
  status_lem = ground (arith, validate_status_iff m.status)

  blocked_lem :
      (m.door_obstruction == 1
          && not (safe_strcmp m.status opening 8 || safe_strcmp m.status closing 8)
        ≡ false)
      ↔ (m.door_obstruction ≡ 1 → (m.status ≡ opening) ⊎ (m.status ≡ closing))
  blocked_lem = rw (safe_strcmp-streq m.status opening 8 (omega arith)) (
      rw (safe_strcmp-streq m.status closing 8 (omega arith))
        (ground (arith, streq_iff m.status opening, streq_iff m.status closing)))

  flag_lem : (n : ℕ) → (ltb 1 n ≡ false) ↔ (n ≤ 1)
  flag_lem n = ground arith

-- The long condition of the last check is false exactly for memory whose floors have the right
-- shape, whose status is one of the five, whose flags are 0 or 1, and whose door is obstructed
-- only while it opens or closes.
inconsistent_iff : (m : SharedMem) → (inconsistent m ≡ false) ↔ IsConsistent m
unfolding inconsistent
inconsistent_iff m = (
  λ h.
      let (flo0, tar1, tex2, ope3, clo4, doo5, loa6, sto7, ser8, eme9, blo10) =
        (none_of _ _ _ _ _ _ _ _ _ _ _).0 h in
      record {
        floors = ((floor_lem m m.current_floor).0 flo0, (floor_lem m m.destination_floor).0 tar1);
        status = (status_lem m).0 tex2;
        buttons = ((flag_lem m m.open_button).0 ope3, (flag_lem m m.close_button).0 clo4);
        sensors = (
          (flag_lem m m.door_obstruction).0 doo5,
          (flag_lem m m.overload).0 loa6,
          (flag_lem m m.emergency_stop).0 sto7,
        );
        modes =
            ((flag_lem m m.individual_service_mode).0 ser8, (flag_lem m m.emergency_mode).0 eme9);
        obstruction = (blocked_lem m).0 blo10;
      },
  λ c. (none_of _ _ _ _ _ _ _ _ _ _ _).1 (
    (floor_lem m m.current_floor).1 c.floors.0,
    (floor_lem m m.destination_floor).1 c.floors.1,
    (status_lem m).1 c.status,
    (flag_lem m m.open_button).1 c.buttons.0,
    (flag_lem m m.close_button).1 c.buttons.1,
    (flag_lem m m.door_obstruction).1 c.sensors.0,
    (flag_lem m m.overload).1 c.sensors.1,
    (flag_lem m m.emergency_stop).1 c.sensors.2,
    (flag_lem m m.individual_service_mode).1 c.modes.0,
    (flag_lem m m.emergency_mode).1 c.modes.1,
    (blocked_lem m).1 c.obstruction,
  ),
)

check_data-IsConsistent :
    (w : Watch) → IsConsistent (check_data w).memory ⊎ ((check_data w).memory.emergency_mode ≡ 1)
unfolding check_data
check_data-IsConsistent w = elim (Bool-cases (inconsistent w.memory)) [
  | inl bad ↦ rw bad (ground arith)
  | inr good ↦ inl (rw good (ground (arith, (inconsistent_iff w.memory).0 good)))
]

-- After a round the memory is consistent or the car is in emergency mode.
pub watch-IsConsistent :
    (m : SharedMem) → IsConsistent (watch m).memory ⊎ ((watch m).memory.emergency_mode ≡ 1)
unfolding watch
watch-IsConsistent m =
    check_data-IsConsistent
      (check_overload (check_stop (check_obstruction (record { memory = m; alarms = [] }))))

-- A pressed stop button or an overload puts the car into emergency mode, whatever else the memory
-- holds.
watch-emergency :
    (m : SharedMem)
    → (m.emergency_stop ≡ 1) ⊎ (m.overload ≡ 1)
    → (watch m).memory.emergency_mode ≡ 1
unfolding watch
watch-emergency m h = grind (arith, inconsistent_iff)

-- What a round may change: closing doors with an obstruction open again, and the emergency mode
-- is switched on; a line is printed exactly when it is.
pub record Watched (m : SharedMem) (w : Watch) : Type 0 where
  pub frame :
      w.memory ≡ record m { status = w.memory.status; emergency_mode = w.memory.emergency_mode }
  pub reopens : (m.door_obstruction ≡ 1) × (m.status ≡ closing) → w.memory.status ≡ opening
  pub keeps_status :
      ¬ ((m.door_obstruction ≡ 1) × (m.status ≡ closing)) → w.memory.status ≡ m.status
  pub mode :
      ((w.memory.emergency_mode ≡ m.emergency_mode) × (w.alarms ≡ []))
      ⊎ ((m.emergency_mode ≢ 1) × (w.memory.emergency_mode ≡ 1) × (length w.alarms ≡ 1))

-- A round changes at most the status and the emergency mode: closing doors with an obstruction
-- open again and any other status is kept; the mode is kept and no line is printed, or it was not
-- 1, is now 1, and one line is printed.
pub watch-Watched : (m : SharedMem) → Watched m (watch m)
unfolding watch safe_strncpy
watch-Watched m = ground (arith, safe_strcmp-streq m.status closing 8, streq_iff m.status closing)

quiet_watch :
    (m : SharedMem)
    → (m.door_obstruction ≡ 1 → m.status ≢ closing)
    → (m.emergency_mode ≡ 1) ⊎ (IsConsistent m × (m.emergency_stop ≢ 1) × (m.overload ≢ 1))
    → watch m ≡ record { memory = m; alarms = [] }
unfolding watch
quiet_watch m doors (inl mode) =
    ground (arith, safe_strcmp-streq m.status closing 8, streq_iff m.status closing)
quiet_watch m doors (inr (good, stop, load)) = ground (
  arith,
  safe_strcmp-streq m.status closing 8,
  streq_iff m.status closing,
  (inconsistent_iff m).1 good,
)

opening≢closing : opening ≢ closing
unfolding streq
opening≢closing e = false≢true ((streq_iff opening closing).1 e)

-- A second round directly behind a round changes nothing and prints nothing.
watch-watch :
    (m : SharedMem) → watch (watch m).memory ≡ record { memory = (watch m).memory; alarms = [] }
watch-watch m = quiet_watch (watch m).memory doors settled
  where
    w : Watched m (watch m)
    w = watch-Watched m

    doors : (watch m).memory.door_obstruction ≡ 1 → (watch m).memory.status ≢ closing
    doors obstructed e =
        let open_now : ¬ ((m.door_obstruction ≡ 1) × (m.status ≡ closing)) =
          λ p. opening≢closing (sym (w.reopens p) ∙ e) in
        open_now (
          sym (ap (λ n. n.door_obstruction) w.frame) ∙ obstructed,
          sym (w.keeps_status open_now) ∙ e,
        )

    settled :
        ((watch m).memory.emergency_mode ≡ 1)
        ⊎ (IsConsistent (watch m).memory
            × ((watch m).memory.emergency_stop ≢ 1)
            × ((watch m).memory.overload ≢ 1))
    settled = elim (ℕ_discrete (watch m).memory.emergency_mode 1) [
      | yes on ↦ inl on
      | no off ↦ elim (watch-IsConsistent m) [
        | inr on ↦ inl on
        | inl good ↦ inr (
          good,
          λ stop. off (watch-emergency m (inl (sym (ap (λ n. n.emergency_stop) w.frame) ∙ stop))),
          λ load. off (watch-emergency m (inr (sym (ap (λ n. n.overload) w.frame) ∙ load))),
        )
      ]
    ]
