-- ===== src/Fw/Retx/Laws.antt =====
-- What the suppression decides, and the range of the interval that it keeps.
use nfd_out_of_the_box.Pit.{Entry}
use nfd_out_of_the_box.Fw.Algorithm.{has_pending_out_records, get_last_outgoing}
use nfd_out_of_the_box.Fw.Algorithm.Nonces.{get_last_outgoing_max}
use nfd_out_of_the_box.Fw.Retx.{
  RetxSuppressionExponential, RetxSuppressionResult, new, forward, suppress, interval_or,
  decide_per_pit_entry, decide_per_pit_entry_fixed,
}
use nfd_out_of_the_box.Prelude.{
  ℕ, ◌-◌, ◌≤◌, ◌<◌, min, ◌≡◌, refl, ◌⊎◌, inl, inr, true, false, Option, none, some, arith, ltb,
  Bool-cases,
}

-- The assertions of the constructor; `multiplier >= 1` says that `multiply` shrinks nothing.
pub record IsValid (x : RetxSuppressionExponential) : Type 0 where
  pub positive : 0 < x.initial_interval
  pub ordered : x.initial_interval ≤ x.max_interval
  pub grows : (t : ℕ) → t ≤ x.multiply t

abbrev pub InRange : RetxSuppressionExponential → Option ℕ → Type 0
InRange x none = Unit {0}
InRange x (some t) = (x.initial_interval ≤ t) × (t ≤ x.max_interval)

interval_or-InRange :
    (x : RetxSuppressionExponential) (o : Option ℕ)
    → IsValid x
    → InRange x o
    → (x.initial_interval ≤ interval_or x.initial_interval o)
      × (interval_or x.initial_interval o ≤ x.max_interval)
interval_or-InRange x none v r = omega arith
interval_or-InRange x (some t) v r = r

-- An exponential suppression with one interval.
abbrev pub fixed : ℕ → RetxSuppressionExponential
fixed d = record { initial_interval = d; multiply = λ t. t; max_interval = d }

module _ {N : Type 0} where
  abbrev pub map_result : Option (RetxSuppressionResult × Entry N) → Option RetxSuppressionResult
  map_result none = none
  map_result (some (res, e)) = some res

  -- What `decidePerPitEntry` returns, by the time of the last outgoing Interest.
  abbrev pub Decides :
      RetxSuppressionExponential → ℕ → Entry N → RetxSuppressionResult → Entry N → Type 0
  Decides x now e res e' =
      ((has_pending_out_records now e ≡ false) × (res ≡ new) × (e' ≡ e))
      ⊎ ((last : ℕ) × (t : ℕ) × (has_pending_out_records now e ≡ true)
          × (get_last_outgoing e ≡ some last)
          × (e' ≡ record e { suppression_interval = some t })
          × (interval_or x.initial_interval e.suppression_interval ≤ t)
          × ((res ≡ suppress)
                × (now - last < interval_or x.initial_interval e.suppression_interval)
                × (t ≡ interval_or x.initial_interval e.suppression_interval)
              ⊎ (res ≡ forward)
                × (interval_or x.initial_interval e.suppression_interval ≤ now - last)))

  -- `decidePerPitEntry` always returns: NEW exactly when no out-record is pending, and then the
  -- entry is as it was; otherwise SUPPRESS while less than the interval has passed since the last
  -- outgoing Interest, and FORWARD after it. The interval never shrinks and stays between the
  -- initial and the maximal one.
  pub decide_per_pit_entry_lem :
      (x : RetxSuppressionExponential) (now : ℕ) (e : Entry N)
      → IsValid x
      → InRange x e.suppression_interval
      → (res : RetxSuppressionResult) × (e' : Entry N) × (decide_per_pit_entry x now e
          ≡ some (res, e'))
        × Decides x now e res e'
        × InRange x e'.suppression_interval
  unfolding decide_per_pit_entry
  decide_per_pit_entry_lem x now e v r = elim (Bool-cases (has_pending_out_records now e)) [
    | inr idle ↦ (new, e, rw idle, inl (idle, refl, refl), r)
    | inl pending ↦
        let (last, o, _) = get_last_outgoing_max now e pending in
        let interval : ℕ = interval_or x.initial_interval e.suppression_interval in
        let next : ℕ = min x.max_interval (x.multiply interval) in
        let (lo, hi) = interval_or-InRange x e.suppression_interval v r in
        let grown : interval ≤ x.multiply interval = v.grows interval in
        elim (Bool-cases (ltb (now - last) interval)) [
          | inl early ↦ (
            suppress,
            record e { suppression_interval = some interval },
            rw (pending, o, early),
            inr (last, interval, pending, o, refl, omega arith, inl (refl, ground arith, refl)),
            (lo, hi),
          )
          | inr late ↦ (
            forward,
            record e { suppression_interval = some next },
            rw (pending, o, late),
            inr (last, next, pending, o, refl, omega arith, inr (refl, ground arith)),
            (omega arith, omega arith),
          )
        ]
  ]

  -- The fixed suppression is the exponential one whose interval cannot grow: on an entry whose
  -- stored interval, if any, is the fixed one, both make the same decision.
  pub decide_per_pit_entry_fixed_lem :
      (d now : ℕ) (e : Entry N)
      → interval_or d e.suppression_interval ≡ d
      → map_result (decide_per_pit_entry (fixed d) now e) ≡ decide_per_pit_entry_fixed d now e
  unfolding decide_per_pit_entry decide_per_pit_entry_fixed
  decide_per_pit_entry_fixed_lem d now e h = ground arith
