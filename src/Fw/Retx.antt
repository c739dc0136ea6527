-- ===== src/Fw/Retx.antt =====
-- daemon/fw/retx-suppression-exponential.cpp and retx-suppression-fixed.cpp. The multiplication of
-- an interval by the float `m_multiplier`, cast back to a Duration, is the parameter `multiply`.
-- The outer `none` of a decision is the failed assertion of `getLastOutgoing`.
pub mod Laws
use nfd_out_of_the_box.Pit.{Entry, OutRecord, FaceRecord, get_out_record, out_face}
use nfd_out_of_the_box.Pit.Records.{modify_record}
use nfd_out_of_the_box.Packet.{FaceRef}
use nfd_out_of_the_box.Fw.Algorithm.{has_pending_out_records, get_last_outgoing}
use nfd_out_of_the_box.Prelude.{
  ℕ, zero, suc, ◌+◌, ◌-◌, ◌*◌, ◌/◌, ◌%◌, ◌^◌, ◌≤◌, ◌<◌, min, max, ◌≡◌, refl, sym, ap, ◌∙◌, subst,
  ◌≢◌, ◌↔◌, ◌⊎◌, inl, inr, Bool, true, false, not, ◌&&◌, ◌||◌, Option, none, some, List, [], ◌∷◌,
  ◌++◌, map, arith, ltb, leb, ◌==◌, if◌then◌else◌, Bool-cases, Option-cases, ==_iff,
}

pub data RetxSuppressionResult : Type 0 where
  new forward suppress : RetxSuppressionResult

pub record RetxSuppressionExponential : Type 0 where
  pub initial_interval : ℕ
  pub multiply : ℕ → ℕ
  pub max_interval : ℕ

-- `insertStrategyInfo<PitInfo>(m_initialInterval)`: the interval that is there, or the initial one.
abbrev pub interval_or : ℕ → Option ℕ → ℕ
interval_or d none = d
interval_or d (some t) = t

abbrev pub with_interval : ℕ → OutRecord → OutRecord
with_interval t r = record r { base = record (r.base) { suppression_interval = some t } }

module _ {N : Type 0} (x : RetxSuppressionExponential) where
  unfoldable pub decide_per_pit_entry : ℕ → Entry N → Option (RetxSuppressionResult × Entry N)
  decide_per_pit_entry now e =
      if not (has_pending_out_records now e) then some (new, e) else elim (get_last_outgoing e) [
        | none ↦ none
        | some last ↦
            let interval = interval_or x.initial_interval e.suppression_interval in
            if ltb (now - last) interval
            then some (suppress, record e { suppression_interval = some interval })
            else some (
              forward,
              record e { suppression_interval = some (min x.max_interval (x.multiply interval)) },
            )
      ]

  unfoldable pub decide_per_upstream : ℕ → Entry N → FaceRef → RetxSuppressionResult × Entry N
  decide_per_upstream now e f = elim (get_out_record f e) [
    | none ↦ (new, e)
    | some r ↦
        let interval = interval_or x.initial_interval r.suppression_interval in
        (
          if ltb (now - r.last_renewed) interval then suppress else forward,
          record e {
            out_records = modify_record out_face f (with_interval interval) e.out_records;
          },
        )
  ]

unfoldable pub increment_interval_for_out_record :
    RetxSuppressionExponential → OutRecord → OutRecord
increment_interval_for_out_record x r = record r {
  base = record (r.base) {
    suppression_interval =
        some
          (min x.max_interval (x.multiply (interval_or x.initial_interval r.suppression_interval)));
  };
}

-- `RetxSuppressionFixed::decidePerPitEntry`
unfoldable pub decide_per_pit_entry_fixed :
    {N : Type 0} → ℕ → ℕ → Entry N → Option RetxSuppressionResult
decide_per_pit_entry_fixed min_retx_interval now e =
    if not (has_pending_out_records now e) then some new else elim (get_last_outgoing e) [
      | none ↦ none
      | some last ↦ some (if ltb (now - last) min_retx_interval then suppress else forward)
    ]
