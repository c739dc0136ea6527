-- ===== src/Fw/NackTraits.antt =====
-- daemon/fw/process-nack-traits.cpp. lp::isLessSevere of ndn-cxx is a parameter.
pub mod Laws
use nfd_out_of_the_box.Packet.{FaceRef, NackReason, no_reason}
use nfd_out_of_the_box.Pit.{Entry, OutRecord, get_in_record}
use nfd_out_of_the_box.Prelude.{
  ℕ, zero, suc, ◌+◌, ◌-◌, ◌*◌, ◌/◌, ◌%◌, ◌^◌, ◌≤◌, ◌<◌, min, max, ◌≡◌, refl, sym, ap, ◌∙◌, subst,
  ◌≢◌, ◌↔◌, ◌⊎◌, inl, inr, Bool, true, false, not, ◌&&◌, ◌||◌, Option, none, some, List, [], ◌∷◌,
  ◌++◌, map, arith, ltb, leb, ◌==◌, if◌then◌else◌, Bool-cases, Option-cases, ==_iff,
}

-- The call of the strategy that `processNack` ends with, if any.
pub data NackAction : Type 0 where
  send_nack : FaceRef → NackReason → NackAction
  send_nacks : NackReason → NackAction
  wait : NackAction

-- The variables of the loop.
pub record Scan : Type 0 where
  pub n_out_records_not_nacked : ℕ
  pub last_face_not_nacked : Option FaceRef
  pub least_severe_reason : NackReason

start : Scan
start = record {
  n_out_records_not_nacked = 0;
  last_face_not_nacked = none;
  least_severe_reason = no_reason;
}

module _ (is_less_severe : NackReason → NackReason → Bool) where
  scan_step : OutRecord → Scan → Scan
  scan_step r c = elim r.incoming_nack [
    | none ↦ record c {
      n_out_records_not_nacked = c.n_out_records_not_nacked + 1;
      last_face_not_nacked = some r.face;
    }
    | some reason ↦
        if is_less_severe reason c.least_severe_reason
        then record c { least_severe_reason = reason }
        else c
  ]

  scan : List OutRecord → Scan → Scan
  scan [] c = c
  scan (r ∷ rs) c = scan rs (scan_step r c)

module _ {N : Type 0} where
  -- From `if (nOutRecordsNotNacked == 1)` on.
  conclude : Entry N → Scan → NackAction
  conclude e c =
      if c.n_out_records_not_nacked == 1
      then elim c.last_face_not_nacked [
        | none ↦ wait
        | some f ↦ elim (get_in_record f e) [
          | none ↦ wait
          | some r ↦ send_nack f c.least_severe_reason
        ]
      ]
      else if ltb 0 c.n_out_records_not_nacked
      then wait
      else send_nacks c.least_severe_reason

  unfoldable pub process_nack : (NackReason → NackReason → Bool) → Entry N → NackAction
  unfolding scan scan_step start conclude
  process_nack is_less_severe e = conclude e (scan is_less_severe e.out_records start)
