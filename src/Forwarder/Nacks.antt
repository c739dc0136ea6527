-- ===== src/Forwarder/Nacks.antt =====
-- `Forwarder::onIncomingNack`, with `Strategy::sendNacks` of daemon/fw/strategy.cpp.
use nfd_out_of_the_box.Packet.{FaceRef, Nack, NackReason, is_point_to_point}
use nfd_out_of_the_box.Pit.{Entry, InRecord, get_out_record, record_nack}
use nfd_out_of_the_box.Fw.Algorithm.{has_pending_out_records}
use nfd_out_of_the_box.Fw.NackTraits.{NackAction, send_nack, send_nacks, wait}
use nfd_out_of_the_box.Forwarder.{set_expiry_timer, on_outgoing_nack, Forwarder, Parts}
use nfd_out_of_the_box.Forwarder.Interests.{find_entry, put_entry}
use nfd_out_of_the_box.Prelude.{ℕ, ◌+◌, not, none, some, List, [], ◌∷◌, ◌==◌, if◌then◌else◌}

module _ {N : Type 0} {C : Type 0} (x : Parts N C) where
  -- One Nack for each downstream; the order of the code's unordered_set is taken to be that of
  -- the in-records.
  unfoldable pub send_to_downstreams :
      NackReason → List (InRecord N) → Entry N × Forwarder N C → Entry N × Forwarder N C
  send_to_downstreams why [] r = r
  send_to_downstreams why (d ∷ ds) (e, f) =
      send_to_downstreams why ds (on_outgoing_nack x d.face why e f)

  -- The calls that `processNack` makes.
  unfoldable pub run_nack_action : NackAction → Entry N × Forwarder N C → Entry N × Forwarder N C
  unfolding send_to_downstreams
  run_nack_action wait r = r
  run_nack_action (send_nack face reason) (e, f) = on_outgoing_nack x face reason e f
  run_nack_action (send_nacks reason) (e, f) = send_to_downstreams reason e.in_records (e, f)

  -- From `record Nack on out-record` on.
  unfoldable pub take_nack :
      ℕ → FaceRef → Nack N → Entry N → Forwarder N C → Entry N × Forwarder N C
  unfolding run_nack_action
  take_nack now ingress nack e f =
      let noted = record_nack ingress nack e in
      let timed =
        if not (has_pending_out_records now noted) then set_expiry_timer now 0 noted else noted in
      let (decided, action) = x.after_receive_nack now ingress nack timed in
      run_nack_action action (decided, f)

  unfoldable pub on_incoming_nack : ℕ → FaceRef → Nack N → Forwarder N C → Forwarder N C
  unfolding take_nack
  on_incoming_nack now ingress nack f =
      let counted = record f {
        counters = record (f.counters) { in_nacks = f.counters.in_nacks + 1 };
      } in
      if not (is_point_to_point (x.faces ingress).link_type)
      then counted
      else elim (find_entry x nack.interest f.pit) [
        | none ↦ counted
        | some e ↦ elim (get_out_record ingress e) [
          | none ↦ counted
          | some r ↦
              if not (nack.interest.nonce == r.last_nonce)
              then counted
              else let (e', f') = take_nack now ingress nack e counted in
                record f' { pit = put_entry x nack.interest e' f'.pit }
        ]
      ]
