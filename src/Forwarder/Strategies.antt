-- ===== src/Forwarder/Strategies.antt =====
-- daemon/fw/multicast-strategy.cpp and daemon/fw/random-strategy.cpp. Each sending works on the PIT
-- entry at once, since later tests of the loop read it. The outer `none` is an end iterator that is
-- dereferenced.
use nfd_out_of_the_box.Fw.Retx.{
  increment_interval_for_out_record, decide_per_upstream, RetxSuppressionResult,
  RetxSuppressionExponential, new, forward, suppress,
}
use nfd_out_of_the_box.Fw.BestRoute.{send_nack, reject_pending_interest}
use nfd_out_of_the_box.Prelude.{
  ℕ, Bool, true, false, not, Option, none, some, List, [], ◌∷◌, if◌then◌else◌,
}
use nfd_out_of_the_box.Forwarder.{on_outgoing_interest, Forwarder, Parts}
use nfd_out_of_the_box.Packet.{no_route, Interest, FaceRef}
use nfd_out_of_the_box.Fw.Algorithm.{has_pending_out_records, is_next_hop_eligible, NextHop}
use nfd_out_of_the_box.Pit.{out_face, get_out_record, Entry}
use nfd_out_of_the_box.Forwarder.Interests.{run_actions}
use nfd_out_of_the_box.Pit.Records.{modify_record}

-- `incrementIntervalForOutRecord` on the out-record of the face.
unfoldable pub increment_at :
    {N : Type 0} → RetxSuppressionExponential → FaceRef → Entry N → Option (Entry N)
increment_at x f e = elim (get_out_record f e) [
  | none ↦ none
  | some r ↦ some (record e {
    out_records = modify_record out_face f (increment_interval_for_out_record x) e.out_records;
  })
]

unfoldable pub increment_if_forward :
    {N : Type 0}
    → RetxSuppressionExponential
    → RetxSuppressionResult
    → FaceRef
    → Entry N
    → Option (Entry N)
increment_if_forward x forward f e = increment_at x f e
increment_if_forward x new f e = some e
increment_if_forward x suppress f e = some e

unfoldable pub is_suppressed : RetxSuppressionResult → Bool
is_suppressed suppress = true
is_suppressed forward = false
is_suppressed new = false

module _ {N : Type 0} {C : Type 0} (x : Parts N C) where
  abbrev pub is_eligible : FaceRef → Interest N → Entry N → NextHop → Bool
  is_eligible ingress i e h = is_next_hop_eligible x.scope x.faces ingress i e false 0 h

  -- The calls on the forwarder when there is no next hop.
  unfoldable pub give_no_route :
      ℕ → FaceRef → Interest N → Entry N × Forwarder N C → Entry N × Forwarder N C
  give_no_route now ingress i s =
      run_actions x now i (send_nack ingress no_route ∷ reject_pending_interest ∷ []) s

  unfoldable pub after_send :
      RetxSuppressionExponential
      → RetxSuppressionResult
      → FaceRef
      → Entry N × Forwarder N C
      → Option (Entry N × Forwarder N C)
  after_send r res face (e, f) = elim (increment_if_forward r res face e) [
    | none ↦ none
    | some e' ↦ some (e', f)
  ]

  unfoldable pub try_next_hop :
      ℕ
      → FaceRef
      → Interest N
      → RetxSuppressionExponential
      → NextHop
      → Forwarder N C
      → RetxSuppressionResult × Entry N
      → Option (Entry N × Forwarder N C)
  try_next_hop now ingress i r h f (res, e) =
      if is_suppressed res
      then some (e, f)
      else if not (is_eligible ingress i e h)
      then some (e, f)
      else after_send r res h.face (on_outgoing_interest x now h.face i e f)

  -- The loop over the next hops.
  unfoldable pub multicast :
      ℕ
      → FaceRef
      → Interest N
      → RetxSuppressionExponential
      → List NextHop
      → Entry N × Forwarder N C
      → Option (Entry N × Forwarder N C)
  multicast now ingress i r [] s = some s
  multicast now ingress i r (h ∷ hs) (e, f) =
      elim (try_next_hop now ingress i r h f (decide_per_upstream r now e h.face)) [
        | none ↦ none
        | some s ↦ multicast now ingress i r hs s
      ]

  -- `MulticastStrategy::afterReceiveInterest`
  unfoldable pub after_receive_interest_multicast :
      ℕ
      → FaceRef
      → Interest N
      → RetxSuppressionExponential
      → List NextHop
      → Entry N × Forwarder N C
      → Option (Entry N × Forwarder N C)
  after_receive_interest_multicast now ingress i r hs s = elim (multicast now ingress i r hs s) [
    | none ↦ none
    | some (e, f) ↦
        some (if has_pending_out_records now e then (e, f) else give_no_route now ingress i (e, f))
  ]

  unfoldable pub eligible_next_hops : FaceRef → Interest N → Entry N → List NextHop → List NextHop
  eligible_next_hops ingress i e [] = []
  eligible_next_hops ingress i e (h ∷ hs) =
      let rest = eligible_next_hops ingress i e hs in
      if is_eligible ingress i e h then h ∷ rest else rest

  unfoldable pub send_to_front :
      ℕ → Interest N → List NextHop → Entry N × Forwarder N C → Option (Entry N × Forwarder N C)
  send_to_front now i [] s = none
  send_to_front now i (h ∷ hs) (e, f) = some (on_outgoing_interest x now h.face i e f)

  unfoldable pub choose_next_hop :
      (List NextHop → List NextHop)
      → ℕ
      → FaceRef
      → Interest N
      → List NextHop
      → Entry N × Forwarder N C
      → Option (Entry N × Forwarder N C)
  choose_next_hop shuffle now ingress i [] s = some (give_no_route now ingress i s)
  choose_next_hop shuffle now ingress i (h ∷ hs) s = send_to_front now i (shuffle (h ∷ hs)) s

  -- `RandomStrategy::afterReceiveInterest`, with std::shuffle as a parameter.
  unfoldable pub after_receive_interest_random :
      (List NextHop → List NextHop)
      → ℕ
      → FaceRef
      → Interest N
      → List NextHop
      → Entry N × Forwarder N C
      → Option (Entry N × Forwarder N C)
  after_receive_interest_random shuffle now ingress i hs (e, f) =
      choose_next_hop shuffle now ingress i (eligible_next_hops ingress i e hs) (e, f)
