-- ===== src/Fw/BestRoute.antt =====
-- daemon/fw/best-route-strategy2.cpp, and the forwarding rule of best-route-strategy.cpp. What a
-- strategy asks of the forwarder is the list of its calls, in order; `none` is a failed assertion
-- of a helper. The next hops are those of the FIB entry that `lookupFib` finds.
pub mod Laws
pub mod Cheapest
use nfd_out_of_the_box.Packet.{FaceRef, Face, Interest, NackReason, no_route}
use nfd_out_of_the_box.Pit.{Entry}
use nfd_out_of_the_box.Fw.Algorithm.{
  ScopePrefix, NextHop, is_next_hop_eligible, would_violate_scope, can_forward_to_legacy,
  has_pending_out_records, find_eligible_next_hop_with_earliest_out_record,
}
use nfd_out_of_the_box.Fw.Retx.{
  RetxSuppressionExponential, RetxSuppressionResult, new, forward, suppress, decide_per_pit_entry,
}
use nfd_out_of_the_box.Prelude.{
  ℕ, zero, suc, ◌+◌, ◌-◌, ◌*◌, ◌/◌, ◌%◌, ◌^◌, ◌≤◌, ◌<◌, min, max, ◌≡◌, refl, sym, ap, ◌∙◌, subst,
  ◌≢◌, ◌↔◌, ◌⊎◌, inl, inr, Bool, true, false, not, ◌&&◌, ◌||◌, Option, none, some, List, [], ◌∷◌,
  ◌++◌, map, arith, ltb, leb, ◌==◌, if◌then◌else◌, Bool-cases, Option-cases, ==_iff,
}

pub data Action : Type 0 where
  send_interest : FaceRef → Action
  send_nack : FaceRef → NackReason → Action
  reject_pending_interest : Action

abbrev pub with_entry :
    {N : Type 0} → Entry N → Option (List Action) → Option (Entry N × List Action)
with_entry e none = none
with_entry e (some acts) = some (e, acts)

-- std::find_if
unfoldable pub find_if : {A : Type 0} → (A → Bool) → List A → Option A
find_if p [] = none
find_if p (x ∷ xs) = if p x then some x else find_if p xs

module _ {N : Type 0} (s : ScopePrefix N) (faces : FaceRef → Face) where
  -- The branch of a new Interest.
  send_new : FaceRef → Option NextHop → List Action
  send_new ingress none = send_nack ingress no_route ∷ reject_pending_interest ∷ []
  send_new ingress (some h) = send_interest h.face ∷ []

  retry_earliest : Option NextHop → List Action
  retry_earliest none = []
  retry_earliest (some h) = send_interest h.face ∷ []

  -- The branches of a retransmission.
  retransmit : ℕ → FaceRef → Interest N → Entry N → List NextHop → Option (List Action)
  unfolding retry_earliest
  retransmit now ingress i e nexthops =
      elim (find_if (is_next_hop_eligible s faces ingress i e true now) nexthops) [
        | some h ↦ some (send_interest h.face ∷ [])
        | none ↦
            elim (find_eligible_next_hop_with_earliest_out_record s faces ingress i e nexthops) [
              | none ↦ none
              | some it ↦ some (retry_earliest it)
            ]
      ]

  -- What follows the suppression's decision, on the entry that it leaves.
  dispatch :
      ℕ
      → FaceRef
      → Interest N
      → List NextHop
      → RetxSuppressionResult × Entry N
      → Option (List Action)
  unfolding retransmit send_new
  dispatch now ingress i nexthops (suppress, e) = some []
  dispatch now ingress i nexthops (new, e) =
      some (send_new ingress (find_if (is_next_hop_eligible s faces ingress i e false 0) nexthops))
  dispatch now ingress i nexthops (forward, e) = retransmit now ingress i e nexthops

  unfoldable pub after_receive_interest :
      RetxSuppressionExponential
      → ℕ
      → FaceRef
      → Interest N
      → List NextHop
      → Entry N
      → Option (Entry N × List Action)
  unfolding dispatch
  after_receive_interest x now ingress i nexthops e = elim (decide_per_pit_entry x now e) [
    | none ↦ none
    | some (res, e') ↦ with_entry e' (dispatch now ingress i nexthops (res, e'))
  ]

  -- `BestRouteStrategyBase::afterReceiveInterest`
  unfoldable pub after_receive_interest_legacy :
      ℕ → FaceRef → Interest N → List NextHop → Entry N → List Action
  after_receive_interest_legacy now ingress i nexthops e =
      if has_pending_out_records now e
      then []
      else elim (find_if
          (λ h.
            not (would_violate_scope s faces ingress i h.face)
            && can_forward_to_legacy now e h.face)
          nexthops) [ some h ↦ send_interest h.face ∷ [] | none ↦ reject_pending_interest ∷ [] ]
