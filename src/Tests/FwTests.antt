-- ===== src/Tests/FwTests.antt =====
-- A PIT entry between three faces, the first of them local.
use mathlib.Core.List.{Memᴰ}
use nfd_out_of_the_box.Packet.{
  Face, FaceRef, NackReason, local, non_local, point_to_point, ad_hoc, no_reason, congestion,
  duplicate, no_route,
}
use nfd_out_of_the_box.Pit.{
  face_record_update, out_record_update, Entry, InRecord, OutRecord, get_in_record, get_out_record,
  insert_or_update_in_record, insert_or_update_out_record, new_entry,
}
use nfd_out_of_the_box.Fw.Algorithm.{
  would_violate_scope, ScopePrefix, NextHop, is_next_hop_eligible,
  find_eligible_next_hop_with_earliest_out_record, find_duplicate_nonce, is_duplicate, any,
  time_max,
}
use nfd_out_of_the_box.Fw.Algorithm.Nonces.{
  find_duplicate_nonce_same, is_duplicate-find_duplicate_nonce, AllRenewed,
}
use nfd_out_of_the_box.Fw.Algorithm.NextHops.{
  is_next_hop_eligible_guards, Eligible, NoneEligible, AllSince, HasRecords,
  find_eligible_next_hop_with_earliest_out_record_lem,
}
use nfd_out_of_the_box.Fw.Retx.{
  interval_or, RetxSuppressionExponential, RetxSuppressionResult, decide_per_pit_entry,
}
use nfd_out_of_the_box.Fw.Retx.Laws.{
  Decides, InRange, decide_per_pit_entry_lem, decide_per_pit_entry_fixed_lem, fixed, map_result,
}
use nfd_out_of_the_box.Fw.Retx.Laws
use nfd_out_of_the_box.Fw.NackTraits.{process_nack}
use nfd_out_of_the_box.Fw.NackTraits.Laws.{HasNack, Outcome, AllNacks, process_nack_lem, Outcome}
use nfd_out_of_the_box.Fw.BestRoute.{Action, after_receive_interest}
use nfd_out_of_the_box.Fw.BestRoute.Laws.{Routes, after_receive_interest_lem}
use nfd_out_of_the_box.Tests.PitTests.{interest, entry, entry-IsValid}
use nfd_out_of_the_box.Prelude.{
  ℕ, ◌+◌, ◌*◌, ◌≤◌, ◌<◌, ◌≡◌, refl, ◌≢◌, ◌↔◌, ◌⊎◌, inl, inr, true, false, ◌||◌, none, some, List,
  [], ◌∷◌, arith, ltb, ◌==◌, if◌then◌else◌,
}
use nfd_out_of_the_box.Pit.Records.{find_record, has_record, insert_or_update}

abbrev pub faces : FaceRef → Face
faces f = record {
  id = 256 + f;
  scope = if f == 1 then local else non_local;
  link_type = point_to_point;
}

abbrev pub scope : ScopePrefix ℕ
scope = record { localhost = λ n. n == 1; localhop = λ n. n == 2 }

abbrev hops : List NextHop
hops = record { face = 1; cost = 5 } ∷ record { face = 2; cost = 10 } ∷ []

abbrev pub suppression : RetxSuppressionExponential
suppression = record { initial_interval = 10; multiply = λ t. t * 2; max_interval = 250 }

suppression-IsValid : Laws.IsValid suppression
suppression-IsValid = record {
  positive = omega arith;
  ordered = omega arith;
  grows = λ t. omega arith;
}

entry_times : AllRenewed (λ t. t < time_max) entry.out_records
unfolding insert_or_update_out_record insert_or_update_in_record new_entry insert_or_update
    has_record out_record_update face_record_update
entry_times = (omega arith, tt)

is_next_hop_eligible_guards_example :
    (((faces 2).id ≢ (faces 1).id) ⊎ ((faces 2).link_type ≡ ad_hoc))
    × ((scope.localhost 40 ≡ false) ⊎ ((faces 2).scope ≡ local))
    × ((scope.localhop 40 ≡ false) ⊎ ((faces 2).scope ≡ local) ⊎ ((faces 1).scope ≡ local))
    × ((false ≡ false)
        ⊎ (get_out_record 2 entry ≡ none)
        ⊎ ((r : OutRecord) × (get_out_record 2 entry ≡ some r) × (r.expiry ≤ 0)))
is_next_hop_eligible_guards_example =
    is_next_hop_eligible_guards scope faces 1 interest entry false 0
      (record { face = 2; cost = 10 }) (unfold is_next_hop_eligible would_violate_scope in refl)

hops-HasRecords : HasRecords scope faces 1 interest entry hops
unfolding is_next_hop_eligible would_violate_scope get_out_record find_record
    insert_or_update_out_record insert_or_update_in_record new_entry insert_or_update has_record
    out_record_update face_record_update
hops-HasRecords = (inl refl, (inr (_, refl, omega arith), tt))

find_eligible_next_hop_with_earliest_out_record_lem_example :
    ((find_eligible_next_hop_with_earliest_out_record scope faces 1 interest entry hops ≡ some none)
      × NoneEligible scope faces 1 interest entry hops)
    ⊎ ((h : NextHop) × (r : OutRecord) × (find_eligible_next_hop_with_earliest_out_record scope
            faces 1 interest entry hops
          ≡ some (some h))
        × Memᴰ h hops
        × Eligible scope faces 1 interest entry h
        × (get_out_record h.face entry ≡ some r)
        × AllSince scope faces 1 interest entry r.last_renewed hops)
find_eligible_next_hop_with_earliest_out_record_lem_example =
    find_eligible_next_hop_with_earliest_out_record_lem scope faces 1 interest entry hops
      hops-HasRecords

find_duplicate_nonce_same_example :
    (((find_duplicate_nonce entry 77 2).in_same ≡ true)
      ↔ ((r : InRecord ℕ) × (get_in_record 2 entry ≡ some r) × (r.last_nonce ≡ 77)))
    × (((find_duplicate_nonce entry 77 2).out_same ≡ true)
        ↔ ((r : OutRecord) × (get_out_record 2 entry ≡ some r) × (r.last_nonce ≡ 77)))
find_duplicate_nonce_same_example = find_duplicate_nonce_same entry 77 2 entry-IsValid

is_duplicate-find_duplicate_nonce_example :
    is_duplicate (find_duplicate_nonce entry 77 2)
    ≡ any (λ r. r.last_nonce == 77) entry.in_records
      || any (λ r. r.last_nonce == 77) entry.out_records
is_duplicate-find_duplicate_nonce_example = is_duplicate-find_duplicate_nonce entry 77 2

entry-InRange : InRange suppression entry.suppression_interval
unfolding insert_or_update_out_record insert_or_update_in_record new_entry
entry-InRange = tt

entry-fixed : interval_or 10 entry.suppression_interval ≡ 10
unfolding insert_or_update_out_record insert_or_update_in_record new_entry
entry-fixed = refl

-- 5 ns after the Interest went out.
decide_per_pit_entry_lem_example :
    (res : RetxSuppressionResult) × (e' : Entry ℕ) × (decide_per_pit_entry suppression 1005 entry
      ≡ some (res, e'))
    × Decides suppression 1005 entry res e'
    × InRange suppression e'.suppression_interval
decide_per_pit_entry_lem_example =
    decide_per_pit_entry_lem suppression 1005 entry suppression-IsValid entry-InRange

after_receive_interest_lem_example :
    (res : RetxSuppressionResult) × (e' : Entry ℕ) × (acts : List Action) × (after_receive_interest
        scope faces suppression 2000 1 interest hops entry
      ≡ some (e', acts))
    × Decides suppression 2000 entry res e'
    × Routes scope faces 1 interest e' hops res acts
    × (e' ≡ record entry { suppression_interval = e'.suppression_interval })
    × InRange suppression e'.suppression_interval
after_receive_interest_lem_example =
    after_receive_interest_lem scope faces 1 interest suppression 2000 hops entry
      suppression-IsValid entry-InRange entry_times

-- By the order of lp::NackReason's severity: congestion, duplicate, no route, none.
rank : NackReason → ℕ
rank congestion = 1
rank duplicate = 2
rank no_route = 3
rank no_reason = 4

process_nack_lem_example :
    (n : NackReason) × (HasNack n entry.out_records ⊎ (n ≡ no_reason))
    × (rank n ≤ rank no_reason)
    × AllNacks (λ m. rank n ≤ rank m) entry.out_records
    × Outcome
        (λ a b. ltb (rank a) (rank b))
        rank
        (λ a b. refl)
        entry
        n
        (process_nack (λ a b. ltb (rank a) (rank b)) entry)
process_nack_lem_example = process_nack_lem (λ a b. ltb (rank a) (rank b)) rank (λ a b. refl) entry
