-- ===== src/Tests/FibTests.antt =====
-- The next hops of one FIB entry, and best-route's choice among them.
use mathlib.Core.List.{Memᴰ}
use nfd_out_of_the_box.Pit.{new_entry}
use nfd_out_of_the_box.Fw.Algorithm.{
  would_violate_scope, has_pending_out_records, NextHop, is_next_hop_eligible,
}
use nfd_out_of_the_box.Fw.BestRoute.{send_interest, after_receive_interest}
use nfd_out_of_the_box.Fib.{has_next_hop, hop_face, add_or_update_next_hop}
use nfd_out_of_the_box.Tests.PitTests.{interest}
use nfd_out_of_the_box.Tests.FwTests.{scope, faces, suppression}
use nfd_out_of_the_box.Prelude.{get_elem?, ◌≤◌, ◌≡◌, refl, true, false, some, List, [], ◌∷◌, arith}
use nfd_out_of_the_box.Fib.Sorting.{add_or_update_next_hop_lem, Costs, IsSorted}
use nfd_out_of_the_box.Fw.BestRoute.Cheapest.{after_receive_interest-cheapest}
use nfd_out_of_the_box.Pit.Distinct.{IsDistinct}
use nfd_out_of_the_box.Pit.Records.{has_record, find_record}
use nfd_out_of_the_box.Fib.Iterators.{add_or_update_next_hop-iterator}

abbrev two_hops : List NextHop
two_hops = record { face = 2; cost = 5 } ∷ record { face = 3; cost = 10 } ∷ []

add_or_update_next_hop_lem_example :
    IsSorted (add_or_update_next_hop 4 7 two_hops).0
    × IsDistinct hop_face (add_or_update_next_hop 4 7 two_hops).0
    × (find_record hop_face 3 (add_or_update_next_hop 4 7 two_hops).0
        ≡ find_record hop_face 3 two_hops)
add_or_update_next_hop_lem_example =
    add_or_update_next_hop_lem 4 3 7 two_hops (unfold has_record in (refl, (refl, tt)))

-- The iterator stands at face 3, of cost 10, and not at the new face 4.
add_or_update_next_hop-iterator_example :
    (h : NextHop) × (get_elem?
        (add_or_update_next_hop 4 7 two_hops).0
        (add_or_update_next_hop 4 7 two_hops).1
      ≡ some h)
    × Costs (λ c. c ≤ h.cost) (add_or_update_next_hop 4 7 two_hops).0
    × ((add_or_update_next_hop 4 7 two_hops).2 ≡ true)
add_or_update_next_hop-iterator_example =
    add_or_update_next_hop-iterator 4 7 two_hops (unfold has_next_hop has_record in refl)

after_receive_interest-cheapest_example :
    (g : NextHop) × (after_receive_interest scope faces suppression 1000 1 interest two_hops
        (new_entry interest)
      ≡ some (new_entry interest, send_interest g.face ∷ []))
    × (is_next_hop_eligible scope faces 1 interest (new_entry interest) false 0 g ≡ true)
    × (g.cost ≤ 10)
after_receive_interest-cheapest_example =
    after_receive_interest-cheapest scope faces 1 interest suppression 1000 (new_entry interest)
      two_hops (record { face = 3; cost = 10 }) (unfold has_pending_out_records new_entry in refl)
      ((omega arith, tt), (tt, tt)) (Memᴰ.tail (Memᴰ.head refl))
      (unfold is_next_hop_eligible would_violate_scope in refl)
