-- ===== src/Fib/Iterators.antt =====
-- The iterator that `addOrUpdateNextHop` returns with a new next hop.
use nfd_out_of_the_box.Packet.{FaceRef}
use nfd_out_of_the_box.Fw.Algorithm.{NextHop}
use nfd_out_of_the_box.Pit.Records.{has_record, modify_record}
use nfd_out_of_the_box.Fib.{
  hop_face, has_next_hop, position_of, insert_sorted, sort_next_hops, with_face,
  add_or_update_next_hop, set_cost,
}
use nfd_out_of_the_box.Fib.Sorting.{Costs, IsSorted, sort_next_hops-IsSorted}
use nfd_out_of_the_box.Prelude.{
  length-append, get_elem?, length, ℕ, zero, suc, ◌≤◌, ◌≡◌, refl, ap, ◌∙◌, true, false, some, List,
  [], ◌∷◌, ◌++◌, arith,
}

length-insert_sorted :
    (h : NextHop) (hs : List NextHop) → length (insert_sorted h hs) ≡ suc (length hs)
unfolding insert_sorted
length-insert_sorted h [] = refl
length-insert_sorted h (g ∷ gs) = ground (arith, length-insert_sorted h gs)

length-sort_next_hops : (hs : List NextHop) → length (sort_next_hops hs) ≡ length hs
unfolding sort_next_hops
length-sort_next_hops [] = refl
length-sort_next_hops (h ∷ hs) =
    length-insert_sorted h (sort_next_hops hs) ∙ ap suc (length-sort_next_hops hs)

length-modify_record :
    (f : FaceRef) (u : NextHop → NextHop) (hs : List NextHop)
    → length (modify_record hop_face f u hs) ≡ length hs
unfolding modify_record
length-modify_record f u [] = refl
length-modify_record f u (h ∷ hs) = ground (arith, length-modify_record f u hs)

position_of-new :
    (f : FaceRef) (c : ℕ) (hs : List NextHop)
    → has_record hop_face f hs ≡ false
    → position_of f (hs ++ record { face = f; cost = c } ∷ []) ≡ length hs
unfolding position_of has_record
position_of-new f c [] new = ground arith
position_of-new f c (h ∷ hs) new = ground (arith, position_of-new f c hs)

IsSorted-last :
    (hs : List NextHop) (n : ℕ)
    → IsSorted hs
    → length hs ≡ suc n
    → (h : NextHop) × (get_elem? hs n ≡ some h) × Costs (λ c. c ≤ h.cost) hs
IsSorted-last [] n s e = absurd (omega arith)
IsSorted-last (g ∷ []) zero s e = (g, refl, (omega arith, tt))
IsSorted-last (g ∷ []) (suc n) s e = absurd (omega arith)
IsSorted-last (g ∷ k ∷ ks) zero s e = absurd (omega arith)
IsSorted-last (g ∷ k ∷ ks) (suc n) s e =
    let (h, found, below) = IsSorted-last (k ∷ ks) n s.1 (omega arith) in
    (h, found, (omega arith, below))

-- With a face that the entry did not have, `isNew` is set, and the iterator stands at a next hop of
-- the greatest cost in the entry, which need not be the one that was added.
pub add_or_update_next_hop-iterator :
    (f : FaceRef) (cost : ℕ) (hs : List NextHop)
    → has_next_hop f hs ≡ false
    → (h : NextHop) × (get_elem?
          (add_or_update_next_hop f cost hs).0
          (add_or_update_next_hop f cost hs).1
        ≡ some h)
      × Costs (λ c. c ≤ h.cost) (add_or_update_next_hop f cost hs).0
      × ((add_or_update_next_hop f cost hs).2 ≡ true)
unfolding add_or_update_next_hop with_face has_next_hop
add_or_update_next_hop-iterator f cost hs new =
    let grown : List NextHop = hs ++ record { face = f; cost = 0 } ∷ [] in
    let changed : List NextHop = modify_record hop_face f (set_cost cost) grown in
    let n : length (sort_next_hops changed) ≡ suc (length hs) = omega (
      arith,
      length-sort_next_hops changed,
      length-modify_record f (set_cost cost) grown,
      length-append hs (record { face = f; cost = 0 } ∷ []),
    ) in
    let (h, found, below) =
      IsSorted-last (sort_next_hops changed) (length hs) (sort_next_hops-IsSorted changed) n in
    let at_end = position_of-new f 0 hs new in
    (h, rw (new, at_end) found, rw new below, rw new refl)
