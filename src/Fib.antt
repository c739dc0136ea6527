-- ===== src/Fib.antt =====
-- The next hops of daemon/table/fib-entry.cpp. std::sort may put next hops of one cost in any
-- order; the model keeps the order that they had. An iterator into the vector is a position.
pub mod Sorting
pub mod Iterators
use nfd_out_of_the_box.Packet.{FaceRef}
use nfd_out_of_the_box.Fw.Algorithm.{NextHop}
use nfd_out_of_the_box.Pit.Records.{has_record, modify_record, delete_record}
use nfd_out_of_the_box.Prelude.{
  ℕ, zero, suc, ◌+◌, ◌-◌, ◌*◌, ◌/◌, ◌%◌, ◌^◌, ◌≤◌, ◌<◌, min, max, ◌≡◌, refl, sym, ap, ◌∙◌, subst,
  ◌≢◌, ◌↔◌, ◌⊎◌, inl, inr, Bool, true, false, not, ◌&&◌, ◌||◌, Option, none, some, List, [], ◌∷◌,
  ◌++◌, map, arith, ltb, leb, ◌==◌, if◌then◌else◌, Bool-cases, Option-cases, ==_iff,
}

abbrev pub hop_face : NextHop → FaceRef
hop_face h = h.face

unfoldable pub has_next_hop : FaceRef → List NextHop → Bool
has_next_hop f hops = has_record hop_face f hops

-- `findNextHop`, as a position; the length for the end iterator.
unfoldable pub position_of : FaceRef → List NextHop → ℕ
position_of f [] = 0
position_of f (h ∷ hs) = if h.face == f then 0 else suc (position_of f hs)

unfoldable pub insert_sorted : NextHop → List NextHop → List NextHop
insert_sorted h [] = h ∷ []
insert_sorted h (g ∷ gs) = if leb h.cost g.cost then h ∷ g ∷ gs else g ∷ insert_sorted h gs

unfoldable pub sort_next_hops : List NextHop → List NextHop
unfolding insert_sorted
sort_next_hops [] = []
sort_next_hops (h ∷ hs) = insert_sorted h (sort_next_hops hs)

abbrev pub set_cost : ℕ → NextHop → NextHop
set_cost cost h = record h { cost = cost }

-- The vector with the face in it.
unfoldable pub with_face : FaceRef → List NextHop → List NextHop
with_face f hops = if has_next_hop f hops then hops else hops ++ record { face = f; cost = 0 } ∷ []

-- The next hops, the position of the iterator and `isNew`.
unfoldable pub add_or_update_next_hop : FaceRef → ℕ → List NextHop → List NextHop × ℕ × Bool
unfolding sort_next_hops with_face position_of
add_or_update_next_hop f cost hops = (
  sort_next_hops (modify_record hop_face f (set_cost cost) (with_face f hops)),
  position_of f (with_face f hops),
  not (has_next_hop f hops),
)

unfoldable pub remove_next_hop : FaceRef → List NextHop → List NextHop × Bool
remove_next_hop f hops = (delete_record hop_face f hops, has_next_hop f hops)
