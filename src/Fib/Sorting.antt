-- ===== src/Fib/Sorting.antt =====
-- The next hops of a FIB entry after a change: in the order of their costs, one for each face.
use nfd_out_of_the_box.Packet.{FaceRef}
use nfd_out_of_the_box.Fw.Algorithm.{NextHop}
use nfd_out_of_the_box.Pit.Records.{has_record, find_record, modify_record}
use nfd_out_of_the_box.Pit.Lookup.{find_record-modify_record}
use nfd_out_of_the_box.Pit.Distinct.{IsDistinct, modify_record-IsDistinct}
use nfd_out_of_the_box.Fib.{
  hop_face, has_next_hop, insert_sorted, sort_next_hops, with_face, add_or_update_next_hop,
  set_cost,
}
use nfd_out_of_the_box.Prelude.{
  ℕ, ◌≤◌, ◌≡◌, refl, ◌∙◌, inl, inr, true, false, ◌||◌, some, List, [], ◌∷◌, ◌++◌, arith, leb, ◌==◌,
  if◌then◌else◌, Bool-cases,
}

abbrev pub Costs : (ℕ → Type 0) → List NextHop → Type 0
Costs P [] = Unit {0}
Costs P (h ∷ hs) = P h.cost × Costs P hs

abbrev pub IsSorted : List NextHop → Type 0
IsSorted [] = Unit {0}
IsSorted (h ∷ hs) = Costs (λ c. h.cost ≤ c) hs × IsSorted hs

Costs-mono : (a b : ℕ) (hs : List NextHop) → a ≤ b → Costs (λ c. b ≤ c) hs → Costs (λ c. a ≤ c) hs
Costs-mono a b [] le all = tt
Costs-mono a b (h ∷ hs) le all = (omega arith, Costs-mono a b hs le all.1)

Costs-insert_sorted :
    (a : ℕ) (h : NextHop) (hs : List NextHop)
    → a ≤ h.cost
    → Costs (λ c. a ≤ c) hs
    → Costs (λ c. a ≤ c) (insert_sorted h hs)
unfolding insert_sorted
Costs-insert_sorted a h [] le all = (le, tt)
Costs-insert_sorted a h (g ∷ gs) le all = elim (Bool-cases (leb h.cost g.cost)) [
  | inl here ↦ rw here (le, all)
  | inr later ↦ rw later (all.0, Costs-insert_sorted a h gs le all.1)
]

insert_sorted-IsSorted :
    (h : NextHop) (hs : List NextHop) → IsSorted hs → IsSorted (insert_sorted h hs)
unfolding insert_sorted
insert_sorted-IsSorted h [] s = (tt, tt)
insert_sorted-IsSorted h (g ∷ gs) s = elim (Bool-cases (leb h.cost g.cost)) [
  | inl here ↦
      let le : h.cost ≤ g.cost = ground arith in
      rw here ((le, Costs-mono h.cost g.cost gs le s.0), s)
  | inr later ↦
      rw later (Costs-insert_sorted g.cost h gs (ground arith) s.0, insert_sorted-IsSorted h gs s.1)
]

pub sort_next_hops-IsSorted : (hs : List NextHop) → IsSorted (sort_next_hops hs)
unfolding sort_next_hops
sort_next_hops-IsSorted [] = tt
sort_next_hops-IsSorted (h ∷ hs) =
    insert_sorted-IsSorted h (sort_next_hops hs) (sort_next_hops-IsSorted hs)

has_record-insert_sorted :
    (f : FaceRef) (h : NextHop) (hs : List NextHop)
    → has_record hop_face f (insert_sorted h hs) ≡ h.face == f || has_record hop_face f hs
unfolding insert_sorted has_record
has_record-insert_sorted f h [] = refl
has_record-insert_sorted f h (g ∷ gs) = ground (arith, has_record-insert_sorted f h gs)

has_record-sort_next_hops :
    (f : FaceRef) (hs : List NextHop)
    → has_record hop_face f (sort_next_hops hs) ≡ has_record hop_face f hs
unfolding sort_next_hops has_record
has_record-sort_next_hops f [] = refl
has_record-sort_next_hops f (h ∷ hs) =
    ground (arith, has_record-insert_sorted f h (sort_next_hops hs), has_record-sort_next_hops f hs)

insert_sorted-IsDistinct :
    (h : NextHop) (hs : List NextHop)
    → has_record hop_face h.face hs ≡ false
    → IsDistinct hop_face hs
    → IsDistinct hop_face (insert_sorted h hs)
unfolding insert_sorted has_record
insert_sorted-IsDistinct h [] new d = (refl, tt)
insert_sorted-IsDistinct h (g ∷ gs) new d = elim (Bool-cases (leb h.cost g.cost)) [
  | inl here ↦ rw here (new, d)
  | inr later ↦ rw later (
    ground (arith, has_record-insert_sorted g.face h gs),
    insert_sorted-IsDistinct h gs (ground arith) d.1,
  )
]

sort_next_hops-IsDistinct :
    (hs : List NextHop) → IsDistinct hop_face hs → IsDistinct hop_face (sort_next_hops hs)
unfolding sort_next_hops
sort_next_hops-IsDistinct [] d = tt
sort_next_hops-IsDistinct (h ∷ hs) d =
    insert_sorted-IsDistinct h (sort_next_hops hs) (has_record-sort_next_hops h.face hs ∙ d.0)
      (sort_next_hops-IsDistinct hs d.1)

find_record-insert_sorted :
    (f : FaceRef) (h : NextHop) (hs : List NextHop)
    → has_record hop_face h.face hs ≡ false
    → find_record hop_face f (insert_sorted h hs)
      ≡ (if h.face == f then some h else find_record hop_face f hs)
unfolding insert_sorted find_record has_record
find_record-insert_sorted f h [] new = refl
find_record-insert_sorted f h (g ∷ gs) new = ground (arith, find_record-insert_sorted f h gs)

find_record-sort_next_hops :
    (f : FaceRef) (hs : List NextHop)
    → IsDistinct hop_face hs
    → find_record hop_face f (sort_next_hops hs) ≡ find_record hop_face f hs
unfolding sort_next_hops find_record
find_record-sort_next_hops f [] d = refl
find_record-sort_next_hops f (h ∷ hs) d = ground (
  arith,
  find_record-insert_sorted f h (sort_next_hops hs) (has_record-sort_next_hops h.face hs ∙ d.0),
  find_record-sort_next_hops f hs d.1,
)

has_record-snoc :
    (f g : FaceRef) (c : ℕ) (hs : List NextHop)
    → has_record hop_face f (hs ++ record { face = g; cost = c } ∷ [])
      ≡ has_record hop_face f hs || g == f
unfolding has_record
has_record-snoc f g c [] = ground arith
has_record-snoc f g c (h ∷ hs) = ground (arith, has_record-snoc f g c hs)

snoc-IsDistinct :
    (g : FaceRef) (c : ℕ) (hs : List NextHop)
    → has_record hop_face g hs ≡ false
    → IsDistinct hop_face hs
    → IsDistinct hop_face (hs ++ record { face = g; cost = c } ∷ [])
unfolding has_record
snoc-IsDistinct g c [] new d = (refl, tt)
snoc-IsDistinct g c (h ∷ hs) new d =
    (ground (arith, has_record-snoc h.face g c hs), snoc-IsDistinct g c hs (ground arith) d.1)

with_face-IsDistinct :
    (f : FaceRef) (hs : List NextHop)
    → IsDistinct hop_face hs
    → IsDistinct hop_face (with_face f hs)
unfolding with_face has_next_hop
with_face-IsDistinct f hs d = elim (Bool-cases (has_record hop_face f hs)) [
  | inl there ↦ rw there d
  | inr new ↦ rw new (snoc-IsDistinct f 0 hs new d)
]

find_record-snoc :
    (f g : FaceRef) (c : ℕ) (hs : List NextHop)
    → has_record hop_face g hs ≡ false
    → find_record hop_face f (hs ++ record { face = g; cost = c } ∷ [])
      ≡ (if f == g then some (record { face = g; cost = c }) else find_record hop_face f hs)
unfolding find_record has_record
find_record-snoc f g c [] new = ground arith
find_record-snoc f g c (h ∷ hs) new = ground (arith, find_record-snoc f g c hs)

present :
    (f : FaceRef) (hs : List NextHop)
    → has_record hop_face f hs ≡ true
    → (c : ℕ) × (find_record hop_face f hs ≡ some (record { face = f; cost = c }))
unfolding find_record has_record
present f [] h = absurd (cc)
present f (g ∷ gs) h = elim (Bool-cases (g.face == f)) [
  | inl here ↦ let e : g.face ≡ f = ground arith in (g.cost, rw (here, ← e) refl)
  | inr other ↦ rw other (present f gs (rw other at h))
]

find_record-with_face :
    (f g : FaceRef) (cost : ℕ) (hs : List NextHop)
    → find_record hop_face g (modify_record hop_face f (set_cost cost) (with_face f hs))
      ≡ (if g == f then some (record { face = f; cost = cost }) else find_record hop_face g hs)
unfolding with_face has_next_hop
find_record-with_face f g cost hs = elim (Bool-cases (has_record hop_face f hs)) [
  | inl there ↦ ground (
    arith,
    (present f hs there).1,
    find_record-modify_record hop_face f g (set_cost cost) hs (λ r. refl),
  )
  | inr new ↦ ground (
    arith,
    find_record-snoc g f 0 hs new,
    find_record-modify_record hop_face f g (set_cost cost)
        (hs ++ record { face = f; cost = 0 } ∷ []) (λ r. refl),
  )
]

-- Adding or updating the next hop of a face, in an entry with one next hop at most for each face:
-- the next hops are then in the order of their costs, again with one at most for each face; the
-- face has the new cost, and every other face what it had.
pub add_or_update_next_hop_lem :
    (f g : FaceRef) (cost : ℕ) (hs : List NextHop)
    → IsDistinct hop_face hs
    → IsSorted (add_or_update_next_hop f cost hs).0
      × IsDistinct hop_face (add_or_update_next_hop f cost hs).0
      × (find_record hop_face g (add_or_update_next_hop f cost hs).0
          ≡ (if g == f then some (record { face = f; cost = cost }) else find_record hop_face g hs))
unfolding add_or_update_next_hop
add_or_update_next_hop_lem f g cost hs d =
    let changed : List NextHop = modify_record hop_face f (set_cost cost) (with_face f hs) in
    let kept : IsDistinct hop_face changed =
      modify_record-IsDistinct hop_face f (set_cost cost) (with_face f hs) (λ r. refl)
        (with_face-IsDistinct f hs d) in
    (
      sort_next_hops-IsSorted changed,
      sort_next_hops-IsDistinct changed kept,
      find_record-sort_next_hops g changed kept ∙ find_record-with_face f g cost hs,
    )
