-- ===== src/Fw/BestRoute/Cheapest.antt =====
-- Best-route's choice among the next hops of a FIB entry, which are in the order of their costs.
use mathlib.Core.List.{Memᴰ}
use nfd_out_of_the_box.Packet.{FaceRef, Face, Interest}
use nfd_out_of_the_box.Pit.{Entry}
use nfd_out_of_the_box.Fw.Algorithm.{
  ScopePrefix, NextHop, is_next_hop_eligible, has_pending_out_records,
}
use nfd_out_of_the_box.Fw.Retx.{RetxSuppressionExponential, decide_per_pit_entry}
use nfd_out_of_the_box.Fw.BestRoute.{
  dispatch, send_interest, find_if, send_new, after_receive_interest,
}
use nfd_out_of_the_box.Fib.Sorting.{Costs, IsSorted}
use nfd_out_of_the_box.Prelude.{
  ℕ, ◌≤◌, ◌≡◌, refl, inl, inr, Bool, true, false, some, List, [], ◌∷◌, arith, Bool-cases,
}

Costs-Memᴰ : (P : ℕ → Type 0) (h : NextHop) (hs : List NextHop) → Costs P hs → Memᴰ h hs → P h.cost
Costs-Memᴰ P h [] all m = elim m [ ]
Costs-Memᴰ P h (g ∷ gs) all (Memᴰ.head e) = rw e all.0
Costs-Memᴰ P h (g ∷ gs) all (Memᴰ.tail m) = Costs-Memᴰ P h gs all.1 m

find_if-cheapest :
    (p : NextHop → Bool) (h : NextHop) (hs : List NextHop)
    → IsSorted hs
    → Memᴰ h hs
    → p h ≡ true
    → (g : NextHop) × (find_if p hs ≡ some g) × (p g ≡ true) × (g.cost ≤ h.cost)
unfolding find_if
find_if-cheapest p h [] s m ok = elim m [ ]
find_if-cheapest p h (g ∷ gs) s (Memᴰ.head e) ok =
    (g, rw (← e, ok) refl, rw (← e) ok, rw e (omega arith))
find_if-cheapest p h (g ∷ gs) s (Memᴰ.tail m) ok = elim (Bool-cases (p g)) [
  | inl hit ↦ (g, rw hit refl, hit, Costs-Memᴰ (λ c. g.cost ≤ c) h gs s.0 m)
  | inr miss ↦ rw miss (find_if-cheapest p h gs s.1 m ok)
]

module _ {N : Type 0} (s : ScopePrefix N) (faces : FaceRef → Face) (ingress : FaceRef)
    (i : Interest N) where
  -- Where no out-record is pending and the next hops are in the order of their costs, an eligible
  -- next hop `h` means that the Interest is sent: once, to an eligible next hop that costs no more
  -- than `h`, with the PIT entry left as it was.
  pub after_receive_interest-cheapest :
      (x : RetxSuppressionExponential) (now : ℕ) (e : Entry N) (hs : List NextHop) (h : NextHop)
      → has_pending_out_records now e ≡ false
      → IsSorted hs
      → Memᴰ h hs
      → is_next_hop_eligible s faces ingress i e false 0 h ≡ true
      → (g : NextHop) × (after_receive_interest s faces x now ingress i hs e
          ≡ some (e, send_interest g.face ∷ []))
        × (is_next_hop_eligible s faces ingress i e false 0 g ≡ true)
        × (g.cost ≤ h.cost)
  unfolding after_receive_interest decide_per_pit_entry dispatch send_new
  after_receive_interest-cheapest x now e hs h idle sorted m ok =
      let (g, found, eligible, cheap) =
        find_if-cheapest (is_next_hop_eligible s faces ingress i e false 0) h hs sorted m ok in
      (
        g,
        rw (after_receive_interest, decide_per_pit_entry, idle, dispatch, send_new, found) refl,
        eligible,
        cheap,
      )
