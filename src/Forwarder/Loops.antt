-- ===== src/Forwarder/Loops.antt =====
-- Looping Interests: what the Dead Nonce List and the PIT entry stop.
use mathlib.Core.List.{Memᴰ}
use mathlib.Core.List.Memᴰ
use nfd_out_of_the_box.Packet.{FaceRef, Interest, duplicate, is_point_to_point}
use nfd_out_of_the_box.Pit.{Entry, OutRecord}
use nfd_out_of_the_box.DeadNonceList.{evict_entries, DeadNonceList, has, add, add_all}
use nfd_out_of_the_box.DeadNonceList.Retention.{add_all-has}
use nfd_out_of_the_box.Forwarder.{
  insert_dead_nonce_list, violates_localhost, send, has_no_hops_left, add_nonces, Forwarder, Parts,
  nack_on,
}
use nfd_out_of_the_box.Forwarder.Interests.{
  erase_entry, decrement_hop_limit, on_incoming_interest, on_interest_loop, on_interest_finalize,
}
use nfd_out_of_the_box.Prelude.{
  length, ℕ, suc, ◌+◌, ◌≤◌, ◌≡◌, refl, ap, ◌⊎◌, inl, inr, true, false, none, List, [], ◌∷◌, ◌++◌,
  arith, Bool-cases,
}

abbrev nonces_of : {N : Type 0} → N → List OutRecord → List (N × ℕ)
nonces_of name [] = []
nonces_of name (r ∷ rs) = (name, r.last_nonce) ∷ nonces_of name rs

length-nonces_of :
    {N : Type 0} (name : N) (rs : List OutRecord) → length (nonces_of name rs) ≡ length rs
length-nonces_of name [] = refl
length-nonces_of name (r ∷ rs) = ap suc (length-nonces_of name rs)

module _ {N : Type 0} {C : Type 0} (x : Parts N C) where
  add_nonces-add_all :
      (name : N) (rs : List OutRecord) (d : DeadNonceList)
      → add_nonces x name rs d ≡ add_all x.make_entry (nonces_of name rs) d
  unfolding add_nonces
  add_nonces-add_all name [] d = refl
  add_nonces-add_all name (r ∷ rs) d =
      add_nonces-add_all name rs (add x.make_entry name r.last_nonce d)

  add-capacity :
      (name : N) (nonce : ℕ) (d : DeadNonceList)
      → (add x.make_entry name nonce d).capacity ≡ d.capacity
  unfolding add evict_entries
  add-capacity name nonce d = ground arith

  -- Each Nonce of the list is found after all have been added.
  add_nonces-has :
      (name : N) (rs : List OutRecord) (r : OutRecord) (d : DeadNonceList)
      → Memᴰ r rs
      → length rs ≤ d.capacity
      → has x.make_entry name r.last_nonce (add_nonces x name rs d) ≡ true
  unfolding add_nonces
  add_nonces-has name [] r d m le = absurd (Memᴰ.not-nil m)
  add_nonces-has name (s ∷ rs) r d (Memᴰ.head e) le =
      rw (e, add_nonces-add_all name rs (add x.make_entry name s.last_nonce d))
        (add_all-has x.make_entry name s.last_nonce (nonces_of name rs) d
          (omega (arith, length-nonces_of name rs)))
  add_nonces-has name (s ∷ rs) r d (Memᴰ.tail m) le =
      add_nonces-has name rs r (add x.make_entry name s.last_nonce d) m
        (omega (arith, add-capacity name s.last_nonce d))

  -- At most one packet, a Nack, that answers the Interest on its face.
  abbrev pub SendsLoopNack : FaceRef → Interest N → Forwarder N C → Forwarder N C → Type 0
  SendsLoopNack ingress i f f' =
      (f'.sent ≡ f.sent)
      ⊎ ((f'.sent
            ≡ f.sent
              ++ nack_on ingress (record { interest = decrement_hop_limit i; reason = duplicate })
                ∷ [])
          × (is_point_to_point (x.faces ingress).link_type ≡ true))

  decrement_hop_limit-name :
      (i : Interest N)
      → ((decrement_hop_limit i).name ≡ i.name) × ((decrement_hop_limit i).nonce ≡ i.nonce)
  unfolding decrement_hop_limit
  decrement_hop_limit-name i = ground arith

  -- The forwarder with the Interest counted.
  abbrev counted : Forwarder N C → Forwarder N C
  counted f = record f {
    counters = record (f.counters) { in_interests = f.counters.in_interests + 1 };
  }

  dead_nonce-cases :
      (now : ℕ) (ingress : FaceRef) (i : Interest N) (f : Forwarder N C)
      → has x.make_entry i.name i.nonce f.dead_nonce_list ≡ true
      → (on_incoming_interest x now ingress i f ≡ counted f)
        ⊎ (on_incoming_interest x now ingress i f
            ≡ on_interest_loop x ingress (decrement_hop_limit i) (counted f))
  unfolding on_incoming_interest
  dead_nonce-cases now ingress i f dead =
      let (n, m) = decrement_hop_limit-name i in
      elim (Bool-cases (has_no_hops_left x i)) [
        | inl spent ↦ inl (rw (spent, on_incoming_interest) refl)
        | inr alive ↦
            elim (Bool-cases (violates_localhost x ingress (decrement_hop_limit i).name)) [
              | inl outside ↦ inl (rw (alive, outside, on_incoming_interest) refl)
              | inr inside ↦ inr (rw (alive, inside, n, m, dead, on_incoming_interest) refl)
            ]
      ]

  on_interest_loop-cases :
      (ingress : FaceRef) (i : Interest N) (f : Forwarder N C)
      → (on_interest_loop x ingress i f ≡ f)
        ⊎ ((on_interest_loop x ingress i f
              ≡ send (nack_on ingress (record { interest = i; reason = duplicate })) f)
            × (is_point_to_point (x.faces ingress).link_type ≡ true))
  unfolding on_interest_loop
  on_interest_loop-cases ingress i f =
      elim (Bool-cases (is_point_to_point (x.faces ingress).link_type)) [
        | inl p2p ↦ inr (rw p2p refl, p2p)
        | inr other ↦ inl (rw other refl)
      ]

  -- An Interest whose Name and Nonce are in the Dead Nonce List changes neither the PIT, the Content
  -- Store nor the Dead Nonce List. It causes at most one packet to be sent: a Nack with reason
  -- DUPLICATE on its own face, if that is a point-to-point face.
  pub on_incoming_interest-dead_nonce :
      (now : ℕ) (ingress : FaceRef) (i : Interest N) (f : Forwarder N C)
      → has x.make_entry i.name i.nonce f.dead_nonce_list ≡ true
      → ((on_incoming_interest x now ingress i f).pit ≡ f.pit)
        × ((on_incoming_interest x now ingress i f).cs ≡ f.cs)
        × ((on_incoming_interest x now ingress i f).dead_nonce_list ≡ f.dead_nonce_list)
        × SendsLoopNack ingress i f (on_incoming_interest x now ingress i f)
  on_incoming_interest-dead_nonce now ingress i f dead =
      elim (dead_nonce-cases now ingress i f dead) [
        | inl dropped ↦ rw dropped (refl, refl, refl, inl refl)
        | inr looped ↦ elim (on_interest_loop-cases ingress (decrement_hop_limit i) (counted f)) [
          | inl quiet ↦ rw (looped, quiet) (refl, refl, refl, inl refl)
          | inr (nacks, p2p) ↦ rw (looped, nacks) (refl, refl, refl, inr (refl, p2p))
        ]
      ]

  -- An entry of an unsatisfied Interest is finalized, with no more out-records than the Dead Nonce
  -- List has capacity. An Interest that comes back with the entry's Name and the Nonce of one of
  -- its out-records then leaves the PIT as it is, and causes at most one packet, a Nack to its
  -- sender.
  pub on_interest_finalize-loop :
      (now : ℕ) (ingress : FaceRef) (i : Interest N) (r : OutRecord) (e : Entry N)
      (f : Forwarder N C)
      → e.is_satisfied ≡ false
      → Memᴰ r e.out_records
      → length e.out_records ≤ f.dead_nonce_list.capacity
      → i.name ≡ e.interest.name
      → i.nonce ≡ r.last_nonce
      → ((on_incoming_interest x now ingress i (on_interest_finalize x e f)).pit
          ≡ erase_entry x e.interest f.pit)
        × SendsLoopNack ingress i f
            (on_incoming_interest x now ingress i (on_interest_finalize x e f))
  unfolding on_interest_finalize
  on_interest_finalize-loop now ingress i r e f unmet m le n k =
      let kept : has x.make_entry e.interest.name r.last_nonce
            (insert_dead_nonce_list x none e f.dead_nonce_list)
          ≡ true =
        unfold insert_dead_nonce_list in
        rw unmet (add_nonces-has e.interest.name e.out_records r f.dead_nonce_list m le) in
      let stops =
        on_incoming_interest-dead_nonce now ingress i (on_interest_finalize x e f)
          (rw (n, k) kept) in
      (stops.0, stops.3)
