-- ===== src/Link/Reassembler/Slots.antt =====
-- Reassembly of one packet, whatever the order in which its fragments arrive.
use nfd_out_of_the_box.Link.Packets.{Packet, empty_packet}
use nfd_out_of_the_box.Link.Reassembler.{has_sequence, get_or}
use nfd_out_of_the_box.Prelude.{
  length, set, replicate, ℕ, zero, suc, ◌+◌, ◌-◌, ◌%◌, ◌^◌, ◌≤◌, ◌<◌, ◌≡◌, refl, ap, ◌≢◌, ◌⊎◌, inl,
  inr, true, false, some, List, [], ◌∷◌, arith, if◌then◌else◌,
}

module _ {H : Type 0} where
  -- Each slot is still empty or holds its fragment.
  abbrev pub Agree : List (Packet H) → List (Packet H) → Type 0
  Agree [] [] = Unit {0}
  Agree [] (f ∷ fs) = ⊥
  Agree (s ∷ ss) [] = ⊥
  Agree (s ∷ ss) (f ∷ fs) = ((s ≡ empty_packet) ⊎ (s ≡ f)) × Agree ss fs

  pub received : List (Packet H) → ℕ
  received [] = 0
  received (s ∷ ss) = (if has_sequence s then 1 else 0) + received ss

  pub Agree-replicate :
      (fs : List (Packet H))
      → Agree (replicate (length fs) empty_packet) fs
        × (received (replicate (length fs) (empty_packet {H = H})) ≡ 0)
  unfolding received
  Agree-replicate [] = (tt, refl)
  Agree-replicate (f ∷ fs) = let (a, r) = Agree-replicate fs in ((inl refl, a), omega (arith, r))

  pub Agree-set :
      (ss fs : List (Packet H)) (i : ℕ) → Agree ss fs → Agree (set ss i (get_or fs i)) fs
  Agree-set [] [] i a = tt
  Agree-set [] (f ∷ fs) i a = a
  Agree-set (s ∷ ss) [] i a = absurd a
  Agree-set (s ∷ ss) (f ∷ fs) zero a = (inr refl, a.1)
  Agree-set (s ∷ ss) (f ∷ fs) (suc i) a = (a.0, Agree-set ss fs i a.1)

  pub Agree-length : (ss fs : List (Packet H)) → Agree ss fs → length ss ≡ length fs
  Agree-length [] [] a = refl
  Agree-length [] (f ∷ fs) a = absurd a
  Agree-length (s ∷ ss) [] a = absurd a
  Agree-length (s ∷ ss) (f ∷ fs) a = ap suc (Agree-length ss fs a.1)

  pub received-set :
      (ss : List (Packet H)) (i : ℕ) (f : Packet H)
      → i < length ss
      → has_sequence (get_or ss i) ≡ false
      → has_sequence f ≡ true
      → received (set ss i f) ≡ received ss + 1
  unfolding received
  received-set [] i f lt e h = absurd (omega arith)
  received-set (s ∷ ss) zero f lt e h = ground arith
  received-set (s ∷ ss) (suc i) f lt e h =
      let r = received-set ss i f (omega arith) e h in omega (arith, r)

  pub get_or-set_ne :
      (ss : List (Packet H)) (i j : ℕ) (f : Packet H) → i ≢ j → get_or (set ss i f) j ≡ get_or ss j
  get_or-set_ne [] i j f h = refl
  get_or-set_ne (s ∷ ss) zero zero f h = absurd (h refl)
  get_or-set_ne (s ∷ ss) zero (suc j) f h = refl
  get_or-set_ne (s ∷ ss) (suc i) zero f h = refl
  get_or-set_ne (s ∷ ss) (suc i) (suc j) f h = get_or-set_ne ss i j f (λ e. h (ap suc e))

  pub received-le : (ss : List (Packet H)) → received ss ≤ length ss
  unfolding received
  received-le [] = omega arith
  received-le (s ∷ ss) = let r = received-le ss in ground arith

  -- When all slots are taken they are the fragments.
  pub Agree-full : (ss fs : List (Packet H)) → Agree ss fs → received ss ≡ length ss → ss ≡ fs
  unfolding received
  Agree-full [] [] a r = refl
  Agree-full [] (f ∷ fs) a r = absurd a
  Agree-full (s ∷ ss) [] a r = absurd a
  Agree-full (s ∷ ss) (f ∷ fs) (inl e, a) r =
      absurd (let le = received-le ss in let r' = rw e at r in omega arith)
  Agree-full (s ∷ ss) (f ∷ fs) (inr e, a) r =
      let le = received-le ss in let rest : ss ≡ fs = Agree-full ss fs a (ground arith) in cc

  -- The fragments of one message, as the sender numbers them.
  abbrev pub AreSent : ℕ → ℕ → ℕ → List (Packet H) → Type 0
  AreSent count index message [] = Unit {0}
  AreSent count index message (f ∷ fs) =
      (f.frag_index ≡ some index)
      × (f.frag_count ≡ some count)
      × ((s : ℕ) × (f.sequence ≡ some s) × ((s + 2 ^ 64 - index) % 2 ^ 64 ≡ message))
      × AreSent count (index + 1) message fs

  pub AreSent-get_or :
      (fs : List (Packet H)) (count index message i : ℕ)
      → AreSent count index message fs
      → i < length fs
      → ((get_or fs i).frag_index ≡ some (index + i))
        × ((get_or fs i).frag_count ≡ some count)
        × ((s : ℕ) × ((get_or fs i).sequence ≡ some s)
            × ((s + 2 ^ 64 - (index + i)) % 2 ^ 64 ≡ message))
  AreSent-get_or [] count index message i a lt = absurd (omega arith)
  AreSent-get_or (f ∷ fs) count index message zero a lt =
      let e : index + 0 ≡ index = omega arith in rw e (a.0, a.1, a.2)
  AreSent-get_or (f ∷ fs) count index message (suc i) a lt =
      let e : index + suc i ≡ index + 1 + i = omega arith in
      rw e (AreSent-get_or fs count (index + 1) message i a.3 (omega arith))
