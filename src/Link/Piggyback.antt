-- ===== src/Link/Piggyback.antt =====
-- The Acks that daemon/face/lp-reliability.cpp adds to a packet.
use nfd_out_of_the_box.Prelude.{
  is_empty, length-append, ltb→lt, length, ℕ, suc, ◌+◌, ◌-◌, ◌*◌, ◌≤◌, ◌<◌, ◌≡◌, refl, ap, ◌⊎◌, inl,
  inr, false, List, [], ◌∷◌, ◌++◌, arith, ltb, Bool-cases, zero, sym, ◌∙◌, true, ◌==◌,
}
use nfd_out_of_the_box.Link.Acks.{send_idle_packets, piggyback, take_acks}
use nfd_out_of_the_box.Link.Reliability.{LpReliability, LpPacket}

one_more : (a n : ℕ) → (a + 1) * n ≡ a * n + n
one_more a n = omega arith

none_at_all : (n : ℕ) → 0 * n ≡ 0
none_at_all n = omega arith

not_less : (a b : ℕ) → ltb a b ≡ false → b ≤ a
not_less a b h = ground arith

more_used : (a n s : ℕ) → n ≤ s → a * n ≤ s - n → suc a * n ≤ s
more_used a n s h g = omega (arith, h, g)

more_left :
    (a n s : ℕ) (left : List ℕ)
    → n ≤ s
    → (left ≡ []) ⊎ (s - n < (a + 1) * n)
    → (left ≡ []) ⊎ (s < (suc a + 1) * n)
more_left a n s left h (inl e) = inl e
more_left a n s left h (inr g) = inr (omega (arith, h, g))

take_acks_lem :
    (n space : ℕ) (ks : List ℕ)
    → 0 < n
    → ((take_acks n space ks).0 ++ (take_acks n space ks).1 ≡ ks)
      × (length (take_acks n space ks).0 * n ≤ space)
      × (((take_acks n space ks).1 ≡ []) ⊎ (space < (length (take_acks n space ks).0 + 1) * n))
unfolding take_acks
take_acks_lem n space [] h = (refl, omega (arith, none_at_all n), inl refl)
take_acks_lem n space (k ∷ ks) h = elim (Bool-cases (ltb space n)) [
  | inl e ↦ rw e (refl, omega (arith, none_at_all n), inr (omega (arith, ltb→lt space n e)))
  | inr e ↦
      let (a, b, c) = take_acks_lem n (space - n) ks h in
      rw e (
        ap (λ z. k ∷ z) a,
        more_used _ n space (not_less space n e) b,
        more_left _ n space _ (not_less space n e) c,
      )
]

module _ {H : Type 0} where
  -- Where an Ack has a size, the Acks that are added to a packet are the first of the queue, in its order,
  -- and the others stay. They fit into the space that the packet leaves, and the queue is empty or one more
  -- would not fit.
  pub piggyback_lem :
      (ack_size limit reserved size : ℕ) (p : LpPacket H) (s : LpReliability H)
      → 0 < ack_size
      → (added : List ℕ) × ((piggyback ack_size limit reserved size p s).0.acks ≡ p.acks ++ added)
        × (added ++ (piggyback ack_size limit reserved size p s).1.ack_queue ≡ s.ack_queue)
        × (length added * ack_size ≤ limit - reserved - size)
        × (((piggyback ack_size limit reserved size p s).1.ack_queue ≡ [])
            ⊎ (limit - reserved - size < (length added + 1) * ack_size))
  unfolding piggyback
  piggyback_lem ack_size limit reserved size p s h =
      let space = limit - reserved - size in
      let (a, b, c) = take_acks_lem ack_size space s.ack_queue h in
      ((take_acks ack_size space s.ack_queue).0, refl, a, b, c)

  fewer_acks :
      (ack_size limit reserved size : ℕ) (p : LpPacket H) (s : LpReliability H)
      → 0 < ack_size
      → ack_size ≤ limit - reserved - size
      → 0 < length s.ack_queue
      → length (piggyback ack_size limit reserved size p s).1.ack_queue < length s.ack_queue
  fewer_acks ack_size limit reserved size p s h room some_ack =
      let (added, _, whole, _, full) = piggyback_lem ack_size limit reserved size p s h in
      let l =
        sym (length-append added (piggyback ack_size limit reserved size p s).1.ack_queue)
        ∙ ap length whole in
      elim full [
        | inl none_left ↦ rw none_left some_ack
        | inr over ↦ elim (Bool-cases (length added == 0)) [
          | inl nothing ↦
              let e : length added ≡ 0 = ground arith in
              absurd (let f = rw e at over in omega (arith, f, room))
          | inr one ↦ let e : 0 < length added = ground arith in omega (arith, e, l)
        ]
      ]

  -- The idle Ack timer empties the queue of Acks, when one Ack fits into an idle packet.
  send_idle_packets-empties :
      (ack_size limit reserved size : ℕ) (p : LpPacket H) (n : ℕ) (s : LpReliability H)
      → 0 < ack_size
      → ack_size ≤ limit - reserved - size
      → length s.ack_queue ≤ n
      → (send_idle_packets ack_size limit reserved size p n s).1.ack_queue ≡ []
  unfolding send_idle_packets
  send_idle_packets-empties ack_size limit reserved size p zero s h room l = no_acks s.ack_queue l
    where
      no_acks : (ks : List ℕ) → length ks ≤ 0 → ks ≡ []
      no_acks [] l = refl
      no_acks (k ∷ ks) l = absurd (omega arith)
  send_idle_packets-empties ack_size limit reserved size p (suc n) s h room l =
      elim (Bool-cases (is_empty s.ack_queue)) [
        | inl e ↦ rw e (empty_list s.ack_queue e)
        | inr e ↦ rw e (
            send_idle_packets-empties ack_size limit reserved size p n _ h room (
              let f =
                fewer_acks ack_size limit reserved size p s h room (some_acks s.ack_queue e) in
              omega (arith, f, l)))
      ]
    where
      empty_list : (ks : List ℕ) → is_empty ks ≡ true → ks ≡ []
      empty_list [] e = refl
      empty_list (k ∷ ks) e = absurd (ground arith)

      some_acks : (ks : List ℕ) → is_empty ks ≡ false → 0 < length ks
      some_acks [] e = absurd (ground arith)
      some_acks (k ∷ ks) e = omega arith
