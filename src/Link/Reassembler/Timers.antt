-- ===== src/Link/Reassembler/Timers.antt =====
-- The drop timers of daemon/face/lp-reassembler.cpp that run out leave the other partial packets alone.
use nfd_out_of_the_box.Link.Reassembler.{
  fire, run_timers, fire_all, is_due, timeout_partial_packet, key_eq, PartialPacket, Key, find,
  erase,
}
use nfd_out_of_the_box.Prelude.{
  ℕ, ◌≡◌, refl, ap, ◌∙◌, inl, inr, true, false, some, List, [], ◌∷◌, arith, if◌then◌else◌, subst,
  Bool-cases, Option-cases,
}

key_eq→≡ : (a b : Key) → key_eq a b ≡ true → a ≡ b
key_eq→≡ a b h =
    let e : a.endpoint ≡ b.endpoint = ground arith in
    let m : a.message ≡ b.message = ground arith in
    ap (λ n. record { endpoint = n; message = a.message }) e
    ∙ ap (λ n. record { endpoint = b.endpoint; message = n }) m

key_eq_trans : (a j k : Key) → key_eq a j ≡ true → key_eq a k ≡ true → key_eq j k ≡ true
key_eq_trans a j k h g = ground arith

module _ {H : Type 0} where
  find-erase_other :
      (k j : Key) (m : List (Key × PartialPacket H))
      → key_eq j k ≡ false
      → find k (erase j m) ≡ find k m
  unfolding find erase
  find-erase_other k j [] h = refl
  find-erase_other k j ((i, pp) ∷ m) h = elim (Bool-cases (key_eq i j)) [
    | inl same ↦ elim (Bool-cases (key_eq i k)) [
      | inl both ↦ absurd (let t = key_eq_trans i j k same both in cc)
      | inr other ↦ rw (same, other) refl
    ]
    | inr other ↦
        rw (other, find) (ap (λ r. if key_eq i k then some pp else r) (find-erase_other k j m h))
  ]

  find-timeout_other :
      (k j : Key) (m : List (Key × PartialPacket H))
      → key_eq j k ≡ false
      → find k (timeout_partial_packet j m).0 ≡ find k m
  unfolding timeout_partial_packet
  find-timeout_other k j m h = elim (Option-cases (find j m)) [
    | inl e ↦ rw (e, timeout_partial_packet) refl
    | inr (pp, e) ↦ rw (e, timeout_partial_packet) (find-erase_other k j m h)
  ]

  -- The timer of another message, or one that has not run out, leaves the partial packet alone.
  find-fire :
      (now : ℕ) (k j : Key) (m : List (Key × PartialPacket H))
      → is_due now (find k m) ≡ false
      → find k (fire now j m) ≡ find k m
  find-fire now k j m h = elim (Bool-cases (is_due now (find j m))) [
    | inr idle ↦ rw (idle, fire) refl
    | inl due ↦ elim (Bool-cases (key_eq j k)) [
      | inr other ↦ rw (due, fire) (find-timeout_other k j m other)
      | inl same ↦
          absurd (let e = subst (λ z. is_due now (find z m) ≡ true) (key_eq→≡ j k same) due in cc)
    ]
  ]

  find-fire_all :
      (now : ℕ) (k : Key) (ks : List Key) (m : List (Key × PartialPacket H))
      → is_due now (find k m) ≡ false
      → find k (fire_all now ks m) ≡ find k m
  unfolding fire_all
  find-fire_all now k [] m h = refl
  find-fire_all now k (j ∷ ks) m h =
      let e = find-fire now k j m h in
      find-fire_all now k ks (fire now j m) (ap (is_due now) e ∙ h) ∙ e

  pub find-run_timers :
      (now : ℕ) (k : Key) (m : List (Key × PartialPacket H))
      → is_due now (find k m) ≡ false
      → find k (run_timers now m) ≡ find k m
  unfolding run_timers
  find-run_timers now k m h = find-fire_all now k _ m h
