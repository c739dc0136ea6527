-- ===== src/Link/Remaining.antt =====
-- The map of fragments of daemon/face/lp-reliability.cpp, and the retransmissions that they have left.
use nfd_out_of_the_box.Prelude.{
  ℕ, ◌+◌, ◌-◌, ◌≤◌, ◌<◌, ◌≡◌, refl, inl, inr, none, some, List, [], ◌∷◌, arith, ltb, ◌==◌,
  Bool-cases, ap,
}
use nfd_out_of_the_box.Link.Reliability.{UnackedFrag, modify_at, emplace_at, erase_at, find_at}

-- The map of fragments, in the order of its keys.
abbrev pub AllAbove : {A : Type 0} → ℕ → List (ℕ × A) → Type 0
AllAbove n [] = Unit {0}
AllAbove n (x ∷ xs) = (n < x.0) × AllAbove n xs

abbrev pub IsAscending : {A : Type 0} → List (ℕ × A) → Type 0
IsAscending [] = Unit {0}
IsAscending (x ∷ xs) = AllAbove x.0 xs × IsAscending xs

module _ {A : Type 0} where
  pub AllAbove-mono : (a b : ℕ) (xs : List (ℕ × A)) → a ≤ b → AllAbove b xs → AllAbove a xs
  AllAbove-mono a b [] le h = tt
  AllAbove-mono a b (x ∷ xs) le h = (omega arith, AllAbove-mono a b xs le h.1)

  pub find_at-AllAbove : (k : ℕ) (xs : List (ℕ × A)) → AllAbove k xs → find_at k xs ≡ none
  unfolding find_at
  find_at-AllAbove k [] h = refl
  find_at-AllAbove k (x ∷ xs) h = ground (arith, find_at-AllAbove k xs h.1)

  erase_at-AllAbove : (n k : ℕ) (xs : List (ℕ × A)) → AllAbove n xs → AllAbove n (erase_at k xs)
  unfolding erase_at
  erase_at-AllAbove n k [] h = tt
  erase_at-AllAbove n k (x ∷ xs) h = ground (arith, erase_at-AllAbove n k xs h.1)

  pub erase_at-IsAscending :
      (k : ℕ) (xs : List (ℕ × A)) → IsAscending xs → IsAscending (erase_at k xs)
  unfolding erase_at
  erase_at-IsAscending k [] h = tt
  erase_at-IsAscending k (x ∷ xs) h =
      ground (arith, erase_at-IsAscending k xs h.1, erase_at-AllAbove x.0 k xs h.0)

  emplace_at-AllAbove :
      (n k : ℕ) (v : A) (xs : List (ℕ × A)) → n < k → AllAbove n xs → AllAbove n (emplace_at k v xs)
  unfolding emplace_at
  emplace_at-AllAbove n k v [] l h = (l, tt)
  emplace_at-AllAbove n k v (x ∷ xs) l h = ground (arith, emplace_at-AllAbove n k v xs l h.1)

  pub emplace_at-IsAscending :
      (k : ℕ) (v : A) (xs : List (ℕ × A)) → IsAscending xs → IsAscending (emplace_at k v xs)
  unfolding emplace_at
  emplace_at-IsAscending k v [] h = (tt, tt)
  emplace_at-IsAscending k v (x ∷ xs) h = elim (Bool-cases (x.0 == k)) [
    | inl same ↦ rw (same, emplace_at) h
    | inr other ↦ elim (Bool-cases (ltb k x.0)) [
      | inl before ↦
          let l : k < x.0 = ground arith in
          rw (other, before, emplace_at) ((l, AllAbove-mono k x.0 xs (omega arith) h.0), h)
      | inr after ↦
          let l : x.0 < k = ground arith in
          rw (other, after, emplace_at)
            (emplace_at-AllAbove x.0 k v xs l h.0, emplace_at-IsAscending k v xs h.1)
    ]
  ]

  modify_at-AllAbove :
      (n k : ℕ) (u : A → A) (xs : List (ℕ × A)) → AllAbove n xs → AllAbove n (modify_at k u xs)
  unfolding modify_at
  modify_at-AllAbove n k u [] h = tt
  modify_at-AllAbove n k u (x ∷ xs) h = ground (arith, modify_at-AllAbove n k u xs h.1)

  pub modify_at-IsAscending :
      (k : ℕ) (u : A → A) (xs : List (ℕ × A)) → IsAscending xs → IsAscending (modify_at k u xs)
  unfolding modify_at
  modify_at-IsAscending k u [] h = tt
  modify_at-IsAscending k u (x ∷ xs) h =
      ground (arith, modify_at-IsAscending k u xs h.1, modify_at-AllAbove x.0 k u xs h.0)

  -- What is in the map stays where it is when another value is emplaced.
  find_at-emplace_at :
      (k j : ℕ) (v a : A) (xs : List (ℕ × A))
      → IsAscending xs
      → find_at k xs ≡ some a
      → find_at k (emplace_at j v xs) ≡ some a
  unfolding find_at emplace_at
  find_at-emplace_at k j v a [] h e = absurd (cc)
  find_at-emplace_at k j v a (x ∷ xs) h e = elim (Bool-cases (x.0 == j)) [
    | inl same ↦ rw (same, emplace_at) e
    | inr other ↦ elim (Bool-cases (ltb j x.0)) [
      | inl before ↦
          rw (other, before, emplace_at)
            (elim (Bool-cases (j == k)) [
              | inr apart ↦ rw (apart, find_at) e
              | inl hit ↦ absurd (
                  let l : k < x.0 = ground arith in
                  let gone =
                    find_at-AllAbove k (x ∷ xs) (l, AllAbove-mono k x.0 xs (omega arith) h.0) in
                  cc)
            ])
      | inr after ↦
          rw (other, after, emplace_at)
            (elim (Bool-cases (x.0 == k)) [
              | inl here ↦ rw (here, find_at) (rw here at e)
              | inr there ↦ rw (there, find_at) (find_at-emplace_at k j v a xs h.1 (rw there at e))
            ])
    ]
  ]

module _ {H : Type 0} (m : ℕ) where
  -- The retransmissions that the fragments in the map have left.
  abbrev pub retx_left : List (ℕ × UnackedFrag H) → ℕ
  retx_left [] = 0
  retx_left (x ∷ xs) = (m - x.1.retx_count) + retx_left xs

  pub emplace_at-retx_left :
      (k : ℕ) (f : UnackedFrag H) (xs : List (ℕ × UnackedFrag H))
      → retx_left (emplace_at k f xs) ≤ (m - f.retx_count) + retx_left xs
  unfolding emplace_at
  emplace_at-retx_left k f [] = omega arith
  emplace_at-retx_left k f (x ∷ xs) = ground (arith, emplace_at-retx_left k f xs)

  pub erase_at-retx_left :
      (k : ℕ) (xs : List (ℕ × UnackedFrag H)) → retx_left (erase_at k xs) ≤ retx_left xs
  unfolding erase_at
  erase_at-retx_left k [] = omega arith
  erase_at-retx_left k (x ∷ xs) = ground (arith, erase_at-retx_left k xs)

  find_at-retx_left :
      (k : ℕ) (f : UnackedFrag H) (xs : List (ℕ × UnackedFrag H))
      → find_at k xs ≡ some f
      → retx_left (erase_at k xs) + (m - f.retx_count) ≡ retx_left xs
  unfolding find_at erase_at
  find_at-retx_left k f [] e = absurd (cc)
  find_at-retx_left k f (x ∷ xs) e = elim (Bool-cases (x.0 == k)) [
    | inl here ↦
        let same : x.1 ≡ f = ground arith in
        rw (here, erase_at) (omega (arith, ap (λ (z : UnackedFrag H). m - z.retx_count) same))
    | inr there ↦ rw (there, erase_at) (omega (arith, find_at-retx_left k f xs (rw there at e)))
  ]

  pub modify_at-retx_left :
      (k : ℕ) (u : UnackedFrag H → UnackedFrag H) (xs : List (ℕ × UnackedFrag H))
      → ((f : UnackedFrag H) → (u f).retx_count ≡ f.retx_count)
      → retx_left (modify_at k u xs) ≡ retx_left xs
  unfolding modify_at
  modify_at-retx_left k u [] h = refl
  modify_at-retx_left k u (x ∷ xs) h = ground (arith, h x.1, modify_at-retx_left k u xs h)

  -- A fragment that moves to a new sequence has a retransmission less left.
  pub moved-retx_left :
      (k j : ℕ) (f g : UnackedFrag H) (xs : List (ℕ × UnackedFrag H))
      → IsAscending xs
      → find_at k xs ≡ some f
      → f.retx_count < m
      → g.retx_count ≡ f.retx_count + 1
      → retx_left (erase_at k (emplace_at j g xs)) + 1 ≤ retx_left xs
  moved-retx_left k j f g xs h e l q =
      let found = find_at-retx_left k f (emplace_at j g xs) (find_at-emplace_at k j g f xs h e) in
      let put = emplace_at-retx_left j g xs in omega (arith, found, put, l, q)
