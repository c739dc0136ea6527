-- ===== src/Rib/Captures.antt =====
-- The counter of the routes that capture, of daemon/rib/rib-entry.cpp, and how Rib::insert leaves it.
use nfd_out_of_the_box.Prelude.{
  ℕ, ◌+◌, ◌%◌, ◌≡◌, refl, sym, ◌∙◌, ◌≢◌, inl, inr, Bool, true, false, some, List, [], ◌∷◌, ◌++◌,
  arith, if◌then◌else◌, Option-cases,
}
use nfd_out_of_the_box.Rib.{
  decrement, increment, find_route, erase_route, modify_route_in, erase_route_in, is_rib_capture,
  insert_route, find_route_in, RibEntry, Route, Ndn,
}
use nfd_out_of_the_box.Rib.Table.{assign_route}

counted_more :
    (b : Bool) (c m n : ℕ)
    → c ≡ n % 18446744073709551616
    → m ≡ n + (if b then 1 else 0)
    → (if b then increment c else c) ≡ m % 18446744073709551616
counted_more true c m n h e = omega (arith, h, e)
counted_more false c m n h e = omega (arith, h, e)

counted_less :
    (b : Bool) (c m n : ℕ)
    → c ≡ n % 18446744073709551616
    → m + (if b then 1 else 0) ≡ n
    → (if b then decrement c else c) ≡ m % 18446744073709551616
counted_less true c m n h e = omega (arith, h, e)
counted_less false c m n h e = omega (arith, h, e)

differs :
    (b d : Bool)
    → b ≢ d
    → (m n : ℕ) → m + (if b then 1 else 0) ≡ n + (if d then 1 else 0)
    → n % 18446744073709551616 ≢ m % 18446744073709551616
differs true true h m n e q = absurd (h refl)
differs false false h m n e q = absurd (h refl)
differs true false h m n e q = absurd (omega (arith, e, q))
differs false true h m n e q = absurd (omega (arith, e, q))

module _ {N : Type 0} (ndn : Ndn N) where
  abbrev pub weight : Route → ℕ
  weight r = if is_rib_capture ndn r then 1 else 0

  abbrev pub count_captures : List Route → ℕ
  count_captures [] = 0
  count_captures (r ∷ rs) = weight r + count_captures rs

  -- The counter is the number of routes that capture, in 64 bits.
  abbrev pub IsCounted : RibEntry N → Type 0
  IsCounted e = e.n_routes_with_capture_set ≡ count_captures e.routes % 18446744073709551616

  count_captures-append :
      (rs : List Route) (r : Route) → count_captures (rs ++ r ∷ []) ≡ count_captures rs + weight r
  count_captures-append [] r = omega arith
  count_captures-append (s ∷ rs) r = omega (arith, count_captures-append rs r)

  count_captures-erase :
      (x : Route) (rs : List Route) {o : Route}
      → find_route_in x rs ≡ some o
      → count_captures (erase_route_in x rs) + weight o ≡ count_captures rs
  unfolding find_route_in erase_route_in
  count_captures-erase x [] h = ground arith
  count_captures-erase x (r ∷ rs) {o = o} h = ground (arith, count_captures-erase x rs {o = o})

  count_captures-modify :
      (u : Route → Route) (x : Route) (rs : List Route) {o : Route}
      → find_route_in x rs ≡ some o
      → count_captures (modify_route_in u x rs) + weight o ≡ count_captures rs + weight (u o)
  unfolding find_route_in modify_route_in
  count_captures-modify u x [] h = ground arith
  count_captures-modify u x (r ∷ rs) {o = o} h =
      ground (arith, count_captures-modify u x rs {o = o})

  -- Inserting and erasing a route, whether the entry has it or not, keep the counter equal to the number of
  -- the routes with the CAPTURE flag, in 64 bits.
  pub insert_route-erase_route-IsCounted :
      (r : Route) (e : RibEntry N)
      → IsCounted e
      → IsCounted (insert_route ndn r e).0 × IsCounted (erase_route ndn r e)
  unfolding insert_route erase_route find_route
  insert_route-erase_route-IsCounted r e h = elim (Option-cases (find_route_in r e.routes)) [
    | inl n ↦
        rw (n, insert_route, erase_route, find_route)
          (
            counted_more (is_rib_capture ndn r) _ _ (count_captures e.routes) h
                (count_captures-append e.routes r),
            h,
          )
    | inr (o, n) ↦
        rw (n, insert_route, erase_route, find_route)
          (
            h,
            counted_less (is_rib_capture ndn o) _ _ (count_captures e.routes) h
                (count_captures-erase r e.routes n),
          )
  ]

  -- What Rib::insert does to a route that exists: where it turns the CAPTURE flag on or off, the counter
  -- no longer is the number of the routes with the flag.
  pub assign_route-IsCounted_fails :
      (r : Route) (e : RibEntry N) {o : Route}
      → find_route r e ≡ some o
      → is_rib_capture ndn o ≢ is_rib_capture ndn r
      → IsCounted e
      → ¬ IsCounted (assign_route ndn r e)
  unfolding assign_route find_route
  assign_route-IsCounted_fails r e {o = o} f d h g =
      differs (is_rib_capture ndn o) (is_rib_capture ndn r) d _ _
        (count_captures-modify (λ x. r) r e.routes f) (sym h ∙ g)
