-- ===== src/Rib/Nulls.antt =====
-- When daemon/rib/fib-updater.cpp dereferences a null pointer on the update of a route that exists.
use nfd_out_of_the_box.Prelude.{
  ◌≤◌, ◌<◌, ◌≡◌, refl, sym, ap, ◌∙◌, subst, ◌≢◌, ◌↔◌, ◌⊎◌, inl, inr, Bool, true, false, ◌&&◌,
  Option, none, some, List, [], ◌∷◌, arith, ◌==◌,
}
use nfd_out_of_the_box.Rib.{
  get_route_with_lowest_cost_and_child_inherit_by_face_id, get_route_with_lowest_cost_by_face_id,
  is_child_inherit, find_route, RibUpdate, compare_face_id_and_origin, RibEntry, modify_route_in,
  Ndn, find_route_in, Route,
}
use nfd_out_of_the_box.Rib.Changes.{
  reinstall_previous, create_fib_updates_for_updated_route, after_own_cost, compare_with_lowest,
  update_own_cost, updated_copy, compute_updates_for_registration,
}
use nfd_out_of_the_box.Rib.Costs.{
  none_lowest, lowest_bound, has_none, lowest_from_lem, HasNone, IsIn,
}
use nfd_out_of_the_box.Rib.Updater.{FibUpdater}
use nfd_out_of_the_box.Rib.Table.{find_in_table}

written_cases :
    (x r : Route) (rs : List Route) {o : Route}
    → find_route_in x (r ∷ rs) ≡ some o
    → ((compare_face_id_and_origin r x ≡ true) × (o ≡ r))
      ⊎ ((compare_face_id_and_origin r x ≡ false) × (find_route_in x rs ≡ some o))
unfolding find_route_in
written_cases x r rs h = ground arith

written :
    (u : Route → Route) (x : Route) (rs : List Route) {o : Route}
    → find_route_in x rs ≡ some o
    → IsIn (u o) (modify_route_in u x rs) × (compare_face_id_and_origin o x ≡ true)
unfolding find_route_in modify_route_in
written u x [] h = absurd (ground arith)
written u x (r ∷ rs) {o = o} h = elim (written_cases x r rs h) [
  | inl (e, q) ↦ rw e (inl (ap u q), subst (λ z. compare_face_id_and_origin z x ≡ true) (sym q) e)
  | inr (e, q) ↦ let (i, c) = written u x rs {o = o} q in rw e (inr i, c)
]

same_face : (o r : Route) → compare_face_id_and_origin o r ≡ true → (o.face_id == r.face_id) ≡ true
same_face o r h = ground arith

both : (a b : Bool) → a ≡ true → b ≡ true → a && b ≡ true
both a b h g = ground arith

not_none : {a : Route} → some a ≢ none
not_none h = ground arith

module _ {N : Type 0} (ndn : Ndn N) where
  compare_fails :
      (e : RibEntry N) (r o l : Route) (prev : Option Route) (x : FibUpdater N)
      → (compare_with_lowest ndn e r o prev (some l) x ≡ none)
        ↔ ((l.cost < r.cost) × (o.cost < l.cost) × (prev ≡ none))
  unfolding compare_with_lowest reinstall_previous
  compare_fails e r o l prev x = ground arith

  after_fails :
      (t : List (RibEntry N)) (e : RibEntry N) (r o : Route) (prev : Option Route)
      (y : Option (FibUpdater N))
      → (after_own_cost ndn t e r o prev y ≡ none) ↔ (y ≡ none)
  unfolding after_own_cost
  after_fails t e r o prev y = ground arith

  updated_fails :
      (t : List (RibEntry N)) (e : RibEntry N) (r o l : Route) (x : FibUpdater N)
      → get_route_with_lowest_cost_by_face_id r.face_id e ≡ some l
      → (create_fib_updates_for_updated_route ndn t e r o x ≡ none) ↔ (
          (l.cost < r.cost)
          × (o.cost < l.cost)
          × (get_route_with_lowest_cost_and_child_inherit_by_face_id ndn r.face_id e ≡ none))
  unfolding create_fib_updates_for_updated_route update_own_cost
  updated_fails t e r o l x h =
      let prev = get_route_with_lowest_cost_and_child_inherit_by_face_id ndn r.face_id e in
      rw h (
        ground (
          arith,
          after_fails t e r o prev (compare_with_lowest ndn e r o prev (some l) x),
          compare_fails e r o l prev x,
        ))

  registration_fails :
      (t : List (RibEntry N)) (u : RibUpdate N) (x : FibUpdater N) {e : RibEntry N} {o : Route}
      → find_in_table ndn u.name t ≡ some e
      → find_route u.route e ≡ some o
      → compute_updates_for_registration ndn t u x
        ≡ create_fib_updates_for_updated_route ndn t (updated_copy ndn u.route e) u.route o x
  unfolding compute_updates_for_registration
  registration_fails t u x h g = rw (h, compute_updates_for_registration, g) refl

  -- An update of a route that the RIB has dereferences no null pointer when it does not raise the cost of
  -- the route, and none when the updated route has the CHILD_INHERIT flag.
  pub compute_updates_for_registration_succeeds :
      (t : List (RibEntry N)) (u : RibUpdate N) (x : FibUpdater N) {e : RibEntry N} {o : Route}
      → find_in_table ndn u.name t ≡ some e
      → find_route u.route e ≡ some o
      → (u.route.cost ≤ o.cost) ⊎ (is_child_inherit ndn u.route ≡ true)
      → compute_updates_for_registration ndn t u x ≢ none
  unfolding find_route updated_copy get_route_with_lowest_cost_by_face_id
      get_route_with_lowest_cost_and_child_inherit_by_face_id
  compute_updates_for_registration_succeeds t u x {e = e} {o = o} h g c k =
      let r = u.route in
      let e2 = updated_copy ndn r e in
      let write = λ (z : Route). record z { flags = r.flags; cost = r.cost; expires = r.expires } in
      let (i, same) = written write r e.routes {o = o} g in
      let on_face = same_face o r same in
      elim (lowest_from_lem (λ z. z.face_id == r.face_id) e2.routes) [
        | inl (q, n) ↦ absurd (has_none _ (write o) e2.routes i on_face n)
        | inr (l, q, (_, _, b)) ↦
            let (lt, was, unset) =
              (updated_fails t e2 r o l x q).0 (sym (registration_fails t u x h g) ∙ k) in
            let bound = lowest_bound _ l.cost (write o) e2.routes i on_face b in
            elim c [
              | inl d ↦ omega (arith, d, lt, was, bound)
              | inr d ↦
                  elim (lowest_from_lem (λ z. z.face_id == r.face_id && is_child_inherit ndn z)
                    e2.routes) [
                      | inl (p, n) ↦ has_none _ (write o) e2.routes i (both _ _ on_face d) n
                      | inr (m, p, _) ↦ not_none (sym p ∙ unset)
                    ]
            ]
      ]

  -- An update that raises the cost of a route past the cost of another one on the same face, so that the cheapest
  -- after the update is one that was dearer before, dereferences a null pointer when no route on
  -- the face has the CHILD_INHERIT flag.
  pub compute_updates_for_registration_fails :
      (t : List (RibEntry N)) (u : RibUpdate N) (x : FibUpdater N) {e : RibEntry N} {o l : Route}
      → find_in_table ndn u.name t ≡ some e
      → find_route u.route e ≡ some o
      → get_route_with_lowest_cost_by_face_id u.route.face_id (updated_copy ndn u.route e) ≡ some l
      → o.cost < l.cost
      → l.cost < u.route.cost
      → HasNone
          (λ r. r.face_id == u.route.face_id && is_child_inherit ndn r)
          (updated_copy ndn u.route e).routes
      → compute_updates_for_registration ndn t u x ≡ none
  unfolding get_route_with_lowest_cost_and_child_inherit_by_face_id
  compute_updates_for_registration_fails t u x {e = e} {o = o} {l = l} h g c d k n =
      registration_fails t u x h g
      ∙ (updated_fails t (updated_copy ndn u.route e) u.route o l x c).1
          (k, d, none_lowest _ (updated_copy ndn u.route e).routes n)
