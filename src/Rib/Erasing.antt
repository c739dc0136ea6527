-- ===== src/Rib/Erasing.antt =====
-- Rib::erase of daemon/rib/rib.cpp on the table as a map from names, faces and origins to routes.
use nfd_out_of_the_box.Prelude.{
  is_empty, is_empty, is_empty, is_empty, is_empty, is_empty, is_empty, is_empty, is_empty,
  is_empty, is_empty, is_empty, is_empty, is_empty, is_empty, is_empty, is_empty, is_empty,
  is_empty, is_empty, is_empty, is_empty, is_empty, is_empty, ◌≡◌, refl, sym, ap, ◌∙◌, subst, ◌↔◌,
  ◌⊎◌, inl, inr, Bool, true, false, ◌&&◌, Option, none, some, List, [], ◌∷◌, arith, if◌then◌else◌,
  Bool-cases, Option-cases,
}
use nfd_out_of_the_box.Rib.{
  find_route_in, compare_face_id_and_origin, find_route, erase_route, RibEntry, Route, Ndn,
}
use nfd_out_of_the_box.Rib.Table.{
  Rib, erase_from_rib, unlink_from_parent, move_children, erase_entry_from_rib, route_of,
  find_in_rib, erase_from_table, modify_entry, find_in_table,
}
use nfd_out_of_the_box.Rib.Lookup.{
  lookup-replace, keys-unlink_from_parent, keys-move_children, same_with, differ, lookup_later,
  lookup_here, not_same, found_none, found_cases, keys,
}
use nfd_out_of_the_box.Rib.Refinement.{
  lookup_found, find_same_key, find_route_in-erase_route_in, same_lookup, erased_from_entry,
  lookup_missing, HasDistinctRoutes, IsKeyed,
}

module _ {N : Type 0} (ndn : Ndn N) where
  -- The names, which the links do not change.
  abbrev IsAbsent : N → List (N × List Route) → Type 0
  IsAbsent n [] = Unit {0}
  IsAbsent n (k ∷ ks) = (ndn.same k.0 n ≡ false) × IsAbsent n ks

  abbrev IsOnce : N → List (N × List Route) → Type 0
  IsOnce n [] = Unit {0}
  IsOnce n (k ∷ ks) =
      ((ndn.same k.0 n ≡ true) × IsAbsent n ks) ⊎ ((ndn.same k.0 n ≡ false) × IsOnce n ks)

  IsAbsent-find_in_table :
      (n : N) (t : List (RibEntry N)) → find_in_table ndn n t ≡ none → IsAbsent n (keys ndn t)
  IsAbsent-find_in_table n [] h = tt
  IsAbsent-find_in_table n (e ∷ t) h =
      let (other, rest) = found_none ndn n e t h in (other, IsAbsent-find_in_table n t rest)

  find_in_table-IsAbsent :
      (n : N) (t : List (RibEntry N)) → IsAbsent n (keys ndn t) → find_in_table ndn n t ≡ none
  unfolding find_in_table
  find_in_table-IsAbsent n [] h = refl
  find_in_table-IsAbsent n (e ∷ t) h = rw h.0 (find_in_table-IsAbsent n t h.1)

  module _ (lawful : (a b : N) → (ndn.same a b ≡ true) ↔ (a ≡ b)) where
    name_erased :
        (n : N) (t : List (RibEntry N)) {e : RibEntry N}
        → find_in_table ndn n t ≡ some e
        → e.name ≡ n
    unfolding find_in_table
    name_erased n [] h = absurd (ground arith)
    name_erased n (y ∷ t) {e = e} h = elim (found_cases ndn n y t h) [
      | inl (s, k) ↦ ap (λ (z : RibEntry N). z.name) (sym k) ∙ (lawful y.name n).0 s
      | inr (s, k) ↦ name_erased n t k
    ]

    keyed-IsOnce : (n : N) (t : List (RibEntry N)) → IsKeyed ndn t → IsOnce n (keys ndn t)
    keyed-IsOnce n [] w = tt
    keyed-IsOnce n (e ∷ t) w = elim (Bool-cases (ndn.same e.name n)) [
      | inl s ↦ inl (
        s,
        IsAbsent-find_in_table n t
            (subst (λ z. find_in_table ndn z t ≡ none) ((lawful e.name n).0 s) w.0),
      )
      | inr s ↦ inr (s, keyed-IsOnce n t w.2)
    ]

    replaced-IsOnce :
        (n : N) (x : RibEntry N) (t : List (RibEntry N))
        → x.name ≡ n
        → IsOnce n (keys ndn t)
        → IsOnce n (keys ndn (modify_entry ndn n (λ z. x) t))
    unfolding modify_entry
    replaced-IsOnce n x [] h o = tt
    replaced-IsOnce n x (e ∷ t) h (inl (s, a)) = rw s (inl ((lawful x.name n).1 h, a))
    replaced-IsOnce n x (e ∷ t) h (inr (s, o)) = rw s (inr (s, replaced-IsOnce n x t h o))

    lookup-erase_from_table :
        (m n : N) (q : Route) (t : List (RibEntry N))
        → IsOnce n (keys ndn t)
        → find_in_rib ndn m q (erase_from_table ndn n t)
          ≡ (if ndn.same n m then none else find_in_rib ndn m q t)
    unfolding erase_from_table find_in_rib find_in_table route_of
    lookup-erase_from_table m n q [] o = elim (Bool-cases (ndn.same n m)) [
      | inl k ↦ rw k refl
      | inr k ↦ rw k refl
    ]
    lookup-erase_from_table m n q (e ∷ t) (inl (s, a)) = rw s (elim (Bool-cases (ndn.same n m)) [
      | inl k ↦ rw k (elim (lookup_missing ndn lawful m n q t (find_in_table-IsAbsent n t a)) [
        | inl f ↦ absurd (differ (sym k ∙ f))
        | inr p ↦ sym p
      ])
      | inr k ↦ rw k (
          sym
            (lookup_later ndn lawful m q e t (same_with ndn lawful ((lawful e.name n).0 s) m ∙ k)))
    ])
    lookup-erase_from_table m n q (e ∷ t) (inr (s, o)) =
        rw s (elim (Bool-cases (ndn.same e.name m)) [
          | inl c ↦
              rw (not_same ndn lawful e.name m n c s)
                (lookup_here ndn lawful m q e _ c ∙ sym (lookup_here ndn lawful m q e t c))
          | inr c ↦
              lookup_later ndn lawful m q e _ c
              ∙ (lookup-erase_from_table m n q t o
                  ∙ ap (λ z. if ndn.same n m then none else z)
                      (sym (lookup_later ndn lawful m q e t c)))
        ])

    -- The entry without routes goes.
    gone :
        (a b : Bool) (o p s : Option Route)
        → p ≡ (if a && b then none else s)
        → (a ≡ false) ⊎ (p ≡ none)
        → o ≡ (if a then none else p)
        → o ≡ (if a && b then none else s)
    gone a b o p s h g k = ground arith

    erased_route :
        (q r : Route) (e : RibEntry N) {o : Route}
        → HasDistinctRoutes e.routes
        → find_route r e ≡ some o
        → ((erase_route ndn r e).name ≡ e.name)
          × (find_route q (erase_route ndn r e)
              ≡ (if compare_face_id_and_origin r q then none else find_route q e))
    unfolding erase_route find_route
    erased_route q r e d h = rw (h, erase_route) (refl, find_route_in-erase_route_in q r e.routes d)

    distinct_routes :
        (n : N) (t : List (RibEntry N)) {e : RibEntry N}
        → IsKeyed ndn t
        → find_in_table ndn n t ≡ some e
        → HasDistinctRoutes e.routes
    unfolding find_in_table
    distinct_routes n [] w h = absurd (ground arith)
    distinct_routes n (y ∷ t) w h = elim (found_cases ndn n y t h) [
      | inl (s, k) ↦ subst (λ (z : RibEntry N). HasDistinctRoutes z.routes) k w.1
      | inr (s, k) ↦ distinct_routes n t w.2 k
    ]

    no_routes :
        (q : Route) (e : RibEntry N) (rs : List Route)
        → e.routes ≡ rs
        → is_empty rs ≡ true
        → find_route q e ≡ none
    unfolding find_route find_route_in
    no_routes q e [] h g = rw h refl
    no_routes q e (r ∷ rs) h g = absurd (ground arith)

    lookup-erase_entry_from_rib :
        (n m : N) (q r : Route) (x : RibEntry N) (t : List (RibEntry N)) {e : RibEntry N}
        → IsKeyed ndn t
        → find_in_table ndn n t ≡ some e
        → x.name ≡ e.name
        → find_route q x ≡ (if compare_face_id_and_origin r q then none else find_route q e)
        → is_empty x.routes ≡ true
        → find_in_rib ndn m q (erase_entry_from_rib ndn x (modify_entry ndn n (λ z. x) t))
          ≡ (if ndn.same n m && compare_face_id_and_origin r q then none else find_in_rib ndn m q t)
    unfolding erase_entry_from_rib
    lookup-erase_entry_from_rib n m q r x t {e = e} w h g k v =
        let t1 = modify_entry ndn n (λ z. x) t in
        let t2 =
          move_children ndn x.parent x.name x.children
            (unlink_from_parent ndn x.parent x.name t1) in
        let links =
          keys-move_children ndn x.parent x.name x.children _
          ∙ keys-unlink_from_parent ndn x.parent x.name t1 in
        let named = g ∙ name_erased n t h in
        let unique =
          subst (IsOnce n) (sym links) (replaced-IsOnce n x t named (keyed-IsOnce n t w)) in
        gone (ndn.same n m) (compare_face_id_and_origin r q) _ (find_in_rib ndn m q t1) _
          (erased_from_entry ndn lawful n m q r x t h g k)
          (elim (Bool-cases (ndn.same n m)) [
            | inl c ↦
                inr (lookup-replace ndn lawful m n q x t h g ∙ rw c (no_routes q x x.routes refl v))
            | inr c ↦ inl c
          ])
          (ap (λ z. find_in_rib ndn m q (erase_from_table ndn z t2)) named
            ∙ (lookup-erase_from_table m n q t2 unique
                ∙ ap (λ z. if ndn.same n m then none else z)
                    (same_lookup ndn lawful m q t2 t1 links)))

    no_entry :
        (a b : Bool) (s : Option Route)
        → (a ≡ false) ⊎ (none ≡ s)
        → s ≡ (if a && b then none else s)
    no_entry a b s h = ground arith

    no_route :
        (a b : Bool) (o s : Option Route)
        → (a ≡ false) ⊎ (o ≡ s)
        → (b ≡ false) ⊎ (o ≡ none)
        → s ≡ (if a && b then none else s)
    no_route a b o s h g = ground arith

    missing_route :
        (q r : Route) (e : RibEntry N)
        → find_route r e ≡ none
        → (compare_face_id_and_origin r q ≡ false) ⊎ (find_route q e ≡ none)
    unfolding find_route
    missing_route q r e h = elim (Bool-cases (compare_face_id_and_origin r q)) [
      | inl k ↦ inr (find_same_key q r e.routes k ∙ h)
      | inr k ↦ inl k
    ]

    -- Where names are compared by equality, each name has one entry, and an entry one route for each
    -- face and origin, erasing a route leaves none for its name, face and origin, also when the
    -- entry goes with it. What is found for any other name, face or origin stays the same.
    pub find_in_rib-erase_from_rib :
        (n m : N) (r q : Route) (b : Rib N)
        → IsKeyed ndn b.table
        → find_in_rib ndn m q (erase_from_rib ndn n r b).table ≡ (
            if ndn.same n m && compare_face_id_and_origin r q
            then none
            else find_in_rib ndn m q b.table)
    unfolding erase_from_rib
    find_in_rib-erase_from_rib n m r q b w = elim (Option-cases (find_in_table ndn n b.table)) [
      | inl h ↦ rw (h, erase_from_rib) (no_entry _ _ _ (lookup_missing ndn lawful m n q b.table h))
      | inr (e, h) ↦ elim (Option-cases (find_route r e)) [
        | inl g ↦
            rw (h, erase_from_rib, g)
              (no_route _ _ (find_route q e) _ (lookup_found ndn lawful m n q b.table h)
                (missing_route q r e g))
        | inr (o, g) ↦
            let (name, routes) = erased_route q r e (distinct_routes n b.table w h) g in
            elim (Bool-cases (is_empty (erase_route ndn r e).routes)) [
              | inl v ↦
                  rw (h, erase_from_rib, g, v)
                    (lookup-erase_entry_from_rib n m q r (erase_route ndn r e) b.table w h name
                      routes v)
              | inr v ↦
                  rw (h, erase_from_rib, g, v)
                    (erased_from_entry ndn lawful n m q r (erase_route ndn r e) b.table h name
                      routes)
            ]
      ]
    ]
