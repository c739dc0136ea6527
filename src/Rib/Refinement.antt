-- ===== src/Rib/Refinement.antt =====
-- The table of daemon/rib/rib.cpp as a map from names, faces and origins to routes: Rib::insert sets the value of
-- one key, and Rib::erase removes it.
use nfd_out_of_the_box.Prelude.{
  ◌≡◌, refl, sym, ap, ◌∙◌, ◌↔◌, ◌⊎◌, inl, inr, Bool, true, false, ◌&&◌, Option, none, some, List,
  [], ◌∷◌, ◌++◌, arith, if◌then◌else◌, Bool-cases, Option-cases,
}
use nfd_out_of_the_box.Rib.{
  find_route, insert_route, RibEntry, erase_route_in, modify_route_in, compare_face_id_and_origin,
  Ndn, find_route_in, Route,
}
use nfd_out_of_the_box.Rib.Lookup.{
  lookup-replace, lookup-put_in_table, keys-link_to_parent, keys-adopt, lookup_cons, keys, find_key,
}
use nfd_out_of_the_box.Rib.Table.{
  assign_route, modify_entry, find_descendants, link_to_parent, find_parent, name_of, put_in_table,
  Rib, fresh_entry, insert_in_rib, insert_new_entry, route_of, find_in_table, find_in_rib,
}

-- Routes of one entry.
abbrev pub HasDistinctRoutes : List Route → Type 0
HasDistinctRoutes [] = Unit {0}
HasDistinctRoutes (r ∷ rs) = (find_route_in r rs ≡ none) × HasDistinctRoutes rs

find_route_in-append :
    (q r : Route) (rs : List Route)
    → find_route_in r rs ≡ none
    → find_route_in q (rs ++ r ∷ [])
      ≡ (if compare_face_id_and_origin r q then some r else find_route_in q rs)
unfolding find_route_in
find_route_in-append q r [] h = ground arith
find_route_in-append q r (s ∷ rs) h = ground (arith, find_route_in-append q r rs)

find_route_in-modify_route_in :
    (q r : Route) (rs : List Route) {o : Route}
    → find_route_in r rs ≡ some o
    → find_route_in q (modify_route_in (λ x. r) r rs)
      ≡ (if compare_face_id_and_origin r q then some r else find_route_in q rs)
unfolding find_route_in modify_route_in
find_route_in-modify_route_in q r [] h = ground arith
find_route_in-modify_route_in q r (s ∷ rs) {o = o} h =
    ground (arith, find_route_in-modify_route_in q r rs {o = o})

pub find_same_key :
    (q r : Route) (rs : List Route)
    → compare_face_id_and_origin r q ≡ true
    → find_route_in q rs ≡ find_route_in r rs
unfolding find_route_in
find_same_key q r [] h = refl
find_same_key q r (s ∷ rs) h = ground (arith, find_same_key q r rs h)

pub find_route_in-erase_route_in :
    (q r : Route) (rs : List Route)
    → HasDistinctRoutes rs
    → find_route_in q (erase_route_in r rs)
      ≡ (if compare_face_id_and_origin r q then none else find_route_in q rs)
unfolding find_route_in erase_route_in
find_route_in-erase_route_in q r [] d = ground arith
find_route_in-erase_route_in q r (s ∷ rs) d =
    ground (arith, find_route_in-erase_route_in q r rs d.1, find_same_key q s rs)

module _ {N : Type 0} (ndn : Ndn N) where
  -- Each name has one entry, and an entry one route for each face and origin.
  abbrev pub IsKeyed : List (RibEntry N) → Type 0
  IsKeyed [] = Unit {0}
  IsKeyed (e ∷ t) = (find_in_table ndn e.name t ≡ none) × HasDistinctRoutes e.routes × IsKeyed t

  inserted_route :
      (r : Route) (e : RibEntry N)
      → find_route r e ≡ none
      → (insert_route ndn r e).1 ≡ true
        × ((insert_route ndn r e).0.name ≡ e.name)
        × ((insert_route ndn r e).0.routes ≡ e.routes ++ r ∷ [])
  unfolding insert_route
  inserted_route r e h = rw (h, insert_route) (refl, refl, refl)

  present_route :
      (r : Route) (e : RibEntry N) {o : Route}
      → find_route r e ≡ some o
      → (insert_route ndn r e).1 ≡ false
  unfolding insert_route
  present_route r e h = rw (h, insert_route) refl

  module _ (lawful : (a b : N) → (ndn.same a b ≡ true) ↔ (a ≡ b)) where
    find_in_rib-keys :
        (m : N) (q : Route) (t : List (RibEntry N))
        → find_in_rib ndn m q t ≡ find_key ndn m q (keys ndn t)
    unfolding find_in_rib find_in_table route_of find_route
    find_in_rib-keys m q [] = refl
    find_in_rib-keys m q (e ∷ t) =
        lookup_cons ndn lawful m q e t
        ∙ ap (λ z. if ndn.same e.name m then find_route q e else z) (find_in_rib-keys m q t)

    pub same_lookup :
        (m : N) (q : Route) (s t : List (RibEntry N))
        → keys ndn s ≡ keys ndn t
        → find_in_rib ndn m q s ≡ find_in_rib ndn m q t
    same_lookup m q s t h =
        find_in_rib-keys m q s ∙ (ap (find_key ndn m q) h ∙ sym (find_in_rib-keys m q t))

    -- The value of one key is set.
    merged :
        (a b : Bool) (r : Route) (o p : Option Route)
        → (a ≡ false) ⊎ (o ≡ p)
        → (if a then (if b then some r else o) else p) ≡ (if a && b then some r else p)
    merged a b r o p h = ground arith

    pub removed :
        (a b : Bool) (o p : Option Route)
        → (a ≡ false) ⊎ (o ≡ p)
        → (if a then (if b then none else o) else p) ≡ (if a && b then none else p)
    removed a b o p h = ground arith

    -- What the table holds for a name.
    pub lookup_found :
        (m n : N) (q : Route) (t : List (RibEntry N)) {e : RibEntry N}
        → find_in_table ndn n t ≡ some e
        → (ndn.same n m ≡ false) ⊎ (find_route q e ≡ find_in_rib ndn m q t)
    unfolding find_in_rib route_of
    lookup_found m n q t h = elim (Bool-cases (ndn.same n m)) [
      | inl k ↦ inr (
          sym (
            ap (λ z. route_of ndn q (find_in_table ndn z t)) (sym ((lawful n m).0 k))
            ∙ ap (route_of ndn q) h))
      | inr k ↦ inl k
    ]

    pub lookup_missing :
        (m n : N) (q : Route) (t : List (RibEntry N))
        → find_in_table ndn n t ≡ none
        → (ndn.same n m ≡ false) ⊎ (none ≡ find_in_rib ndn m q t)
    unfolding find_in_rib route_of
    lookup_missing m n q t h = elim (Bool-cases (ndn.same n m)) [
      | inl k ↦ inr (
          sym (
            ap (λ z. route_of ndn q (find_in_table ndn z t)) (sym ((lawful n m).0 k))
            ∙ ap (route_of ndn q) h))
      | inr k ↦ inl k
    ]

    lookup-insert_new_entry :
        (m n : N) (q r : Route) (t : List (RibEntry N))
        → find_in_table ndn n t ≡ none
        → find_in_rib ndn m q (insert_new_entry ndn n r t) ≡ (
            if ndn.same n m && compare_face_id_and_origin r q
            then some r
            else find_in_rib ndn m q t)
    unfolding insert_new_entry insert_route find_route find_route_in
    lookup-insert_new_entry m n q r t h =
        let x = (insert_route ndn r (fresh_entry ndn n)).0 in
        let t1 = put_in_table ndn x t in
        let p = name_of ndn (find_parent ndn n t1) in
        let t2 = link_to_parent ndn p n t1 in
        same_lookup m q _ t1
          (keys-adopt ndn p n (find_descendants ndn n t2) t2 ∙ keys-link_to_parent ndn p n t1)
        ∙ (lookup-put_in_table ndn lawful m q x t h
            ∙ merged (ndn.same n m) (compare_face_id_and_origin r q) r none _
                (lookup_missing m n q t h))

    replaced_route :
        (n m : N) (q r : Route) (x : RibEntry N) (t : List (RibEntry N)) {e : RibEntry N}
        → find_in_table ndn n t ≡ some e
        → x.name ≡ e.name
        → find_route q x ≡ (if compare_face_id_and_origin r q then some r else find_route q e)
        → find_in_rib ndn m q (modify_entry ndn n (λ z. x) t) ≡ (
            if ndn.same n m && compare_face_id_and_origin r q
            then some r
            else find_in_rib ndn m q t)
    replaced_route n m q r x t {e = e} h g k =
        lookup-replace ndn lawful m n q x t h g
        ∙ (ap (λ z. if ndn.same n m then z else find_in_rib ndn m q t) k
            ∙ merged (ndn.same n m) (compare_face_id_and_origin r q) r (find_route q e) _
                (lookup_found m n q t h))

    pub erased_from_entry :
        (n m : N) (q r : Route) (x : RibEntry N) (t : List (RibEntry N)) {e : RibEntry N}
        → find_in_table ndn n t ≡ some e
        → x.name ≡ e.name
        → find_route q x ≡ (if compare_face_id_and_origin r q then none else find_route q e)
        → find_in_rib ndn m q (modify_entry ndn n (λ z. x) t)
          ≡ (if ndn.same n m && compare_face_id_and_origin r q then none else find_in_rib ndn m q t)
    erased_from_entry n m q r x t {e = e} h g k =
        lookup-replace ndn lawful m n q x t h g
        ∙ (ap (λ z. if ndn.same n m then z else find_in_rib ndn m q t) k
            ∙ removed (ndn.same n m) (compare_face_id_and_origin r q) (find_route q e) _
                (lookup_found m n q t h))

    -- Where names are compared by equality, inserting a route makes it the one that is found for its name,
    -- face and origin, whether there was one before or not. What is found for any other name, face or
    -- origin stays the same.
    pub find_in_rib-insert_in_rib :
        (n m : N) (r q : Route) (b : Rib N)
        → find_in_rib ndn m q (insert_in_rib ndn n r b).table ≡ (
            if ndn.same n m && compare_face_id_and_origin r q
            then some r
            else find_in_rib ndn m q b.table)
    unfolding insert_in_rib find_route assign_route
    find_in_rib-insert_in_rib n m r q b = elim (Option-cases (find_in_table ndn n b.table)) [
      | inl h ↦ rw (h, insert_in_rib) (lookup-insert_new_entry m n q r b.table h)
      | inr (e, h) ↦ elim (Option-cases (find_route r e)) [
        | inl g ↦
            let (new, name, routes) = inserted_route r e g in
            rw (h, insert_in_rib, new)
              (replaced_route n m q r (insert_route ndn r e).0 b.table h name
                (ap (find_route_in q) routes ∙ find_route_in-append q r e.routes g))
        | inr (o, g) ↦
            rw (h, insert_in_rib, present_route r e g)
              (replaced_route n m q r (assign_route ndn r e) b.table h refl
                (find_route_in-modify_route_in q r e.routes g))
      ]
    ]
