-- ===== src/Rib/Erasures.antt =====
-- What daemon/rib/fib-updater.cpp sends when a route is erased while its face has other routes.
use nfd_out_of_the_box.Prelude.{
  is_empty, is_empty, is_empty, is_empty, is_empty, is_empty, is_empty, is_empty, is_empty,
  is_empty, is_empty, is_empty, is_empty, is_empty, is_empty, is_empty, is_empty, is_empty,
  is_empty, is_empty, is_empty, is_empty, is_empty, is_empty, length, get_elem?, ℕ, zero, suc, ◌≡◌,
  refl, ap, ◌∙◌, inl, inr, Bool, true, false, not, ◌&&◌, Option, none, some, List, [], ◌∷◌, arith,
  leb, ◌==◌, if◌then◌else◌, Bool-cases,
}
use nfd_out_of_the_box.Rib.{
  get_route_with_second_lowest_cost_by_face_id, find_route, has_capture, is_rib_capture, RibUpdate,
  create_remove_update, is_child_inherit, erase_route,
  get_route_with_lowest_cost_and_child_inherit_by_face_id, create_add_update,
  get_route_with_lowest_cost_by_face_id, RibEntry, Ndn, find_route_in, matches_of, sort_by_cost,
  insert_by_cost, Route,
}
use nfd_out_of_the_box.Rib.Updater.{
  replace_or_push, add_inherited_routes, add_fib_update, FibUpdater,
  modify_childrens_inherited_routes, modify_childrens,
}
use nfd_out_of_the_box.Rib.Table.{
  find_in_table, find_on_face, get_ancestor_routes, ancestor_routes_from,
}
use nfd_out_of_the_box.Rib.Changes.{
  remove_all, reinstall, create_fib_updates_for_erased_rib_entry, start_batch,
  compute_updates_for_unregistration, create_fib_updates_for_erased_route, restore_inherited,
  is_no_dearer, create_fib_updates_for_new_route, pass_on_erasure,
}

abbrev pub IsOnFace : ℕ → List Route → Type 0
IsOnFace f [] = Unit {0}
IsOnFace f (r ∷ rs) = (r.face_id ≡ f) × IsOnFace f rs

insert_by_cost-IsOnFace :
    (f : ℕ) (r : Route) (rs : List Route)
    → r.face_id ≡ f
    → IsOnFace f rs
    → IsOnFace f (insert_by_cost r rs)
unfolding insert_by_cost
insert_by_cost-IsOnFace f r [] h g = (h, tt)
insert_by_cost-IsOnFace f r (s ∷ rs) h g = ground (arith, insert_by_cost-IsOnFace f r rs h g.1)

sort_by_cost-IsOnFace : (f : ℕ) (rs : List Route) → IsOnFace f rs → IsOnFace f (sort_by_cost rs)
unfolding sort_by_cost
sort_by_cost-IsOnFace f [] h = tt
sort_by_cost-IsOnFace f (r ∷ rs) h =
    insert_by_cost-IsOnFace f r (sort_by_cost rs) h.0 (sort_by_cost-IsOnFace f rs h.1)

matches_of-IsOnFace : (f : ℕ) (rs : List Route) → IsOnFace f (matches_of f rs)
unfolding matches_of
matches_of-IsOnFace f [] = tt
matches_of-IsOnFace f (r ∷ rs) = ground (arith, matches_of-IsOnFace f rs)

element-IsOnFace :
    (f : ℕ) (rs : List Route) (i : ℕ) {r : Route}
    → IsOnFace f rs
    → get_elem? rs i ≡ some r
    → r.face_id ≡ f
element-IsOnFace f [] i h g = absurd (ground arith)
element-IsOnFace f (s ∷ rs) zero h g = ground arith
element-IsOnFace f (s ∷ rs) (suc i) h g = element-IsOnFace f rs i h.1 g

found_face :
    (x : Route) (rs : List Route) {o : Route} → find_route_in x rs ≡ some o → o.face_id ≡ x.face_id
unfolding find_route_in
found_face x [] h = absurd (ground arith)
found_face x (r ∷ rs) {o = o} h = ground (arith, found_face x rs {o = o})

module _ {N : Type 0} (ndn : Ndn N) where
  no_children :
      (t : List (RibEntry N)) (adds removes : List Route) (x : FibUpdater N)
      → modify_childrens ndn t [] adds removes x ≡ x
  unfolding modify_childrens modify_childrens_inherited_routes
  no_children t adds removes x = refl

  from_none : (k : ℕ) (t : List (RibEntry N)) → ancestor_routes_from ndn k none t [] ≡ []
  unfolding ancestor_routes_from
  from_none zero t = refl
  from_none (suc k) t = refl

  no_ancestors :
      (e : RibEntry N) (t : List (RibEntry N)) → e.parent ≡ none → get_ancestor_routes ndn e t ≡ []
  unfolding get_ancestor_routes
  no_ancestors e t h = rw h (from_none (ndn.size e.name) t)

  childless :
      (t : List (RibEntry N)) (e : RibEntry N) (adds removes : List Route) (x : FibUpdater N)
      → e.children ≡ []
      → modify_childrens ndn t e.children adds removes x ≡ x
  childless t e adds removes x c = rw c (no_children t adds removes x)

  freed_none :
      (e : RibEntry N) (b : Bool) (rs : List Route) (x : FibUpdater N)
      → rs ≡ []
      → add_inherited_routes ndn e (if b then rs else []) x ≡ x
  unfolding add_inherited_routes
  freed_none e true rs x h = rw h refl
  freed_none e false rs x h = refl

  three_ways :
      (a b c : Bool) {x y z w : FibUpdater N}
      → y ≡ x
      → z ≡ x
      → w ≡ x
      → (if a then y else if b then z else if c then w else x) ≡ x
  three_ways true b c h g k = h
  three_ways false true c h g k = g
  three_ways false false true h g k = k
  three_ways false false false h g k = refl

  pass_on_erasure_alone :
      (t : List (RibEntry N)) (e : RibEntry N) (r : Route) (off : Bool) (x : FibUpdater N)
      → e.parent ≡ none
      → e.children ≡ []
      → pass_on_erasure ndn t e r off x ≡ x
  unfolding pass_on_erasure
  pass_on_erasure_alone t e r off x h c =
      let adds = if off && not (is_empty e.routes) then get_ancestor_routes ndn e t else [] in
      let y = add_inherited_routes ndn e adds x in
      let none_added = freed_none e (off && not (is_empty e.routes)) _ x (no_ancestors e t h) in
      three_ways (is_child_inherit ndn r && is_rib_capture ndn r) (is_child_inherit ndn r)
        (is_rib_capture ndn r) (childless t e adds (r ∷ []) y c ∙ none_added)
        (childless t e (if has_capture e then [] else get_ancestor_routes ndn e t) (r ∷ []) x c)
        (childless t e adds [] y c ∙ none_added)

  new_route_alone :
      (t : List (RibEntry N)) (e : RibEntry N) (r : Route) (x : FibUpdater N)
      → e.children ≡ []
      → create_fib_updates_for_new_route ndn t e r false x ≡ (
          if is_no_dearer r (get_route_with_lowest_cost_by_face_id r.face_id e)
          then add_fib_update ndn (create_add_update e.name r.face_id r.cost) x
          else x)
  unfolding create_fib_updates_for_new_route
  new_route_alone t e r x c =
      let prev = get_route_with_lowest_cost_and_child_inherit_by_face_id ndn r.face_id e in
      ap
        (λ y.
          if is_no_dearer r (get_route_with_lowest_cost_by_face_id r.face_id e)
          then add_fib_update ndn (create_add_update e.name r.face_id r.cost) y
          else y)
        (childless t e (if is_child_inherit ndn r && is_no_dearer r prev then (r ∷ []) else []) [] x
          c)

  restore_alone :
      (e : RibEntry N) (f : ℕ) (rs : List Route) (x : FibUpdater N)
      → rs ≡ []
      → restore_inherited ndn e (find_on_face f rs) x ≡ x
  unfolding restore_inherited find_on_face
  restore_alone e f rs x h = rw h refl

  erased_route_alone :
      (t : List (RibEntry N)) (e : RibEntry N) (r : Route) (off : Bool) (x : FibUpdater N)
      → e.parent ≡ none
      → e.children ≡ []
      → create_fib_updates_for_erased_route ndn t e r off x
        ≡ add_fib_update ndn (create_remove_update e.name r.face_id) x
  unfolding create_fib_updates_for_erased_route
  erased_route_alone t e r off x h c =
      restore_alone e r.face_id _ _ (no_ancestors e t h) ∙ pass_on_erasure_alone t e r off _ h c

  erase_route_keeps :
      (r : Route) (e : RibEntry N)
      → ((erase_route ndn r e).name ≡ e.name)
        × ((erase_route ndn r e).parent ≡ e.parent)
        × ((erase_route ndn r e).children ≡ e.children)
  unfolding erase_route
  erase_route_keeps r e = ground arith

  -- Two updates for the same name and face of the batch, one after the other.
  overwritten :
      (n : N) (f c : ℕ)
      → ndn.same n n ≡ true
      → (add_fib_update ndn (create_add_update n f c) (
          add_fib_update ndn
            (create_remove_update n f)
            (start_batch ndn f))).updates_for_batch_face_id
        ≡ create_add_update n f c ∷ []
  unfolding add_fib_update replace_or_push start_batch
  overwritten n f c h = ground (arith, h)

  alone :
      (n : N) (f : ℕ)
      → (add_fib_update ndn
          (create_remove_update n f)
          (start_batch ndn f)).updates_for_batch_face_id
        ≡ create_remove_update n f ∷ []
  unfolding add_fib_update replace_or_push start_batch
  alone n f = ground arith

  nothing_inherited :
      (b : Bool) (e : RibEntry N) (y : FibUpdater N)
      → e.inherited_routes ≡ []
      → (if b then create_fib_updates_for_erased_rib_entry ndn e y else y) ≡ y
  unfolding create_fib_updates_for_erased_rib_entry remove_all
  nothing_inherited true e y h = rw h refl
  nothing_inherited false e y h = refl

  second_face :
      (f : ℕ) (e : RibEntry N) {second : Route}
      → get_route_with_second_lowest_cost_by_face_id f e ≡ some second
      → second.face_id ≡ f
  unfolding get_route_with_second_lowest_cost_by_face_id
  second_face f e h =
      element-IsOnFace f _ 1 (sort_by_cost-IsOnFace f _ (matches_of-IsOnFace f e.routes)) h

  unregistration_steps :
      (t : List (RibEntry N)) (u : RibUpdate N) (x : FibUpdater N) {e : RibEntry N}
      {o second : Route}
      → find_in_table ndn u.name t ≡ some e
      → find_route u.route e ≡ some o
      → e.parent ≡ none
      → e.children ≡ []
      → e.inherited_routes ≡ []
      → get_route_with_second_lowest_cost_by_face_id u.route.face_id e ≡ some second
      → compute_updates_for_unregistration ndn t u x
        ≡ create_fib_updates_for_new_route ndn t
            (erase_route ndn u.route e)
            second
            false
            (add_fib_update ndn (create_remove_update (erase_route ndn u.route e).name o.face_id) x)
  unfolding compute_updates_for_unregistration reinstall
  unregistration_steps t u x {e = e} {o = o} {second = second} h g p c i s =
      let temp = erase_route ndn u.route e in
      let (_, parent, children) = erase_route_keeps u.route e in
      let off = has_capture e && not (has_capture temp) in
      rw (h, compute_updates_for_unregistration, g, s)
        (nothing_inherited (length e.routes == 1) e _ i
          ∙ ap (create_fib_updates_for_new_route ndn t temp second false)
              (erased_route_alone t temp o off x (parent ∙ p) (children ∙ c)))

  last_update :
      (n : N) (f : ℕ) (second lowest : Route)
      → ndn.same n n ≡ true
      → (if is_no_dearer second (some lowest)
          then add_fib_update ndn
              (create_add_update n f second.cost)
              (add_fib_update ndn (create_remove_update n f) (start_batch ndn f))
          else add_fib_update ndn
              (create_remove_update n f)
              (start_batch ndn f)).updates_for_batch_face_id
        ≡ (if leb second.cost lowest.cost
            then create_add_update n f second.cost
            else create_remove_update n f)
          ∷ []
  last_update n f second lowest same = elim (Bool-cases (leb second.cost lowest.cost)) [
    | inl h ↦ rw h (overwritten n f second.cost same)
    | inr h ↦ rw h (alone n f)
  ]

  renamed :
      (m n : N) (f a b : ℕ) (second : Route) (low : Option Route) {lowest : Route}
      → m ≡ n
      → a ≡ f
      → b ≡ f
      → low ≡ some lowest
      → ndn.same n n ≡ true
      → (if is_no_dearer second low
          then add_fib_update ndn
              (create_add_update m a second.cost)
              (add_fib_update ndn (create_remove_update m b) (start_batch ndn f))
          else add_fib_update ndn
              (create_remove_update m b)
              (start_batch ndn f)).updates_for_batch_face_id
        ≡ (if leb second.cost lowest.cost
            then create_add_update n f second.cost
            else create_remove_update n f)
          ∷ []
  renamed m n f a b second low {lowest = lowest} q r s v same =
      rw (q, r, s, v) (last_update n f second lowest same)

  -- A route is erased from an entry without parent, children and inherited routes, and the routes of the entry on
  -- its face, put in the order of their costs, have a second one. The FIB is sent one update for
  -- the face: where this second route is no dearer than the cheapest route that is left, the next
  -- hop with the cost of the second route, and otherwise the removal of the next hop, though a
  -- route on the face is left.
  pub compute_updates_for_unregistration_alone :
      (t : List (RibEntry N)) (u : RibUpdate N) {e : RibEntry N} {o second lowest : Route}
      → ndn.same e.name e.name ≡ true
      → find_in_table ndn u.name t ≡ some e
      → find_route u.route e ≡ some o
      → e.parent ≡ none
      → e.children ≡ []
      → e.inherited_routes ≡ []
      → get_route_with_second_lowest_cost_by_face_id u.route.face_id e ≡ some second
      → get_route_with_lowest_cost_by_face_id u.route.face_id (erase_route ndn u.route e)
        ≡ some lowest
      → (compute_updates_for_unregistration ndn t u
          (start_batch ndn u.route.face_id)).updates_for_batch_face_id
        ≡ (if leb second.cost lowest.cost
            then create_add_update e.name u.route.face_id second.cost
            else create_remove_update e.name u.route.face_id)
          ∷ []
  unfolding find_route
  compute_updates_for_unregistration_alone t u {e = e} {o = o} {second = second} same h g p c i s
        l =
      let f = u.route.face_id in
      let temp = erase_route ndn u.route e in
      let (name, _, children) = erase_route_keeps u.route e in
      let face = second_face f e s in
      ap (λ (y : FibUpdater N). y.updates_for_batch_face_id)
        (unregistration_steps t u (start_batch ndn f) h g p c i s
          ∙ new_route_alone t temp second _ (children ∙ c))
      ∙ renamed temp.name e.name f second.face_id o.face_id second _ name face
          (found_face u.route e.routes g)
          (ap (λ k. get_route_with_lowest_cost_by_face_id k temp) face ∙ l) same
