-- ===== src/Rib/Keeping.antt =====
-- What every step of the computation of daemon/rib/fib-updater.cpp keeps, a batch keeps.
use nfd_out_of_the_box.Prelude.{
  is_empty, is_empty, is_empty, is_empty, is_empty, is_empty, is_empty, is_empty, is_empty,
  is_empty, is_empty, is_empty, is_empty, is_empty, is_empty, is_empty, is_empty, is_empty,
  is_empty, is_empty, is_empty, is_empty, is_empty, is_empty, length, ℕ, zero, suc, Bool, true,
  false, not, ◌&&◌, Option, none, some, List, [], ◌∷◌, ltb, leb, ◌==◌, if◌then◌else◌,
}
use nfd_out_of_the_box.Rib.{
  UpdateAction, register, unregister, remove_face, get_route_with_second_lowest_cost_by_face_id,
  erase_route, find_route, get_route_with_lowest_cost_by_face_id,
  get_route_with_lowest_cost_and_child_inherit_by_face_id, is_rib_capture, is_child_inherit,
  has_capture, create_add_update, RibEntry, Route, RibUpdate, FibUpdate, Ndn,
}
use nfd_out_of_the_box.Rib.Updater.{
  disinherit, inherit, traverse_sub_tree, remove_inherited_routes, add_inherited_routes_ignoring,
  add_inherited_routes, modify_childrens, modify_childrens_inherited_routes, add_loop, remove_loop,
  remove_inherited_route, add_inherited_route, add_fib_update, FibUpdater,
}
use nfd_out_of_the_box.Rib.Changes.{
  after_own_cost, compare_with_lowest, reinstall_previous, compute_updates, compute_update,
  update_own_cost, create_fib_updates_for_erased_rib_entry, update_flags, substitute, erase_on_face,
  compute_updates_for_registration, compute_updates_for_unregistration, reinstall,
  restore_inherited, pass_on_erasure, create_fib_updates_for_updated_route, is_no_dearer,
  create_fib_updates_for_erased_route, update_capture, update_child_inherit,
  create_fib_updates_for_new_route, create_fib_updates_for_new_rib_entry, remove_all,
}
use nfd_out_of_the_box.Rib.Table.{
  set_insert_route, get_ancestor_routes, get_ancestor_routes_of_name, find_in_table,
}

-- Whatever a new update and a new list of inherited routes keep, a whole batch keeps.
module _ {N : Type 0} (ndn : Ndn N) (P : FibUpdater N → Type 0)
    (add : (u : FibUpdate N) (x : FibUpdater N) → P x → P (add_fib_update ndn u x))
    (note : (us : List (RibUpdate N)) (x : FibUpdater N)
      → P x
      → P (record x { inherited_routes = us })) where
  pub inherit_keeps : (n : N) (r : Route) (x : FibUpdater N) → P x → P (inherit ndn n r x)
  unfolding add_inherited_route
  inherit_keeps n r x p = add _ _ (note _ x p)

  pub disinherit_keeps : (n : N) (r : Route) (x : FibUpdater N) → P x → P (disinherit ndn n r x)
  unfolding remove_inherited_route
  disinherit_keeps n r x p = add _ _ (note _ x p)

  if_keeps : (b : Bool) (x y : FibUpdater N) → P x → P y → P (if b then x else y)
  if_keeps true x y p q = p
  if_keeps false x y p q = q

  option_keeps :
      {A : Type 0} (o : Option A) {a : FibUpdater N} {f : A → FibUpdater N}
      → P a
      → ((z : A) → P (f z))
      → P (elim o [ none ↦ a | some z ↦ f z ])
  option_keeps none p q = p
  option_keeps (some z) p q = q z

  -- A result that is there has the property.
  abbrev pub Keeps : Option (FibUpdater N) → Type 0
  Keeps none = Unit {0}
  Keeps (some x) = P x

  option_Keeps :
      {A : Type 0} (o : Option A) (a : Option (FibUpdater N)) (f : A → Option (FibUpdater N))
      → Keeps a
      → ((z : A) → Keeps (f z))
      → Keeps (elim o [ none ↦ a | some z ↦ f z ])
  option_Keeps none a f p q = p
  option_Keeps (some z) a f p q = q z

  bind_Keeps :
      (o : Option (FibUpdater N)) (f : FibUpdater N → Option (FibUpdater N))
      → Keeps o
      → ((z : FibUpdater N) → P z → Keeps (f z))
      → Keeps (elim o [ none ↦ none | some z ↦ f z ])
  bind_Keeps none f p q = tt
  bind_Keeps (some z) f p q = q z p

  if_Keeps :
      (b : Bool) (x y : Option (FibUpdater N)) → Keeps x → Keeps y → Keeps (if b then x else y)
  if_Keeps true x y p q = p
  if_Keeps false x y p q = q

  remove_loop_keeps :
      (e : RibEntry N) (rs : List Route) (x : FibUpdater N) → P x → P (remove_loop ndn e rs x)
  unfolding remove_loop
  remove_loop_keeps e [] x p = p
  remove_loop_keeps e (r ∷ rs) x p =
      remove_loop_keeps e rs _ (if_keeps _ _ _ p (if_keeps _ _ _ (disinherit_keeps _ r x p) p))

  add_loop_keeps :
      (e : RibEntry N) (rs : List Route) (x : FibUpdater N) → P x → P (add_loop ndn e rs x)
  unfolding add_loop
  add_loop_keeps e [] x p = p
  add_loop_keeps e (r ∷ rs) x p =
      add_loop_keeps e rs _ (if_keeps _ _ _ p (if_keeps _ _ _ p (inherit_keeps _ r x p)))

  walk_keeps :
      (t : List (RibEntry N)) (k : ℕ) (cs : List N) (adds removes : List Route) (x : FibUpdater N)
      → P x
      → P (modify_childrens_inherited_routes ndn t k cs adds removes x)
  unfolding modify_childrens_inherited_routes traverse_sub_tree
  walk_keeps t k [] adds removes x p = p
  walk_keeps t zero (c ∷ cs) adds removes x p = p
  walk_keeps t (suc k) (c ∷ cs) adds removes x p = walk_keeps t (suc k) cs adds removes _ (
      option_keeps (find_in_table ndn c t) p (λ e. if_keeps (has_capture e) _ _ p (
        walk_keeps t k e.children _ _ _
          (add_loop_keeps e adds _ (remove_loop_keeps e removes x p)))))

  modify_childrens_keeps :
      (t : List (RibEntry N)) (cs : List N) (adds removes : List Route) (x : FibUpdater N)
      → P x
      → P (modify_childrens ndn t cs adds removes x)
  unfolding modify_childrens
  modify_childrens_keeps t cs adds removes x p = walk_keeps t _ cs adds removes x p

  add_inherited_routes_keeps :
      (e : RibEntry N) (rs : List Route) (x : FibUpdater N)
      → P x
      → P (add_inherited_routes ndn e rs x)
  unfolding add_inherited_routes
  add_inherited_routes_keeps e [] x p = p
  add_inherited_routes_keeps e (r ∷ rs) x p =
      add_inherited_routes_keeps e rs _ (if_keeps _ _ _ p (inherit_keeps _ r x p))

  ignoring_keeps :
      (n : N) (rs : List Route) (i : Route) (x : FibUpdater N)
      → P x
      → P (add_inherited_routes_ignoring ndn n rs i x)
  unfolding add_inherited_routes_ignoring
  ignoring_keeps n [] i x p = p
  ignoring_keeps n (r ∷ rs) i x p =
      ignoring_keeps n rs i _ (if_keeps _ _ _ p (inherit_keeps _ r x p))

  remove_inherited_routes_keeps :
      (e : RibEntry N) (rs : List Route) (x : FibUpdater N)
      → P x
      → P (remove_inherited_routes ndn e rs x)
  unfolding remove_inherited_routes
  remove_inherited_routes_keeps e [] x p = p
  remove_inherited_routes_keeps e (r ∷ rs) x p =
      remove_inherited_routes_keeps e rs _ (if_keeps _ _ _ (disinherit_keeps _ r x p) p)

  remove_all_keeps : (n : N) (rs : List Route) (x : FibUpdater N) → P x → P (remove_all ndn n rs x)
  unfolding remove_all
  remove_all_keeps n [] x p = p
  remove_all_keeps n (r ∷ rs) x p = remove_all_keeps n rs _ (add _ x p)

  new_rib_entry_keeps :
      (t : List (RibEntry N)) (n : N) (r : Route) (cs : List N) (x : FibUpdater N)
      → P x
      → P (create_fib_updates_for_new_rib_entry ndn t n r cs x)
  unfolding create_fib_updates_for_new_rib_entry
  new_rib_entry_keeps t n r cs x p =
      let ancestors = get_ancestor_routes_of_name ndn n t in
      let p1 = add (create_add_update n r.face_id r.cost) x p in
      let q = ignoring_keeps n ancestors r _ p1 in
      if_keeps (is_child_inherit ndn r) _ _
        (if_keeps (is_rib_capture ndn r) _ _ (modify_childrens_keeps t cs (r ∷ []) ancestors _ p1) (
          modify_childrens_keeps t cs (set_insert_route r (erase_on_face r.face_id ancestors)) [] _
            q))
        (if_keeps (is_rib_capture ndn r) _ _ (modify_childrens_keeps t cs [] ancestors _ p1) q)

  pub new_route_keeps :
      (t : List (RibEntry N)) (e : RibEntry N) (r : Route) (on : Bool) (x : FibUpdater N)
      → P x
      → P (create_fib_updates_for_new_route ndn t e r on x)
  unfolding create_fib_updates_for_new_route
  new_route_keeps t e r on x p =
      let prev = get_route_with_lowest_cost_and_child_inherit_by_face_id ndn r.face_id e in
      let adds = if is_child_inherit ndn r && is_no_dearer r prev then (r ∷ []) else [] in
      let removes = if on then get_ancestor_routes ndn e t else [] in
      let q = modify_childrens_keeps t e.children adds removes _ (
        if_keeps on (remove_inherited_routes ndn e removes x) x
          (remove_inherited_routes_keeps e removes x p) p) in
      if_keeps (is_no_dearer r (get_route_with_lowest_cost_by_face_id r.face_id e)) _ _ (add _ _ q)
        q

  update_child_inherit_keeps :
      (t : List (RibEntry N)) (e : RibEntry N) (r o : Route) (prev : Option Route)
      (x : FibUpdater N)
      → P x
      → P (update_child_inherit ndn t e r o prev x)
  unfolding update_child_inherit
  update_child_inherit_keeps t e r o prev x p =
      if_keeps (not (is_child_inherit ndn o) && is_child_inherit ndn r) _ _
        (if_keeps (is_no_dearer r prev) _ _ (modify_childrens_keeps t e.children (r ∷ []) [] x p) p)
        (if_keeps (is_child_inherit ndn o && not (is_child_inherit ndn r)) _ _
          (modify_childrens_keeps t e.children (substitute ndn t e r prev) (r ∷ []) x p) p)

  update_capture_keeps :
      (t : List (RibEntry N)) (e : RibEntry N) (r o : Route) (x : FibUpdater N)
      → P x
      → P (update_capture ndn t e r o x)
  unfolding update_capture
  update_capture_keeps t e r o x p =
      let ancestors = get_ancestor_routes ndn e t in
      if_keeps (not (is_rib_capture ndn o) && is_rib_capture ndn r) _ _
        (modify_childrens_keeps t e.children [] ancestors _
          (remove_inherited_routes_keeps e ancestors x p))
        (if_keeps (is_rib_capture ndn o && not (is_rib_capture ndn r)) _ _
          (modify_childrens_keeps t e.children ancestors [] _
            (add_inherited_routes_keeps e ancestors x p))
          p)

  reinstall_previous-Keeps :
      (e : RibEntry N) (prev : Option Route) (x : FibUpdater N)
      → P x
      → Keeps (reinstall_previous ndn e prev x)
  unfolding reinstall_previous
  reinstall_previous-Keeps e none x p = tt
  reinstall_previous-Keeps e (some q) x p = add _ x p

  compare-Keeps :
      (e : RibEntry N) (r o : Route) (prev lowest : Option Route) (x : FibUpdater N)
      → P x
      → Keeps (compare_with_lowest ndn e r o prev lowest x)
  unfolding compare_with_lowest
  compare-Keeps e r o prev none x p = tt
  compare-Keeps e r o prev (some l) x p =
      if_Keeps (leb r.cost l.cost) _ _ (add _ x p)
        (if_Keeps (ltb o.cost l.cost) _ (some x) (reinstall_previous-Keeps e prev x p) p)

  flags_keep :
      (t : List (RibEntry N)) (e : RibEntry N) (r o : Route) (prev : Option Route)
      (x : FibUpdater N)
      → P x
      → P (update_flags ndn t e r o prev x)
  unfolding update_flags
  flags_keep t e r o prev x p =
      update_capture_keeps t e r o _ (update_child_inherit_keeps t e r o prev x p)

  after_own_cost-Keeps :
      (t : List (RibEntry N)) (e : RibEntry N) (r o : Route) (prev : Option Route)
      (y : Option (FibUpdater N))
      → Keeps y
      → Keeps (after_own_cost ndn t e r o prev y)
  unfolding after_own_cost
  after_own_cost-Keeps t e r o prev none p = tt
  after_own_cost-Keeps t e r o prev (some y) p =
      if_Keeps (is_no_dearer r prev && (r.flags == o.flags && is_child_inherit ndn r)) (some _)
        (some _) (modify_childrens_keeps t e.children (r ∷ []) [] y p) (flags_keep t e r o prev y p)

  updated_route-Keeps :
      (t : List (RibEntry N)) (e : RibEntry N) (r o : Route) (x : FibUpdater N)
      → P x
      → Keeps (create_fib_updates_for_updated_route ndn t e r o x)
  unfolding create_fib_updates_for_updated_route update_own_cost
  updated_route-Keeps t e r o x p =
      let prev = get_route_with_lowest_cost_and_child_inherit_by_face_id ndn r.face_id e in
      if_Keeps (r.cost == o.cost) _ _
        (if_Keeps (r.flags == o.flags) (some x) (some _) p (flags_keep t e r o prev x p))
        (after_own_cost-Keeps t e r o prev _ (compare-Keeps e r o prev _ x p))

  pass_on_erasure_keeps :
      (t : List (RibEntry N)) (e : RibEntry N) (r : Route) (off : Bool) (x : FibUpdater N)
      → P x
      → P (pass_on_erasure ndn t e r off x)
  unfolding pass_on_erasure
  pass_on_erasure_keeps t e r off x p =
      let ancestors = get_ancestor_routes ndn e t in
      let adds = if off && not (is_empty e.routes) then ancestors else [] in
      if_keeps (is_child_inherit ndn r && is_rib_capture ndn r) _ _
        (modify_childrens_keeps t e.children adds (r ∷ []) _
          (add_inherited_routes_keeps e adds x p))
        (if_keeps (is_child_inherit ndn r) _ _
          (modify_childrens_keeps t e.children (if has_capture e then [] else ancestors) (r ∷ []) x
            p)
          (if_keeps (is_rib_capture ndn r) _ _
            (modify_childrens_keeps t e.children adds [] _ (add_inherited_routes_keeps e adds x p))
            p))

  restore_inherited_keeps :
      (e : RibEntry N) (o : Option Route) (x : FibUpdater N) → P x → P (restore_inherited ndn e o x)
  unfolding restore_inherited
  restore_inherited_keeps e none x p = p
  restore_inherited_keeps e (some a) x p = if_keeps _ _ _ (inherit_keeps _ a x p) p

  reinstall_keeps :
      (t : List (RibEntry N)) (e : RibEntry N) (o : Option Route) (x : FibUpdater N)
      → P x
      → P (reinstall ndn t e o x)
  unfolding reinstall
  reinstall_keeps t e none x p = p
  reinstall_keeps t e (some r) x p = new_route_keeps t e r false x p

  erased_route_keeps :
      (t : List (RibEntry N)) (e : RibEntry N) (r : Route) (off : Bool) (x : FibUpdater N)
      → P x
      → P (create_fib_updates_for_erased_route ndn t e r off x)
  unfolding create_fib_updates_for_erased_route
  erased_route_keeps t e r off x p =
      restore_inherited_keeps e _ _ (pass_on_erasure_keeps t e r off _ (add _ x p))

  unregistration_keeps :
      (t : List (RibEntry N)) (u : RibUpdate N) (x : FibUpdater N)
      → P x
      → P (compute_updates_for_unregistration ndn t u x)
  unfolding compute_updates_for_unregistration create_fib_updates_for_erased_rib_entry
  unregistration_keeps t u x p = option_keeps (find_in_table ndn u.name t) p (λ e.
      option_keeps (find_route u.route e) p (λ o.
        let temp = erase_route ndn u.route e in
        let q =
          reinstall_keeps t temp (get_route_with_second_lowest_cost_by_face_id u.route.face_id e) _
            (erased_route_keeps t temp o (has_capture e && not (has_capture temp)) x p) in
        if_keeps (length e.routes == 1) _ _ (remove_all_keeps _ _ _ q) q))

  registration-Keeps :
      (t : List (RibEntry N)) (u : RibUpdate N) (x : FibUpdater N)
      → P x
      → Keeps (compute_updates_for_registration ndn t u x)
  unfolding compute_updates_for_registration
  registration-Keeps t u x p =
      option_Keeps (find_in_table ndn u.name t) _ _ (new_rib_entry_keeps t u.name u.route _ x p)
        (λ e.
          option_Keeps (find_route u.route e) _ _ (new_route_keeps t e u.route _ x p)
            (λ o. updated_route-Keeps t _ u.route o x p))

  compute_update-Keeps :
      (clear : (x : FibUpdater N) → P x → P (record x { updates_for_batch_face_id = [] }))
      (t : List (RibEntry N)) (u : RibUpdate N) (a : UpdateAction) (x : FibUpdater N)
      → P x
      → Keeps (compute_update ndn t (record u { action = a }) x)
  unfolding compute_update compute_updates_for_registration compute_updates_for_unregistration
  compute_update-Keeps clear t u register x p = registration-Keeps t u x p
  compute_update-Keeps clear t u unregister x p = unregistration_keeps t u x p
  compute_update-Keeps clear t u remove_face x p = clear _ (unregistration_keeps t u x p)

  pub compute_updates-Keeps :
      (clear : (x : FibUpdater N) → P x → P (record x { updates_for_batch_face_id = [] }))
      (t : List (RibEntry N)) (us : List (RibUpdate N)) (x : FibUpdater N)
      → P x
      → Keeps (compute_updates ndn t us x)
  unfolding compute_updates compute_update
  compute_updates-Keeps clear t [] x p = p
  compute_updates-Keeps clear t (u ∷ us) x p =
      bind_Keeps (compute_update ndn t u x) _ (compute_update-Keeps clear t u (u.action) x p)
        (λ y q. compute_updates-Keeps clear t us y q)
