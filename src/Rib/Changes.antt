-- ===== src/Rib/Changes.antt =====
-- The changes of daemon/rib/fib-updater.cpp for each kind of update: a new entry, a new, an updated and
-- an erased route, and how a batch picks among them. A null pointer that the code dereferences gives
-- `none`.
use nfd_out_of_the_box.Rib.{
  modify_route_in, get_route_with_second_lowest_cost_by_face_id, erase_route, has_capture,
  find_route, create_remove_update, is_rib_capture, create_add_update, RibUpdate, is_child_inherit,
  get_route_with_lowest_cost_by_face_id, get_route_with_lowest_cost_and_child_inherit_by_face_id,
  RibEntry, Route, Ndn, register, unregister, remove_face,
}
use nfd_out_of_the_box.Prelude.{
  is_empty, is_empty, is_empty, is_empty, is_empty, is_empty, is_empty, is_empty, is_empty,
  is_empty, is_empty, is_empty, is_empty, is_empty, is_empty, is_empty, is_empty, is_empty,
  is_empty, is_empty, is_empty, is_empty, is_empty, is_empty, length, ℕ, Bool, true, false, not,
  ◌&&◌, Option, none, some, List, [], ◌∷◌, ltb, leb, ◌==◌, if◌then◌else◌,
}
use nfd_out_of_the_box.Rib.Updater.{
  inherit, add_inherited_routes_ignoring, add_inherited_routes, modify_childrens,
  remove_inherited_routes, add_fib_update, FibUpdater,
}
use nfd_out_of_the_box.Rib.Table.{
  find_descendants_for_non_inserted_name, find_parent, set_insert_route, name_of,
  get_ancestor_routes_of_name, find_in_table, is_same_parent, get_ancestor_routes, find_on_face,
}

unfoldable pub erase_on_face : ℕ → List Route → List Route
erase_on_face f [] = []
erase_on_face f (r ∷ rs) =
    let rest = erase_on_face f rs in if r.face_id == f then rs else (r ∷ rest)

-- `route.cost <= other->cost`, or there is no other.
abbrev pub is_no_dearer : Route → Option Route → Bool
is_no_dearer r none = true
is_no_dearer r (some o) = leb r.cost o.cost

module _ {N : Type 0} (ndn : Ndn N) where
  unfoldable pub create_fib_updates_for_new_rib_entry :
      List (RibEntry N) → N → Route → List N → FibUpdater N → FibUpdater N
  create_fib_updates_for_new_rib_entry t n r children x =
      let x1 = add_fib_update ndn (create_add_update n r.face_id r.cost) x in
      let ancestors = get_ancestor_routes_of_name ndn n t in
      let replaced = set_insert_route r (erase_on_face r.face_id ancestors) in
      if is_child_inherit ndn r
      then (if is_rib_capture ndn r
          then modify_childrens ndn t children (r ∷ []) ancestors x1
          else modify_childrens ndn t children replaced []
              (add_inherited_routes_ignoring ndn n ancestors r x1))
      else if is_rib_capture ndn r
      then modify_childrens ndn t children [] ancestors x1
      else add_inherited_routes_ignoring ndn n ancestors r x1

  unfoldable pub create_fib_updates_for_new_route :
      List (RibEntry N) → RibEntry N → Route → Bool → FibUpdater N → FibUpdater N
  create_fib_updates_for_new_route t e r capture_was_turned_on x =
      let prev = get_route_with_lowest_cost_and_child_inherit_by_face_id ndn r.face_id e in
      let adds = if is_child_inherit ndn r && is_no_dearer r prev then (r ∷ []) else [] in
      let removes = if capture_was_turned_on then get_ancestor_routes ndn e t else [] in
      let x1 = if capture_was_turned_on then remove_inherited_routes ndn e removes x else x in
      let x2 = modify_childrens ndn t e.children adds removes x1 in
      if is_no_dearer r (get_route_with_lowest_cost_by_face_id r.face_id e)
      then add_fib_update ndn (create_add_update e.name r.face_id r.cost) x2
      else x2

  -- The pointer `prev` is dereferenced without a test.
  unfoldable pub reinstall_previous :
      RibEntry N → Option Route → FibUpdater N → Option (FibUpdater N)
  reinstall_previous e none x = none
  reinstall_previous e (some p) x =
      some (add_fib_update ndn (create_add_update e.name p.face_id p.cost) x)

  unfoldable pub compare_with_lowest :
      RibEntry N
      → Route
      → Route
      → Option Route
      → Option Route
      → FibUpdater N
      → Option (FibUpdater N)
  compare_with_lowest e r existing prev none x = none
  compare_with_lowest e r existing prev (some lowest) x =
      if leb r.cost lowest.cost
      then some (add_fib_update ndn (create_add_update e.name r.face_id r.cost) x)
      else if ltb existing.cost lowest.cost
      then reinstall_previous e prev x
      else some x

  -- The cost of the entry itself.
  unfoldable pub update_own_cost :
      RibEntry N → Route → Route → Option Route → FibUpdater N → Option (FibUpdater N)
  update_own_cost e r existing prev x =
      compare_with_lowest e r existing prev (get_route_with_lowest_cost_by_face_id r.face_id e) x

  -- What takes the place of a route whose child inheritance is turned off.
  unfoldable pub substitute : List (RibEntry N) → RibEntry N → Route → Option Route → List Route
  substitute t e r (some p) = p ∷ []
  substitute t e r none = elim (find_on_face r.face_id (get_ancestor_routes ndn e t)) [
    | none ↦ []
    | some a ↦ a ∷ []
  ]

  unfoldable pub update_child_inherit :
      List (RibEntry N) → RibEntry N → Route → Route → Option Route → FibUpdater N → FibUpdater N
  update_child_inherit t e r existing prev x =
      if not (is_child_inherit ndn existing) && is_child_inherit ndn r
      then (if is_no_dearer r prev then modify_childrens ndn t e.children (r ∷ []) [] x else x)
      else if is_child_inherit ndn existing && not (is_child_inherit ndn r)
      then modify_childrens ndn t e.children (substitute t e r prev) (r ∷ []) x
      else x

  unfoldable pub update_capture :
      List (RibEntry N) → RibEntry N → Route → Route → FibUpdater N → FibUpdater N
  update_capture t e r existing x =
      let ancestors = get_ancestor_routes ndn e t in
      if not (is_rib_capture ndn existing) && is_rib_capture ndn r
      then modify_childrens ndn t e.children [] ancestors
          (remove_inherited_routes ndn e ancestors x)
      else if is_rib_capture ndn existing && not (is_rib_capture ndn r)
      then modify_childrens ndn t e.children ancestors [] (add_inherited_routes ndn e ancestors x)
      else x

  unfoldable pub update_flags :
      List (RibEntry N) → RibEntry N → Route → Route → Option Route → FibUpdater N → FibUpdater N
  update_flags t e r existing prev x =
      update_capture t e r existing (update_child_inherit t e r existing prev x)

  unfoldable pub after_own_cost :
      List (RibEntry N)
      → RibEntry N
      → Route
      → Route
      → Option Route
      → Option (FibUpdater N)
      → Option (FibUpdater N)
  after_own_cost t e r existing prev none = none
  after_own_cost t e r existing prev (some y) =
      if is_no_dearer r prev && (r.flags == existing.flags && is_child_inherit ndn r)
      then some (modify_childrens ndn t e.children (r ∷ []) [] y)
      else some (update_flags t e r existing prev y)

  unfoldable pub create_fib_updates_for_updated_route :
      List (RibEntry N) → RibEntry N → Route → Route → FibUpdater N → Option (FibUpdater N)
  create_fib_updates_for_updated_route t e r existing x =
      let prev = get_route_with_lowest_cost_and_child_inherit_by_face_id ndn r.face_id e in
      if r.cost == existing.cost
      then (if r.flags == existing.flags then some x else some (update_flags t e r existing prev x))
      else after_own_cost t e r existing prev (update_own_cost e r existing prev x)

  -- The part for the flags of the erased route.
  unfoldable pub pass_on_erasure :
      List (RibEntry N) → RibEntry N → Route → Bool → FibUpdater N → FibUpdater N
  pass_on_erasure t e r capture_was_turned_off x =
      let ancestors = get_ancestor_routes ndn e t in
      let adds = if capture_was_turned_off && not (is_empty e.routes) then ancestors else [] in
      if is_child_inherit ndn r && is_rib_capture ndn r
      then modify_childrens ndn t e.children adds (r ∷ []) (add_inherited_routes ndn e adds x)
      else if is_child_inherit ndn r
      then modify_childrens ndn t e.children (if has_capture e then [] else ancestors) (r ∷ []) x
      else if is_rib_capture ndn r
      then modify_childrens ndn t e.children adds [] (add_inherited_routes ndn e adds x)
      else x

  -- The part that puts back an inherited route that the erased one was blocking.
  unfoldable pub restore_inherited : RibEntry N → Option Route → FibUpdater N → FibUpdater N
  restore_inherited e none x = x
  restore_inherited e (some a) x =
      if not (has_capture e) && not (is_empty e.routes) then inherit ndn e.name a x else x

  unfoldable pub create_fib_updates_for_erased_route :
      List (RibEntry N) → RibEntry N → Route → Bool → FibUpdater N → FibUpdater N
  create_fib_updates_for_erased_route t e r capture_was_turned_off x =
      restore_inherited e (find_on_face r.face_id (get_ancestor_routes ndn e t)) (
        pass_on_erasure t e r capture_was_turned_off
          (add_fib_update ndn (create_remove_update e.name r.face_id) x))

  unfoldable pub remove_all : N → List Route → FibUpdater N → FibUpdater N
  remove_all n [] x = x
  remove_all n (r ∷ rs) x =
      remove_all n rs (add_fib_update ndn (create_remove_update n r.face_id) x)

  unfoldable pub create_fib_updates_for_erased_rib_entry : RibEntry N → FibUpdater N → FibUpdater N
  create_fib_updates_for_erased_rib_entry e x = remove_all e.name e.inherited_routes x

  unfoldable pub with_parent : Option N → List (RibEntry N) → List N
  with_parent p [] = []
  with_parent p (e ∷ es) =
      let rest = with_parent p es in if is_same_parent ndn e.parent p then (e.name ∷ rest) else rest

  -- The copy of the entry with the route updated; its counter stays.
  unfoldable pub updated_copy : Route → RibEntry N → RibEntry N
  updated_copy r e = record e {
    routes =
        modify_route_in (λ o. record o { flags = r.flags; cost = r.cost; expires = r.expires }) r
          e.routes;
  }

  unfoldable pub compute_updates_for_registration :
      List (RibEntry N) → RibUpdate N → FibUpdater N → Option (FibUpdater N)
  compute_updates_for_registration t u x = elim (find_in_table ndn u.name t) [
    | none ↦
        let parent = name_of ndn (find_parent ndn u.name t) in
        let descendants = find_descendants_for_non_inserted_name ndn u.name t in
        some
          (create_fib_updates_for_new_rib_entry t u.name u.route (with_parent parent descendants) x)
    | some e ↦ elim (find_route u.route e) [
      | none ↦ some (
          create_fib_updates_for_new_route t e u.route
            (not (has_capture e) && is_rib_capture ndn u.route) x)
      | some existing ↦
          create_fib_updates_for_updated_route t (updated_copy u.route e) u.route existing x
    ]
  ]

  -- The route that is left on the face of an erased one.
  unfoldable pub reinstall :
      List (RibEntry N) → RibEntry N → Option Route → FibUpdater N → FibUpdater N
  reinstall t e none x = x
  reinstall t e (some next) x = create_fib_updates_for_new_route t e next false x

  unfoldable pub compute_updates_for_unregistration :
      List (RibEntry N) → RibUpdate N → FibUpdater N → FibUpdater N
  compute_updates_for_unregistration t u x = elim (find_in_table ndn u.name t) [
    | none ↦ x
    | some e ↦ elim (find_route u.route e) [
      | none ↦ x
      | some existing ↦
          let temp = erase_route ndn u.route e in
          let x1 =
            create_fib_updates_for_erased_route t temp existing
              (has_capture e && not (has_capture temp)) x in
          let x2 =
            reinstall t temp (get_route_with_second_lowest_cost_by_face_id u.route.face_id e) x1 in
          if length e.routes == 1 then create_fib_updates_for_erased_rib_entry e x2 else x2
    ]
  ]

  unfoldable pub compute_update :
      List (RibEntry N) → RibUpdate N → FibUpdater N → Option (FibUpdater N)
  compute_update t u x = elim u.action [
    | register ↦ compute_updates_for_registration t u x
    | unregister ↦ some (compute_updates_for_unregistration t u x)
    | remove_face ↦
        some (record (compute_updates_for_unregistration t u x) { updates_for_batch_face_id = [] })
  ]

  unfoldable pub compute_updates :
      List (RibEntry N) → List (RibUpdate N) → FibUpdater N → Option (FibUpdater N)
  compute_updates t [] x = some x
  compute_updates t (u ∷ us) x = elim (compute_update t u x) [
    | none ↦ none
    | some y ↦ compute_updates t us y
  ]

  -- `computeAndSendFibUpdates` before it sends.
  unfoldable pub start_batch : ℕ → FibUpdater N
  start_batch f = record {
    batch_face_id = f;
    inherited_routes = [];
    updates_for_batch_face_id = [];
    updates_for_non_batch_face_id = [];
  }
