-- ===== src/Rib/Updater.antt =====
-- The lists that daemon/rib/fib-updater.cpp fills while it computes the updates of the FIB, and its walk
-- over the tree of entries, on fuel.
use nfd_out_of_the_box.Rib.{
  has_capture, has_child_inherit_on_face_id, has_inherited_route, has_face_id, create_remove_update,
  create_add_update, RibEntry, Route, FibUpdate, Ndn, RibUpdate, register, unregister,
}
use nfd_out_of_the_box.Prelude.{
  ℕ, zero, suc, max, Bool, ◌&&◌, none, some, List, [], ◌∷◌, ◌++◌, ◌==◌, if◌then◌else◌,
}
use nfd_out_of_the_box.Rib.Table.{find_in_table}

pub record FibUpdater (N : Type 0) : Type 0 where
  pub batch_face_id : ℕ
  pub inherited_routes : List (RibUpdate N)
  pub updates_for_batch_face_id : List (FibUpdate N)
  pub updates_for_non_batch_face_id : List (FibUpdate N)

module _ {N : Type 0} (ndn : Ndn N) where
  abbrev pub is_update_for : N → ℕ → FibUpdate N → Bool
  is_update_for n f u = ndn.same n u.name && f == u.face_id

  -- An update of the same name and face is overwritten where it stands.
  unfoldable pub replace_or_push : FibUpdate N → List (FibUpdate N) → List (FibUpdate N)
  replace_or_push u [] = u ∷ []
  replace_or_push u (o ∷ os) =
      let rest = replace_or_push u os in
      if is_update_for u.name u.face_id o
      then (record o { action = u.action; cost = u.cost } ∷ os)
      else (o ∷ rest)

  unfoldable pub add_fib_update : FibUpdate N → FibUpdater N → FibUpdater N
  add_fib_update u x =
      if u.face_id == x.batch_face_id
      then record x { updates_for_batch_face_id = replace_or_push u x.updates_for_batch_face_id }
      else record x {
        updates_for_non_batch_face_id = replace_or_push u x.updates_for_non_batch_face_id;
      }

  unfoldable pub add_inherited_route : N → Route → FibUpdater N → FibUpdater N
  add_inherited_route n r x = record x {
    inherited_routes = x.inherited_routes ++ record { action = register; name = n; route = r } ∷ [];
  }

  unfoldable pub remove_inherited_route : N → Route → FibUpdater N → FibUpdater N
  remove_inherited_route n r x = record x {
    inherited_routes =
        x.inherited_routes ++ record { action = unregister; name = n; route = r } ∷ [];
  }

  abbrev pub inherit : N → Route → FibUpdater N → FibUpdater N
  inherit n r x = add_fib_update (create_add_update n r.face_id r.cost) (add_inherited_route n r x)

  abbrev pub disinherit : N → Route → FibUpdater N → FibUpdater N
  disinherit n r x =
      add_fib_update (create_remove_update n r.face_id) (remove_inherited_route n r x)

  unfoldable pub add_inherited_routes : RibEntry N → List Route → FibUpdater N → FibUpdater N
  add_inherited_routes e [] x = x
  add_inherited_routes e (r ∷ rs) x =
      add_inherited_routes e rs (if has_face_id r.face_id e then x else inherit e.name r x)

  unfoldable pub add_inherited_routes_ignoring :
      N → List Route → Route → FibUpdater N → FibUpdater N
  add_inherited_routes_ignoring n [] ignore x = x
  add_inherited_routes_ignoring n (r ∷ rs) ignore x =
      add_inherited_routes_ignoring n rs ignore
        (if r.face_id == ignore.face_id then x else inherit n r x)

  unfoldable pub remove_inherited_routes : RibEntry N → List Route → FibUpdater N → FibUpdater N
  remove_inherited_routes e [] x = x
  remove_inherited_routes e (r ∷ rs) x =
      remove_inherited_routes e rs (if has_inherited_route r e then disinherit e.name r x else x)

  -- What the loops of traverseSubTree leave of a set: the routes that the entry passes to its children.
  unfoldable pub unblocked : RibEntry N → List Route → List Route
  unblocked e [] = []
  unblocked e (r ∷ rs) =
      let rest = unblocked e rs in
      if has_child_inherit_on_face_id ndn r.face_id e then rest else (r ∷ rest)

  unfoldable pub remove_loop : RibEntry N → List Route → FibUpdater N → FibUpdater N
  remove_loop e [] x = x
  remove_loop e (r ∷ rs) x = remove_loop e rs (
      if has_child_inherit_on_face_id ndn r.face_id e
      then x
      else if has_inherited_route r e
      then disinherit e.name r x
      else x)

  unfoldable pub add_loop : RibEntry N → List Route → FibUpdater N → FibUpdater N
  add_loop e [] x = x
  add_loop e (r ∷ rs) x = add_loop e rs (
      if has_child_inherit_on_face_id ndn r.face_id e
      then x
      else if has_face_id r.face_id e
      then x
      else inherit e.name r x)

  -- `modify` is the call of modifyChildrensInheritedRoutes.
  unfoldable pub traverse_sub_tree :
      (List N → List Route → List Route → FibUpdater N → FibUpdater N)
      → RibEntry N
      → List Route
      → List Route
      → FibUpdater N
      → FibUpdater N
  traverse_sub_tree modify e adds removes x =
      if has_capture e
      then x
      else modify e.children (unblocked e adds) (unblocked e removes)
          (add_loop e adds (remove_loop e removes x))

  unfoldable pub modify_childrens_inherited_routes :
      List (RibEntry N) → ℕ → List N → List Route → List Route → FibUpdater N → FibUpdater N
  modify_childrens_inherited_routes t k [] adds removes x = x
  modify_childrens_inherited_routes t zero (c ∷ cs) adds removes x = x
  modify_childrens_inherited_routes t (suc k) (c ∷ cs) adds removes x =
      modify_childrens_inherited_routes t (suc k) cs adds removes (elim (find_in_table ndn c t) [
        | none ↦ x
        | some e ↦ traverse_sub_tree (modify_childrens_inherited_routes t k) e adds removes x
      ])

  unfoldable pub longest : List (RibEntry N) → ℕ
  longest [] = 0
  longest (e ∷ es) = max (ndn.size e.name) (longest es)

  -- A child's name is longer than its parent's, which bounds the depth of the tree.
  unfoldable pub modify_childrens :
      List (RibEntry N) → List N → List Route → List Route → FibUpdater N → FibUpdater N
  modify_childrens t = modify_childrens_inherited_routes t (suc (longest t))
