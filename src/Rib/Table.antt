-- ===== src/Rib/Table.antt =====
-- The table of daemon/rib/rib.cpp: its entries in the order of the map, the lookups along the prefixes of
-- a name, and the insertion and erasure of routes, which keep the links between the entries. The signals
-- to other components are not modelled.
use nfd_out_of_the_box.Prelude.{
  is_empty, ℕ, zero, suc, ◌+◌, ◌-◌, Bool, true, false, ◌&&◌, Option, none, some, List, [], ◌∷◌,
  ◌++◌, ltb, ◌==◌, if◌then◌else◌,
}
use nfd_out_of_the_box.Rib.{
  remove_inherited_route_from, add_inherited_route_to, register, unregister, remove_face,
  has_face_id, erase_route, modify_route_in, insert_route, has_capture, is_child_inherit,
  find_route, Ndn, Route, RibEntry, RibUpdate,
}

-- A batch of updates and the callbacks of the manager that asked for it, as numbers.
pub record UpdateQueueItem (N : Type 0) : Type 0 where
  pub batch_face_id : ℕ
  pub batch : List (RibUpdate N)
  pub manager_success_callback : Option ℕ
  pub manager_failure_callback : Option ℕ

pub record Rib (N : Type 0) : Type 0 where
  pub table : List (RibEntry N)
  pub face_entries : List (ℕ × N)
  pub n_items : ℕ
  pub update_batches : List (UpdateQueueItem N)
  pub is_update_in_progress : Bool

-- A set ordered by `sortRoutes`: one route for each face, the first that is inserted.
unfoldable pub set_insert_route : Route → List Route → List Route
set_insert_route r [] = r ∷ []
set_insert_route r (s ∷ ss) =
    let rest = set_insert_route r ss in
    if s.face_id == r.face_id
    then (s ∷ ss)
    else if ltb r.face_id s.face_id
    then (r ∷ s ∷ ss)
    else (s ∷ rest)

unfoldable pub find_on_face : ℕ → List Route → Option Route
find_on_face f [] = none
find_on_face f (r ∷ rs) = if r.face_id == f then some r else find_on_face f rs

-- `emplace` on a multimap: after the pairs of the same key.
unfoldable pub emplace_face : {N : Type 0} → ℕ → N → List (ℕ × N) → List (ℕ × N)
emplace_face f n [] = (f, n) ∷ []
emplace_face f n (p ∷ ps) =
    let rest = emplace_face f n ps in if ltb f p.0 then ((f, n) ∷ p ∷ ps) else (p ∷ rest)

module _ {N : Type 0} (ndn : Ndn N) where
  unfoldable pub find_in_table : N → List (RibEntry N) → Option (RibEntry N)
  find_in_table n [] = none
  find_in_table n (e ∷ es) = if ndn.same e.name n then some e else find_in_table n es

  unfoldable pub modify_entry :
      N → (RibEntry N → RibEntry N) → List (RibEntry N) → List (RibEntry N)
  modify_entry n u [] = []
  modify_entry n u (e ∷ es) = if ndn.same e.name n then (u e ∷ es) else (e ∷ modify_entry n u es)

  unfoldable pub put_in_table : RibEntry N → List (RibEntry N) → List (RibEntry N)
  put_in_table x [] = x ∷ []
  put_in_table x (e ∷ es) =
      let rest = put_in_table x es in if ndn.is_less x.name e.name then (x ∷ e ∷ es) else (e ∷ rest)

  unfoldable pub erase_from_table : N → List (RibEntry N) → List (RibEntry N)
  erase_from_table n [] = []
  erase_from_table n (e ∷ es) =
      let rest = erase_from_table n es in if ndn.same e.name n then es else (e ∷ rest)

  unfoldable pub route_of : Route → Option (RibEntry N) → Option Route
  route_of r none = none
  route_of r (some e) = find_route r e

  -- `Rib::find` with a route.
  unfoldable pub find_in_rib : N → Route → List (RibEntry N) → Option Route
  find_in_rib n r t = route_of r (find_in_table n t)

  -- The loop over the prefixes of fewer than `i` components, the longest first.
  unfoldable pub find_parent_below : N → ℕ → List (RibEntry N) → Option (RibEntry N)
  find_parent_below n zero t = none
  find_parent_below n (suc i) t =
      let shorter = find_parent_below n i t in
      elim (find_in_table (ndn.get_prefix n i) t) [ none ↦ shorter | some e ↦ some e ]

  unfoldable pub find_parent : N → List (RibEntry N) → Option (RibEntry N)
  find_parent n t = find_parent_below n (ndn.size n) t

  unfoldable pub find_longest_prefix : N → Route → List (RibEntry N) → Option Route
  find_longest_prefix n r t = elim (find_in_rib n r t) [
    | some x ↦ some x
    | none ↦ elim (find_parent n t) [ none ↦ none | some p ↦ find_in_rib p.name r t ]
  ]

  unfoldable pub take_descendants : N → List (RibEntry N) → List (RibEntry N)
  take_descendants n [] = []
  take_descendants n (e ∷ es) =
      let rest = take_descendants n es in if ndn.is_prefix_of n e.name then (e ∷ rest) else []

  unfoldable pub find_descendants : N → List (RibEntry N) → List (RibEntry N)
  find_descendants n [] = []
  find_descendants n (e ∷ es) =
      let rest = find_descendants n es in if ndn.same e.name n then take_descendants n es else rest

  unfoldable pub find_descendants_for_non_inserted_name : N → List (RibEntry N) → List (RibEntry N)
  find_descendants_for_non_inserted_name n [] = []
  find_descendants_for_non_inserted_name n (e ∷ es) =
      let rest = find_descendants_for_non_inserted_name n es in
      if ndn.is_prefix_of n e.name then (e ∷ rest) else rest

  -- Equality of pointers to entries.
  abbrev pub is_same_parent : Option N → Option N → Bool
  is_same_parent none none = true
  is_same_parent none (some n) = false
  is_same_parent (some m) none = false
  is_same_parent (some m) (some n) = ndn.same m n

  unfoldable pub insert_inherited : List Route → List Route → List Route
  insert_inherited [] set = set
  insert_inherited (r ∷ rs) set =
      insert_inherited rs (if is_child_inherit ndn r then set_insert_route r set else set)

  -- The loop over the parents, on fuel.
  unfoldable pub ancestor_routes_from : ℕ → Option N → List (RibEntry N) → List Route → List Route
  ancestor_routes_from zero p t set = set
  ancestor_routes_from (suc k) none t set = set
  ancestor_routes_from (suc k) (some p) t set = elim (find_in_table p t) [
    | none ↦ set
    | some e ↦
        let gathered = insert_inherited e.routes set in
        let further = ancestor_routes_from k e.parent t gathered in
        if has_capture e then gathered else further
  ]

  -- A parent's name is shorter than its child's, which bounds the number of ancestors.
  unfoldable pub get_ancestor_routes : RibEntry N → List (RibEntry N) → List Route
  get_ancestor_routes e t = ancestor_routes_from (ndn.size e.name) e.parent t []

  unfoldable pub get_ancestor_routes_of_name : N → List (RibEntry N) → List Route
  get_ancestor_routes_of_name n t = elim (find_parent n t) [
    | none ↦ []
    | some p ↦ ancestor_routes_from (ndn.size n) (some p.name) t []
  ]

  unfoldable pub add_child : N → N → List (RibEntry N) → List (RibEntry N)
  add_child p c t =
      modify_entry p (λ e. record e { children = e.children ++ c ∷ [] })
        (modify_entry c (λ e. record e { parent = some p }) t)

  unfoldable pub remove_name : N → List N → List N
  remove_name n [] = []
  remove_name n (m ∷ ms) = let rest = remove_name n ms in if ndn.same m n then rest else (m ∷ rest)

  unfoldable pub remove_child : N → N → List (RibEntry N) → List (RibEntry N)
  remove_child p c t =
      modify_entry p (λ e. record e { children = remove_name c e.children })
        (modify_entry c (λ e. record e { parent = none }) t)

  unfoldable pub link_to_parent : Option N → N → List (RibEntry N) → List (RibEntry N)
  link_to_parent none c t = t
  link_to_parent (some p) c t = add_child p c t

  unfoldable pub unlink_from_parent : Option N → N → List (RibEntry N) → List (RibEntry N)
  unlink_from_parent none c t = t
  unlink_from_parent (some p) c t = remove_child p c t

  -- The new entry takes the children that its parent had below it.
  unfoldable pub adopt : Option N → N → List (RibEntry N) → List (RibEntry N) → List (RibEntry N)
  adopt p n [] t = t
  adopt p n (c ∷ cs) t =
      adopt p n cs (
        if is_same_parent c.parent p then add_child n c.name (unlink_from_parent p c.name t) else t)

  abbrev pub fresh_entry : N → RibEntry N
  fresh_entry n = record {
    name = n;
    children = [];
    parent = none;
    routes = [];
    inherited_routes = [];
    n_routes_with_capture_set = 0;
  }

  unfoldable pub name_of : Option (RibEntry N) → Option N
  name_of none = none
  name_of (some e) = some e.name

  unfoldable pub insert_new_entry : N → Route → List (RibEntry N) → List (RibEntry N)
  insert_new_entry n r t =
      let t1 = put_in_table (insert_route ndn r (fresh_entry n)).0 t in
      let parent = name_of (find_parent n t1) in
      let t2 = link_to_parent parent n t1 in adopt parent n (find_descendants n t2) t2

  -- `*entryIt = route` for a route that exists.
  unfoldable pub assign_route : Route → RibEntry N → RibEntry N
  assign_route r e = record e { routes = modify_route_in (λ x. r) r e.routes }

  unfoldable pub insert_in_rib : N → Route → Rib N → Rib N
  insert_in_rib n r b = elim (find_in_table n b.table) [
    | none ↦ record b {
      table = insert_new_entry n r b.table;
      n_items = b.n_items + 1;
      face_entries = emplace_face r.face_id n b.face_entries;
    }
    | some e ↦
        let (inserted, did_insert) = insert_route ndn r e in
        let assigned = assign_route r e in
        if did_insert
        then record b {
          table = modify_entry n (λ x. inserted) b.table;
          n_items = b.n_items + 1;
          face_entries = emplace_face r.face_id n b.face_entries;
        }
        else record b { table = modify_entry n (λ x. assigned) b.table }
  ]

  unfoldable pub move_children : Option N → N → List N → List (RibEntry N) → List (RibEntry N)
  move_children p n [] t = t
  move_children p n (c ∷ cs) t =
      let t1 = remove_child n c t in move_children p n cs (link_to_parent p c t1)

  unfoldable pub erase_entry_from_rib : RibEntry N → List (RibEntry N) → List (RibEntry N)
  erase_entry_from_rib e t =
      let t1 = unlink_from_parent e.parent e.name t in
      erase_from_table e.name (move_children e.parent e.name e.children t1)

  unfoldable pub erase_face_entry : ℕ → N → List (ℕ × N) → List (ℕ × N)
  erase_face_entry f n [] = []
  erase_face_entry f n (p ∷ ps) =
      let rest = erase_face_entry f n ps in if p.0 == f && ndn.same p.1 n then ps else (p ∷ rest)

  unfoldable pub erase_from_rib : N → Route → Rib N → Rib N
  erase_from_rib n r b = elim (find_in_table n b.table) [
    | none ↦ b
    | some e ↦ elim (find_route r e) [
      | none ↦ b
      | some _ ↦
          let erased = erase_route ndn r e in
          let t1 = modify_entry n (λ x. erased) b.table in
          record b {
            table = if is_empty erased.routes then erase_entry_from_rib erased t1 else t1;
            n_items = b.n_items - 1;
            face_entries =
                if has_face_id r.face_id erased
                then b.face_entries
                else erase_face_entry r.face_id n b.face_entries;
          }
    ]
  ]

  unfoldable pub modify_inherited_routes : List (RibUpdate N) → Rib N → Rib N
  modify_inherited_routes [] b = b
  modify_inherited_routes (u ∷ us) b = modify_inherited_routes us (record b {
    table =
        modify_entry u.name
          (elim u.action [
            | register ↦ add_inherited_route_to u.route
            | unregister ↦ remove_inherited_route_from u.route
            | remove_face ↦ λ e. e
          ])
          b.table;
  })
