-- ===== src/Rib.antt =====
-- The Routing Information Base's records: daemon/rib/route.hpp, rib-entry.cpp, fib-update.cpp,
-- rib-update.hpp and rib-update-batch.cpp. What the code takes from ndn-cxx, names and route flags, is the
-- record `Ndn`. An entry of the table is named by its prefix, so the pointers to the parent and to
-- the children are names. Announcements and the scheduler's events are not modelled.
pub mod Table
pub mod Updater
pub mod Changes
pub mod Service
pub mod Keeping
pub mod Updates
pub mod Queue
pub mod Captures
pub mod Costs
pub mod Nulls
pub mod Errors
pub mod Walk
pub mod Erasures
pub mod Lookup
pub mod Refinement
pub mod Erasing
use nfd_out_of_the_box.Prelude.{
  get_elem?, ℕ, zero, suc, ◌+◌, ◌-◌, ◌*◌, ◌/◌, ◌%◌, ◌^◌, ◌≤◌, ◌<◌, min, max, ◌≡◌, refl, sym, ap,
  ◌∙◌, subst, ◌≢◌, ◌↔◌, ◌⊎◌, inl, inr, Bool, true, false, not, ◌&&◌, ◌||◌, Option, none, some, List,
  [], ◌∷◌, ◌++◌, map, arith, ltb, leb, ◌==◌, if◌then◌else◌, Bool-cases, Option-cases, ==_iff,
}

-- `get_prefix` and `size` are of names; the flags of a route are tested by `child_inherit` and `capture`.
pub record Ndn (N : Type 0) : Type 0 where
  pub same : N → N → Bool
  pub size : N → ℕ
  pub get_prefix : N → ℕ → N
  pub is_prefix_of : N → N → Bool
  pub is_less : N → N → Bool
  pub child_inherit : ℕ → Bool
  pub capture : ℕ → Bool
  pub error_timeout : ℕ

pub record Route : Type 0 where
  pub face_id : ℕ
  pub origin : ℕ
  pub cost : ℕ
  pub flags : ℕ
  pub expires : Option ℕ

abbrev pub compare_face_id_and_origin : Route → Route → Bool
compare_face_id_and_origin l r = l.face_id == r.face_id && l.origin == r.origin

abbrev pub compare_face_id : Route → ℕ → Bool
compare_face_id r f = r.face_id == f

pub record RibEntry (N : Type 0) : Type 0 where
  pub name : N
  pub children : List N
  pub parent : Option N
  pub routes : List Route
  pub inherited_routes : List Route
  pub n_routes_with_capture_set : ℕ

pub data UpdateAction : Type 0 where
  register : UpdateAction
  unregister : UpdateAction
  remove_face : UpdateAction

pub record RibUpdate (N : Type 0) : Type 0 where
  pub action : UpdateAction
  pub name : N
  pub route : Route

pub data FibAction : Type 0 where
  add_nexthop : FibAction
  remove_nexthop : FibAction

pub record FibUpdate (N : Type 0) : Type 0 where
  pub name : N
  pub face_id : ℕ
  pub cost : ℕ
  pub action : FibAction

-- The constructor of `FibUpdate` leaves the cost of a removal at 0.
abbrev pub create_add_update : {N : Type 0} → N → ℕ → ℕ → FibUpdate N
create_add_update n f c = record { name = n; face_id = f; cost = c; action = add_nexthop }

abbrev pub create_remove_update : {N : Type 0} → N → ℕ → FibUpdate N
create_remove_update n f = record { name = n; face_id = f; cost = 0; action = remove_nexthop }

unfoldable pub find_route_in : Route → List Route → Option Route
find_route_in x [] = none
find_route_in x (r ∷ rs) = if compare_face_id_and_origin r x then some r else find_route_in x rs

unfoldable pub has_face_in : ℕ → List Route → Bool
has_face_in f [] = false
has_face_in f (r ∷ rs) = compare_face_id r f || has_face_in f rs

-- `m_routes.erase(it)`, where `it` is the route that `findRoute` gives.
unfoldable pub erase_route_in : Route → List Route → List Route
erase_route_in x [] = []
erase_route_in x (r ∷ rs) = if compare_face_id_and_origin r x then rs else (r ∷ erase_route_in x rs)

-- A write through the iterator that `findRoute` gives.
unfoldable pub modify_route_in : (Route → Route) → Route → List Route → List Route
modify_route_in u x [] = []
modify_route_in u x (r ∷ rs) =
    if compare_face_id_and_origin r x then (u r ∷ rs) else (r ∷ modify_route_in u x rs)

unfoldable pub remove_face_in : ℕ → List Route → List Route
remove_face_in f [] = []
remove_face_in f (r ∷ rs) =
    let rest = remove_face_in f rs in if compare_face_id r f then rest else (r ∷ rest)

-- The first of the cheapest routes that pass a test; `c` is the candidate so far.
unfoldable pub lowest_from : (Route → Bool) → Option Route → List Route → Option Route
lowest_from p c [] = c
lowest_from p none (r ∷ rs) = lowest_from p (if p r then some r else none) rs
lowest_from p (some c) (r ∷ rs) =
    lowest_from p (if p r && ltb r.cost c.cost then some r else some c) rs

-- The routes of one face, in the order of the list.
unfoldable pub matches_of : ℕ → List Route → List Route
matches_of f [] = []
matches_of f (r ∷ rs) = let rest = matches_of f rs in if r.face_id == f then (r ∷ rest) else rest

-- The counter of an entry is a 64-bit number.
abbrev pub increment : ℕ → ℕ
increment n = (n + 1) % 18446744073709551616

abbrev pub decrement : ℕ → ℕ
decrement n = (n + 18446744073709551615) % 18446744073709551616

unfoldable pub insert_by_cost : Route → List Route → List Route
insert_by_cost r [] = r ∷ []
insert_by_cost r (s ∷ ss) =
    let rest = insert_by_cost r ss in if ltb s.cost r.cost then (s ∷ rest) else (r ∷ s ∷ ss)

-- `std::nth_element`, with routes of equal cost in the order of the list.
unfoldable pub sort_by_cost : List Route → List Route
sort_by_cost [] = []
sort_by_cost (r ∷ rs) = insert_by_cost r (sort_by_cost rs)

module _ {N : Type 0} where
  unfoldable pub find_route : Route → RibEntry N → Option Route
  find_route x e = find_route_in x e.routes

  unfoldable pub has_face_id : ℕ → RibEntry N → Bool
  has_face_id f e = has_face_in f e.routes

  unfoldable pub add_inherited_route_to : Route → RibEntry N → RibEntry N
  add_inherited_route_to r e = record e { inherited_routes = e.inherited_routes ++ r ∷ [] }

  unfoldable pub remove_inherited_route_from : Route → RibEntry N → RibEntry N
  remove_inherited_route_from r e = record e {
    inherited_routes = remove_face_in r.face_id e.inherited_routes;
  }

  unfoldable pub has_inherited_route : Route → RibEntry N → Bool
  has_inherited_route r e = has_face_in r.face_id e.inherited_routes

  unfoldable pub has_capture : RibEntry N → Bool
  has_capture e = ltb 0 e.n_routes_with_capture_set

  unfoldable pub get_route_with_lowest_cost_by_face_id : ℕ → RibEntry N → Option Route
  get_route_with_lowest_cost_by_face_id f e = lowest_from (λ r. r.face_id == f) none e.routes

  unfoldable pub get_route_with_second_lowest_cost_by_face_id : ℕ → RibEntry N → Option Route
  get_route_with_second_lowest_cost_by_face_id f e =
      get_elem? (sort_by_cost (matches_of f e.routes)) 1

module _ {N : Type 0} (ndn : Ndn N) where
  abbrev pub is_child_inherit : Route → Bool
  is_child_inherit r = ndn.child_inherit r.flags

  abbrev pub is_rib_capture : Route → Bool
  is_rib_capture r = ndn.capture r.flags

  -- The Bool says that the route is new.
  unfoldable pub insert_route : Route → RibEntry N → RibEntry N × Bool
  insert_route r e = elim (find_route r e) [
    | none ↦ (
      record e {
        routes = e.routes ++ r ∷ [];
        n_routes_with_capture_set =
            if is_rib_capture r
            then increment e.n_routes_with_capture_set
            else e.n_routes_with_capture_set;
      },
      true,
    )
    | some _ ↦ (e, false)
  ]

  unfoldable pub erase_route : Route → RibEntry N → RibEntry N
  erase_route x e = elim (find_route x e) [
    | none ↦ e
    | some r ↦ record e {
      routes = erase_route_in x e.routes;
      n_routes_with_capture_set =
          if is_rib_capture r
          then decrement e.n_routes_with_capture_set
          else e.n_routes_with_capture_set;
    }
  ]

  unfoldable pub inherits_on : ℕ → List Route → Bool
  inherits_on f [] = false
  inherits_on f (r ∷ rs) = (r.face_id == f && is_child_inherit r) || inherits_on f rs

  unfoldable pub has_child_inherit_on_face_id : ℕ → RibEntry N → Bool
  has_child_inherit_on_face_id f e = inherits_on f e.routes

  unfoldable pub get_route_with_lowest_cost_and_child_inherit_by_face_id :
      ℕ → RibEntry N → Option Route
  get_route_with_lowest_cost_and_child_inherit_by_face_id f e =
      lowest_from (λ r. r.face_id == f && is_child_inherit r) none e.routes
