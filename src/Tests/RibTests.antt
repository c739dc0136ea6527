-- ===== src/Tests/RibTests.antt =====
-- A RIB with an entry for / and one for /1, whose names are lists of numbers. A flag of 1 is CHILD_INHERIT, a flag of 2
-- CAPTURE.
use nfd_out_of_the_box.Prelude.{
  take, length, ℕ, ◌%◌, ◌≤◌, ◌≡◌, refl, ◌≢◌, ◌↔◌, ◌⊎◌, inl, Bool, true, false, ◌&&◌, ◌||◌, none,
  some, List, [], ◌∷◌, arith, ltb, leb, ◌==◌,
}
use nfd_out_of_the_box.Rib.{
  has_face_in, has_face_id, inherits_on, has_child_inherit_on_face_id, has_capture,
  create_add_update, remove_nexthop, create_remove_update, unregister, matches_of, insert_by_cost,
  modify_route_in, sort_by_cost, get_route_with_lowest_cost_and_child_inherit_by_face_id, register,
  erase_route_in, is_child_inherit, erase_route, lowest_from,
  get_route_with_second_lowest_cost_by_face_id, get_route_with_lowest_cost_by_face_id, insert_route,
  find_route_in, RibUpdate, find_route, UpdateAction, RibEntry, Route, Ndn,
}
use nfd_out_of_the_box.Rib.Table.{
  modify_inherited_routes, UpdateQueueItem, assign_route, erase_from_rib, insert_in_rib,
  find_in_table, find_in_rib, Rib,
}
use nfd_out_of_the_box.Rib.Updater.{
  replace_or_push, add_fib_update, add_inherited_route, unblocked, remove_loop, add_loop,
  traverse_sub_tree, FibUpdater, modify_childrens, modify_childrens_inherited_routes, longest,
}
use nfd_out_of_the_box.Rib.Captures.{
  assign_route-IsCounted_fails, insert_route-erase_route-IsCounted, IsCounted,
}
use nfd_out_of_the_box.Rib.Costs.{get_route_with_lowest_cost-IsCheapest, IsCheapest}
use nfd_out_of_the_box.Rib.Refinement.{find_in_rib-insert_in_rib}
use nfd_out_of_the_box.Rib.Changes.{
  create_fib_updates_for_new_route, compute_update, compute_updates,
  compute_updates_for_unregistration, updated_copy, start_batch, compute_updates_for_registration,
}
use nfd_out_of_the_box.Rib.Erasing.{find_in_rib-erase_from_rib}
use nfd_out_of_the_box.Rib.Nulls.{
  compute_updates_for_registration_fails, compute_updates_for_registration_succeeds,
}
use nfd_out_of_the_box.Rib.Walk.{modify_childrens-Walks, Walks}
use nfd_out_of_the_box.Rib.Erasures.{compute_updates_for_unregistration_alone}
use nfd_out_of_the_box.Rib.Service.{
  apply_update, apply_batch, on_update_success, commit, max_num_timeouts, launch,
  error_face_not_found, take_next, on_update_error, send_batches, succeeded, Command,
  send_batch_from_queue, RibService,
}
use nfd_out_of_the_box.Rib.Errors.{on_update_error-IsThrown, IsThrown}
use nfd_out_of_the_box.Rib.Queue.{send_batch_from_queue_lem, IsUnderWay, IsDrained}
use nfd_out_of_the_box.Rib.Updates.{compute_updates-IsPartitioned, IsPartitioned}

abbrev same : List ℕ → List ℕ → Bool
same [] [] = true
same [] (b ∷ bs) = false
same (a ∷ as1) [] = false
same (a ∷ as1) (b ∷ bs) = a == b && same as1 bs

abbrev is_prefix_of : List ℕ → List ℕ → Bool
is_prefix_of [] bs = true
is_prefix_of (a ∷ as1) [] = false
is_prefix_of (a ∷ as1) (b ∷ bs) = a == b && is_prefix_of as1 bs

abbrev is_less : List ℕ → List ℕ → Bool
is_less as1 [] = false
is_less [] (b ∷ bs) = true
is_less (a ∷ as1) (b ∷ bs) = ltb a b || (a == b && is_less as1 bs)

abbrev ndn : Ndn (List ℕ)
ndn = record {
  same = same;
  size = length;
  get_prefix = λ n i. take i n;
  is_prefix_of = is_prefix_of;
  is_less = is_less;
  child_inherit = λ f. f % 2 == 1;
  capture = λ f. leb 2 f;
  error_timeout = 10060;
}

lawful : (a b : List ℕ) → (same a b ≡ true) ↔ (a ≡ b)
lawful [] [] = (λ h. refl, λ h. refl)
lawful [] (b ∷ bs) = ground arith
lawful (a ∷ as1) [] = ground arith
lawful (a ∷ as1) (b ∷ bs) = ground (arith, lawful as1 bs)

symmetric : (a b : List ℕ) → same a b ≡ same b a
symmetric [] [] = refl
symmetric [] (b ∷ bs) = refl
symmetric (a ∷ as1) [] = refl
symmetric (a ∷ as1) (b ∷ bs) = ground (arith, symmetric as1 bs)

same_length : (a b : List ℕ) → same a b ≡ true → length a ≡ length b
same_length [] [] h = refl
same_length [] (b ∷ bs) h = ground arith
same_length (a ∷ as1) [] h = ground arith
same_length (a ∷ as1) (b ∷ bs) h = ground (arith, same_length as1 bs)

abbrev route : ℕ → ℕ → ℕ → ℕ → Route
route face origin cost flags = record {
  face_id = face;
  origin = origin;
  cost = cost;
  flags = flags;
  expires = none;
}

abbrev top : RibEntry (List ℕ)
top = record {
  name = [];
  children = (1 ∷ []) ∷ [];
  parent = none;
  routes = route 5 0 7 1 ∷ [];
  inherited_routes = [];
  n_routes_with_capture_set = 0;
}

-- Two routes on face 1 without flags, and the one of face 5 inherited.
abbrev below : RibEntry (List ℕ)
below = record {
  name = 1 ∷ [];
  children = [];
  parent = some [];
  routes = route 1 0 10 0 ∷ route 1 1 20 0 ∷ [];
  inherited_routes = route 5 0 7 1 ∷ [];
  n_routes_with_capture_set = 0;
}

abbrev alone : RibEntry (List ℕ)
alone = record below { parent = none; inherited_routes = [] }

abbrev rib : Rib (List ℕ)
rib = record {
  table = top ∷ below ∷ [];
  face_entries = (1, 1 ∷ []) ∷ (5, []) ∷ [];
  n_items = 3;
  update_batches = [];
  is_update_in_progress = false;
}

abbrev change : UpdateAction → List ℕ → Route → RibUpdate (List ℕ)
change a n r = record { action = a; name = n; route = r }

find_in_rib-insert_in_rib_example :
    find_in_rib ndn (1 ∷ []) (route 1 1 0 0) (insert_in_rib ndn (1 ∷ []) (route 1 1 5 0) rib).table
    ≡ some (route 1 1 5 0)
find_in_rib-insert_in_rib_example =
    find_in_rib-insert_in_rib ndn lawful (1 ∷ []) (1 ∷ []) (route 1 1 5 0) (route 1 1 0 0) rib

find_in_rib-erase_from_rib_example :
    find_in_rib ndn [] (route 5 0 0 0) (erase_from_rib ndn [] (route 5 0 7 1) rib).table ≡ none
unfolding find_in_table find_route_in
find_in_rib-erase_from_rib_example =
    find_in_rib-erase_from_rib ndn lawful [] [] (route 5 0 7 1) (route 5 0 0 0) rib
      (refl, (refl, tt), (refl, (refl, (refl, tt)), tt))

compute_updates_for_unregistration_alone_example :
    (compute_updates_for_unregistration ndn
      (alone ∷ [])
      (change unregister (1 ∷ []) (route 1 1 20 0))
      (start_batch ndn 1)).updates_for_batch_face_id
    ≡ create_remove_update (1 ∷ []) 1 ∷ []
unfolding find_in_table find_route find_route_in get_route_with_second_lowest_cost_by_face_id
    get_route_with_lowest_cost_by_face_id erase_route erase_route_in lowest_from sort_by_cost
    insert_by_cost matches_of
compute_updates_for_unregistration_alone_example =
    compute_updates_for_unregistration_alone ndn (alone ∷ [])
      (change unregister (1 ∷ []) (route 1 1 20 0)) refl refl refl refl refl refl refl refl

compute_updates_for_registration_succeeds_example :
    compute_updates_for_registration ndn rib.table
      (change register (1 ∷ []) (route 1 0 8 0))
      (start_batch ndn 1)
    ≢ none
unfolding find_in_table find_route find_route_in
compute_updates_for_registration_succeeds_example =
    compute_updates_for_registration_succeeds ndn rib.table
      (change register (1 ∷ []) (route 1 0 8 0)) (start_batch ndn 1) refl refl (inl (omega arith))

compute_updates_for_registration_fails_example :
    compute_updates_for_registration ndn rib.table
      (change register (1 ∷ []) (route 1 0 30 0))
      (start_batch ndn 1)
    ≡ none
unfolding find_in_table find_route find_route_in get_route_with_lowest_cost_by_face_id lowest_from
    updated_copy modify_route_in
compute_updates_for_registration_fails_example =
    compute_updates_for_registration_fails ndn rib.table (change register (1 ∷ []) (route 1 0 30 0))
      (start_batch ndn 1) refl refl refl (omega arith) (omega arith) (refl, (refl, tt))

modify_childrens-Walks_example :
    Walks ndn rib.table
      ((1 ∷ []) ∷ [])
      (route 6 0 3 1 ∷ [])
      []
      (start_batch ndn 6)
      (modify_childrens ndn rib.table ((1 ∷ []) ∷ []) (route 6 0 3 1 ∷ []) [] (start_batch ndn 6))
modify_childrens-Walks_example =
    modify_childrens-Walks ndn same_length rib.table ((omega arith, tt), (tt, tt)) ((1 ∷ []) ∷ [])
      (route 6 0 3 1 ∷ []) [] (start_batch ndn 6)

insert_route-erase_route-IsCounted_example :
    IsCounted ndn (insert_route ndn (route 3 0 3 2) below).0
    × IsCounted ndn (erase_route ndn (route 3 0 3 2) below)
insert_route-erase_route-IsCounted_example =
    insert_route-erase_route-IsCounted ndn (route 3 0 3 2) below refl

assign_route-IsCounted_fails_example : ¬ IsCounted ndn (assign_route ndn (route 1 0 10 2) below)
unfolding find_route find_route_in
assign_route-IsCounted_fails_example =
    assign_route-IsCounted_fails ndn (route 1 0 10 2) below refl (λ h. ground arith) refl

get_route_with_lowest_cost-IsCheapest_example :
    IsCheapest (λ r. r.face_id == 1) below.routes (get_route_with_lowest_cost_by_face_id 1 below)
    × IsCheapest
        (λ r. r.face_id == 1 && is_child_inherit ndn r)
        below.routes
        (get_route_with_lowest_cost_and_child_inherit_by_face_id ndn 1 below)
get_route_with_lowest_cost-IsCheapest_example = get_route_with_lowest_cost-IsCheapest ndn 1 below

-- A batch that takes a route from a name that the RIB does not have.
abbrev item : UpdateQueueItem (List ℕ)
item = record {
  batch_face_id = 1;
  batch = change unregister (4 ∷ []) (route 1 0 0 0) ∷ [];
  manager_success_callback = some 8;
  manager_failure_callback = none;
}

abbrev service : RibService (List ℕ)
service = record {
  rib = record rib { update_batches = item ∷ [] };
  updater = record {
    batch_face_id = 0;
    inherited_routes = [];
    updates_for_batch_face_id = [];
    updates_for_non_batch_face_id = [];
  };
  sent = [];
  calls = [];
}

abbrev served : RibService (List ℕ)
served = record {
  rib = rib;
  updater = record {
    batch_face_id = 1;
    inherited_routes = [];
    updates_for_batch_face_id = [];
    updates_for_non_batch_face_id = [];
  };
  sent = [];
  calls = succeeded (some 8) ∷ [];
}

send_batch_from_queue_lem_example : IsDrained ndn service served ⊎ IsUnderWay ndn service served
unfolding send_batch_from_queue send_batches take_next launch compute_updates compute_update
    compute_updates_for_unregistration find_in_table commit apply_batch apply_update erase_from_rib
    modify_inherited_routes start_batch
send_batch_from_queue_lem_example = send_batch_from_queue_lem ndn service refl refl

abbrev command : Command (List ℕ)
command = record {
  verb = remove_nexthop;
  update = create_remove_update (1 ∷ []) 1;
  n_timeouts = 10;
  item = item;
}

on_update_error-IsThrown_example :
    (IsThrown ndn (on_update_error ndn command ndn.error_timeout service) ↔ (
      (ndn.error_timeout ≢ error_face_not_found)
      × ((ndn.error_timeout ≢ ndn.error_timeout) ⊎ (max_num_timeouts ≤ 10))))
    × (¬ IsThrown ndn (on_update_success ndn command service))
    × (¬ IsThrown ndn (send_batch_from_queue ndn service))
on_update_error-IsThrown_example = on_update_error-IsThrown ndn command ndn.error_timeout service

-- A new route for / that its child inherits.
abbrev computed : FibUpdater (List ℕ)
computed = record {
  batch_face_id = 6;
  inherited_routes = change register (1 ∷ []) (route 6 0 3 1) ∷ [];
  updates_for_batch_face_id = create_add_update (1 ∷ []) 6 3 ∷ create_add_update [] 6 3 ∷ [];
  updates_for_non_batch_face_id = [];
}

compute_updates-IsPartitioned_example : IsPartitioned ndn 6 computed
unfolding compute_updates compute_update compute_updates_for_registration find_in_table find_route
    find_route_in create_fib_updates_for_new_route start_batch modify_childrens
    modify_childrens_inherited_routes traverse_sub_tree longest add_loop remove_loop unblocked
    has_capture has_child_inherit_on_face_id inherits_on has_face_id has_face_in add_inherited_route
    add_fib_update replace_or_push get_route_with_lowest_cost_by_face_id
    get_route_with_lowest_cost_and_child_inherit_by_face_id lowest_from
compute_updates-IsPartitioned_example =
    compute_updates-IsPartitioned ndn symmetric rib.table 6
      (change register [] (route 6 0 3 1) ∷ []) refl
