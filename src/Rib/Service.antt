-- ===== src/Rib/Service.antt =====
-- How daemon/rib/rib.cpp and fib-updater.cpp carry a batch through: the queue of batches, the commands to
-- the controller of the FIB, and what follows its answers. A command that is sent is the last of `sent`; it
-- keeps the batch that its callbacks are bound to. The manager's callbacks are numbers, noted when called.
use nfd_out_of_the_box.Rib.{
  UpdateAction, Ndn, FibUpdate, Route, RibUpdate, FibAction, register, unregister, remove_face,
  add_nexthop, remove_nexthop,
}
use nfd_out_of_the_box.Prelude.{
  is_empty, is_empty, is_empty, is_empty, is_empty, is_empty, is_empty, is_empty, is_empty,
  is_empty, is_empty, is_empty, is_empty, is_empty, is_empty, is_empty, is_empty, is_empty,
  is_empty, is_empty, is_empty, is_empty, is_empty, is_empty, length, ℕ, zero, suc, ◌+◌, Bool, true,
  false, not, ◌&&◌, Option, none, some, List, [], ◌∷◌, ◌++◌, ltb, ◌==◌, if◌then◌else◌,
}
use nfd_out_of_the_box.Rib.Table.{
  modify_inherited_routes, erase_from_rib, find_in_table, insert_in_rib, UpdateQueueItem, Rib,
}
use nfd_out_of_the_box.Rib.Updater.{FibUpdater}
use nfd_out_of_the_box.Rib.Changes.{start_batch, compute_updates}

pub record Command (N : Type 0) : Type 0 where
  pub verb : FibAction
  pub update : FibUpdate N
  pub n_timeouts : ℕ
  pub item : UpdateQueueItem N

pub data ManagerCall : Type 0 where
  succeeded : Option ℕ → ManagerCall
  failed : Option ℕ → ℕ → ManagerCall

pub record RibService (N : Type 0) : Type 0 where
  pub rib : Rib N
  pub updater : FibUpdater N
  pub sent : List (Command N)
  pub calls : List ManagerCall

-- `thrown` is the exception of onUpdateError, `null_pointer` the dereference of one.
pub data Outcome (N : Type 0) : Type 0 where
  done : RibService N → Outcome N
  thrown : ℕ → Outcome N
  null_pointer : Outcome N

abbrev pub max_num_timeouts : ℕ
max_num_timeouts = 10

abbrev pub error_face_not_found : ℕ
error_face_not_found = 410

module _ {N : Type 0} where
  unfoldable pub add_update_to_queue : RibUpdate N → Option ℕ → Option ℕ → Rib N → Rib N
  add_update_to_queue u success failure b = record b {
    update_batches =
        b.update_batches
        ++ record {
          batch_face_id = u.route.face_id;
          batch = u ∷ [];
          manager_success_callback = success;
          manager_failure_callback = failure;
        }
          ∷ [];
  }

  unfoldable pub enqueue_remove_face : N → ℕ → List Route → Rib N → Rib N
  enqueue_remove_face n f [] b = b
  enqueue_remove_face n f (r ∷ rs) b = enqueue_remove_face n f rs (
      if r.face_id == f
      then add_update_to_queue (record { action = remove_face; name = n; route = r }) none none b
      else b)

  unfoldable pub send_add_next_hop_update :
      FibUpdate N → UpdateQueueItem N → ℕ → RibService N → RibService N
  send_add_next_hop_update u item n s = record s {
    sent = s.sent ++ record { verb = add_nexthop; update = u; n_timeouts = n; item = item } ∷ [];
  }

  unfoldable pub send_remove_next_hop_update :
      FibUpdate N → UpdateQueueItem N → ℕ → RibService N → RibService N
  send_remove_next_hop_update u item n s = record s {
    sent = s.sent ++ record { verb = remove_nexthop; update = u; n_timeouts = n; item = item } ∷ [];
  }

  unfoldable pub send_update :
      FibAction → FibUpdate N → UpdateQueueItem N → RibService N → RibService N
  send_update add_nexthop u item s = send_add_next_hop_update u item 0 s
  send_update remove_nexthop u item s = send_remove_next_hop_update u item 0 s

  unfoldable pub send_updates : List (FibUpdate N) → UpdateQueueItem N → RibService N → RibService N
  send_updates [] item s = s
  send_updates (u ∷ us) item s = send_updates us item (send_update u.action u item s)

module _ {N : Type 0} (ndn : Ndn N) where
  unfoldable pub apply_update : UpdateAction → N → Route → Rib N → Rib N
  apply_update register n r b = insert_in_rib ndn n r b
  apply_update unregister n r b = erase_from_rib ndn n r b
  apply_update remove_face n r b = erase_from_rib ndn n r b

  unfoldable pub apply_batch : List (RibUpdate N) → Rib N → Rib N
  apply_batch [] b = b
  apply_batch (u ∷ us) b = apply_batch us (apply_update u.action u.name u.route b)

  -- `onFibUpdateSuccess` before it advances the queue.
  unfoldable pub commit : UpdateQueueItem N → RibService N → RibService N
  commit item s = record s {
    rib =
        record (modify_inherited_routes ndn s.updater.inherited_routes
          (apply_batch item.batch s.rib)) { is_update_in_progress = false };
    calls = s.calls ++ succeeded item.manager_success_callback ∷ [];
  }

  abbrev pub take_batch : List (UpdateQueueItem N) → FibUpdater N → RibService N → RibService N
  take_batch rest x s = record s {
    rib = record (s.rib) { update_batches = rest; is_update_in_progress = true };
    updater = x;
  }

  -- The updates that were computed are sent, those for the face of the batch first; `next` goes on with the queue.
  unfoldable pub launch :
      (RibService N → Outcome N)
      → UpdateQueueItem N
      → List (UpdateQueueItem N)
      → RibService N
      → Option (FibUpdater N)
      → Outcome N
  launch next item rest s none = null_pointer
  launch next item rest s (some x) =
      if not (is_empty x.updates_for_batch_face_id)
      then done (send_updates x.updates_for_batch_face_id item (take_batch rest x s))
      else if not (is_empty x.updates_for_non_batch_face_id)
      then done (send_updates x.updates_for_non_batch_face_id item (take_batch rest x s))
      else next (commit item (take_batch rest x s))

  unfoldable pub take_next :
      (RibService N → Outcome N) → RibService N → List (UpdateQueueItem N) → Outcome N
  take_next next s [] = done s
  take_next next s (item ∷ rest) =
      launch next item rest s
        (compute_updates ndn s.rib.table item.batch (start_batch ndn item.batch_face_id))

  -- The code calls itself through the callback of a batch without updates of the FIB, once for each
  -- batch of the queue, which is the fuel.
  unfoldable pub send_batches : ℕ → RibService N → Outcome N
  send_batches zero s = done s
  send_batches (suc k) s =
      if s.rib.is_update_in_progress
      then done s
      else take_next (send_batches k) s s.rib.update_batches

  unfoldable pub send_batch_from_queue : RibService N → Outcome N
  send_batch_from_queue s = send_batches (length s.rib.update_batches) s

  unfoldable pub begin_apply_update : RibUpdate N → Option ℕ → Option ℕ → RibService N → Outcome N
  begin_apply_update u success failure s =
      send_batch_from_queue (record s { rib = add_update_to_queue u success failure s.rib })

  unfoldable pub on_route_expiration : N → Route → RibService N → Outcome N
  on_route_expiration n r s =
      begin_apply_update (record { action = unregister; name = n; route = r }) none none s

  abbrev pub enqueue_at : N → ℕ → Rib N → Rib N
  enqueue_at n f b = elim (find_in_table ndn n b.table) [
    | none ↦ b
    | some e ↦ enqueue_remove_face n f e.routes b
  ]

  unfoldable pub enqueue_face : ℕ → List (ℕ × N) → Rib N → Rib N
  enqueue_face f [] b = b
  enqueue_face f (p ∷ ps) b = enqueue_face f ps (if p.0 == f then enqueue_at p.1 f b else b)

  unfoldable pub begin_remove_face : ℕ → RibService N → Outcome N
  begin_remove_face f s =
      send_batch_from_queue (record s { rib = enqueue_face f s.rib.face_entries s.rib })

  unfoldable pub enqueue_failed : (ℕ → Bool) → List (ℕ × N) → Rib N → Rib N
  enqueue_failed is_active [] b = b
  enqueue_failed is_active (p ∷ ps) b =
      enqueue_failed is_active ps (if is_active p.0 then b else enqueue_at p.1 p.0 b)

  unfoldable pub begin_remove_failed_faces : (ℕ → Bool) → RibService N → Outcome N
  begin_remove_failed_faces is_active s =
      send_batch_from_queue (record s { rib = enqueue_failed is_active s.rib.face_entries s.rib })

  unfoldable pub on_fib_update_success : UpdateQueueItem N → RibService N → Outcome N
  on_fib_update_success item s = send_batch_from_queue (commit item s)

  unfoldable pub on_fib_update_failure : UpdateQueueItem N → ℕ → RibService N → Outcome N
  on_fib_update_failure item code s = send_batch_from_queue (record s {
    rib = record (s.rib) { is_update_in_progress = false };
    calls = s.calls ++ failed item.manager_failure_callback code ∷ [];
  })

  abbrev pub is_same_action : FibAction → FibAction → Bool
  is_same_action add_nexthop add_nexthop = true
  is_same_action add_nexthop remove_nexthop = false
  is_same_action remove_nexthop add_nexthop = false
  is_same_action remove_nexthop remove_nexthop = true

  abbrev pub is_same_update : FibUpdate N → FibUpdate N → Bool
  is_same_update u v =
      ndn.same u.name v.name
      && (u.face_id == v.face_id && (u.cost == v.cost && is_same_action u.action v.action))

  unfoldable pub remove_update : FibUpdate N → List (FibUpdate N) → List (FibUpdate N)
  remove_update u [] = []
  remove_update u (v ∷ vs) =
      let rest = remove_update u vs in if is_same_update v u then rest else (v ∷ rest)

  unfoldable pub send_updates_for_non_batch_face_id : UpdateQueueItem N → RibService N → Outcome N
  send_updates_for_non_batch_face_id item s =
      if is_empty s.updater.updates_for_non_batch_face_id
      then on_fib_update_success item s
      else done (send_updates s.updater.updates_for_non_batch_face_id item s)

  -- An update for another face is done with.
  unfoldable pub finish_non_batch : Command N → RibService N → Outcome N
  finish_non_batch c s =
      let left = remove_update c.update s.updater.updates_for_non_batch_face_id in
      let s1 = record s { updater = record (s.updater) { updates_for_non_batch_face_id = left } } in
      if is_empty left then on_fib_update_success c.item s1 else done s1

  unfoldable pub on_update_success : Command N → RibService N → Outcome N
  on_update_success c s =
      let left = remove_update c.update s.updater.updates_for_batch_face_id in
      let s1 = record s { updater = record (s.updater) { updates_for_batch_face_id = left } } in
      if c.update.face_id == s.updater.batch_face_id
      then (if is_empty left then send_updates_for_non_batch_face_id c.item s1 else done s1)
      else finish_non_batch c s

  unfoldable pub on_update_error : Command N → ℕ → RibService N → Outcome N
  on_update_error c code s =
      if code == ndn.error_timeout && ltb c.n_timeouts max_num_timeouts
      then done (send_add_next_hop_update c.update c.item (c.n_timeouts + 1) s)
      else if code == error_face_not_found
      then (if c.update.face_id == s.updater.batch_face_id
          then on_fib_update_failure c.item code s
          else finish_non_batch c s)
      else thrown code
