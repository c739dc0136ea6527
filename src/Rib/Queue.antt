-- ===== src/Rib/Queue.antt =====
-- The queue of batches of daemon/rib/rib.cpp: one batch at a time, in order, and none is left behind while no
-- batch is under way.
use mathlib.Core.List.{append-nil, append_assoc}
use nfd_out_of_the_box.Prelude.{
  is_empty, is_empty, is_empty, is_empty, is_empty, is_empty, is_empty, is_empty, is_empty,
  is_empty, is_empty, is_empty, is_empty, is_empty, is_empty, is_empty, is_empty, is_empty,
  is_empty, is_empty, is_empty, is_empty, is_empty, is_empty, length, ℕ, zero, suc, ◌≤◌, ◌<◌, ◌≡◌,
  refl, sym, ap, ◌∙◌, subst, ◌⊎◌, inl, inr, Bool, true, false, not, Option, none, some, List, [],
  ◌∷◌, ◌++◌, map, arith, if◌then◌else◌,
}
use nfd_out_of_the_box.Rib.{
  register, unregister, remove_face, add_nexthop, remove_nexthop, FibAction, UpdateAction,
  FibUpdate, RibUpdate, Route, Ndn,
}
use nfd_out_of_the_box.Rib.Table.{
  Rib, UpdateQueueItem, modify_inherited_routes, erase_from_rib, insert_in_rib,
}
use nfd_out_of_the_box.Rib.Service.{
  Command, null_pointer, thrown, take_next, launch, send_batch_from_queue, Outcome, take_batch,
  done, send_batches, send_update, apply_update, succeeded, send_remove_next_hop_update,
  ManagerCall, send_add_next_hop_update, RibService, send_updates, commit, apply_batch,
}
use nfd_out_of_the_box.Rib.Updater.{FibUpdater}
use nfd_out_of_the_box.Rib.Changes.{start_batch, compute_updates}

module _ {N : Type 0} (ndn : Ndn N) where
  insert_keeps_queue :
      (n : N) (r : Route) (b : Rib N) → (insert_in_rib ndn n r b).update_batches ≡ b.update_batches
  unfolding insert_in_rib
  insert_keeps_queue n r b = ground arith

  erase_keeps_queue :
      (n : N) (r : Route) (b : Rib N) → (erase_from_rib ndn n r b).update_batches ≡ b.update_batches
  unfolding erase_from_rib
  erase_keeps_queue n r b = ground arith

  modify_keeps_queue :
      (us : List (RibUpdate N)) (b : Rib N)
      → (modify_inherited_routes ndn us b).update_batches ≡ b.update_batches
  unfolding modify_inherited_routes
  modify_keeps_queue [] b = refl
  modify_keeps_queue (u ∷ us) b = modify_keeps_queue us _

  apply_update_keeps_queue :
      (a : UpdateAction) (n : N) (r : Route) (b : Rib N)
      → (apply_update ndn a n r b).update_batches ≡ b.update_batches
  unfolding apply_update
  apply_update_keeps_queue register n r b = insert_keeps_queue n r b
  apply_update_keeps_queue unregister n r b = erase_keeps_queue n r b
  apply_update_keeps_queue remove_face n r b = erase_keeps_queue n r b

  apply_keeps_queue :
      (us : List (RibUpdate N)) (b : Rib N)
      → (apply_batch ndn us b).update_batches ≡ b.update_batches
  unfolding apply_batch
  apply_keeps_queue [] b = refl
  apply_keeps_queue (u ∷ us) b =
      apply_keeps_queue us _ ∙ apply_update_keeps_queue u.action u.name u.route b

  commit_keeps_queue :
      (item : UpdateQueueItem N) (s : RibService N)
      → (commit ndn item s).rib.update_batches ≡ s.rib.update_batches
  unfolding commit
  commit_keeps_queue item s =
      modify_keeps_queue s.updater.inherited_routes (apply_batch ndn item.batch s.rib)
      ∙ apply_keeps_queue item.batch s.rib

  -- The first sending of an update for a batch.
  abbrev pub command_of : UpdateQueueItem N → FibUpdate N → Command N
  command_of item u = record { verb = u.action; update = u; n_timeouts = 0; item = item }

  -- The updates that are sent at once: those for the face of the batch, or the others if there are none.
  abbrev pub first_updates : FibUpdater N → List (FibUpdate N)
  first_updates x =
      if is_empty x.updates_for_batch_face_id
      then x.updates_for_non_batch_face_id
      else x.updates_for_batch_face_id

  -- Only the commands that were sent are more.
  abbrev SentFor : List (FibUpdate N) → UpdateQueueItem N → RibService N → RibService N → Type 0
  SentFor us item s s' =
      (s'.rib ≡ s.rib)
      × (s'.updater ≡ s.updater)
      × (s'.calls ≡ s.calls)
      × (s'.sent ≡ s.sent ++ map (command_of item) us)

  send_update_sent :
      (a : FibAction) (u : FibUpdate N) (item : UpdateQueueItem N) (s : RibService N)
      → u.action ≡ a
      → SentFor (u ∷ []) item s (send_update a u item s)
  unfolding send_update send_add_next_hop_update send_remove_next_hop_update
  send_update_sent add_nexthop u item s e = (refl, refl, refl, rw e refl)
  send_update_sent remove_nexthop u item s e = (refl, refl, refl, rw e refl)

  send_updates_keep :
      (us : List (FibUpdate N)) (item : UpdateQueueItem N) (s : RibService N)
      → SentFor us item s (send_updates us item s)
  unfolding send_updates
  send_updates_keep [] item s = (refl, refl, refl, sym (append-nil s.sent))
  send_updates_keep (u ∷ us) item s =
      let (a, p, b, c) = send_update_sent u.action u item s refl in
      let (d, q, e, g) = send_updates_keep us item (send_update u.action u item s) in
      (
        d ∙ a,
        q ∙ p,
        e ∙ b,
        g
            ∙ (ap (λ z. z ++ map (command_of item) us) c
                ∙ append_assoc s.sent (command_of item u ∷ []) (map (command_of item) us)),
      )

  -- The manager's callback for a batch that succeeds.
  abbrev pub report : UpdateQueueItem N → ManagerCall
  report item = succeeded item.manager_success_callback

  -- The queue is empty, and the managers of all its batches are told in its order.
  abbrev pub IsDrained : RibService N → RibService N → Type 0
  IsDrained s s' =
      (s'.rib.is_update_in_progress ≡ false)
      × (s'.rib.update_batches ≡ [])
      × (s'.calls ≡ s.calls ++ map report s.rib.update_batches)
      × (s'.sent ≡ s.sent)

  -- The managers of the first batches are told. For the next batch the updater has computed the changes from the table
  -- as it is then, of which there are some, and for each of its first updates a command was sent that is bound to
  -- this batch; nothing else was sent.
  abbrev pub IsUnderWay : RibService N → RibService N → Type 0
  IsUnderWay s s' =
      (finished : List (UpdateQueueItem N)) × (current : UpdateQueueItem N)
      × (s'.rib.is_update_in_progress ≡ true)
      × (s.rib.update_batches ≡ finished ++ current ∷ s'.rib.update_batches)
      × (s'.calls ≡ s.calls ++ map report finished)
      × (compute_updates ndn s'.rib.table current.batch (start_batch ndn current.batch_face_id)
          ≡ some s'.updater)
      × (0 < length (first_updates s'.updater))
      × (s'.sent ≡ s.sent ++ map (command_of current) (first_updates s'.updater))

  abbrev pub IsAdvanced : RibService N → Outcome N → Type 0
  IsAdvanced s (done s') = IsDrained s s' ⊎ IsUnderWay s s'
  IsAdvanced s (thrown code) = Unit {0}
  IsAdvanced s null_pointer = Unit {0}

  if_IsAdvanced :
      (s : RibService N) (b : Bool) (o p : Outcome N)
      → (b ≡ true → IsAdvanced s o)
      → (b ≡ false → IsAdvanced s p)
      → IsAdvanced s (if b then o else p)
  if_IsAdvanced s true o p h g = h refl
  if_IsAdvanced s false o p h g = g refl

  some_updates : (us : List (FibUpdate N)) → not (is_empty us) ≡ true → 0 < length us
  some_updates [] h = ground arith
  some_updates (u ∷ us) h = omega arith

  sending :
      (us : List (FibUpdate N)) (x : FibUpdater N) (item : UpdateQueueItem N)
      (rest : List (UpdateQueueItem N)) (s : RibService N)
      → s.rib.update_batches ≡ item ∷ rest
      → compute_updates ndn s.rib.table item.batch (start_batch ndn item.batch_face_id) ≡ some x
      → us ≡ first_updates x
      → not (is_empty us) ≡ true
      → IsAdvanced s (done (send_updates us item (take_batch ndn rest x s)))
  sending us x item rest s q r f e =
      let (a, p, b, c) = send_updates_keep us item (take_batch ndn rest x s) in
      let first : us ≡ first_updates (send_updates us item (take_batch ndn rest x s)).updater =
        f ∙ ap first_updates (sym p) in
      inr (
        [],
        item,
        ap (λ (z : Rib N). z.is_update_in_progress) a,
        q ∙ ap (λ (z : Rib N). item ∷ z.update_batches) (sym a),
        b ∙ sym (append-nil s.calls),
        ap
              (λ (z : Rib N).
                compute_updates ndn z.table item.batch (start_batch ndn item.batch_face_id))
              a
            ∙ (r ∙ ap some (sym p)),
        subst (λ z. 0 < length z) first (some_updates us e),
        c ∙ ap (λ z. s.sent ++ map (command_of item) z) first,
      )

  committed :
      (item : UpdateQueueItem N) (s : RibService N)
      → (commit ndn item s).calls ≡ s.calls ++ report item ∷ []
  unfolding commit
  committed item s = refl

  committed_sent : (item : UpdateQueueItem N) (s : RibService N) → (commit ndn item s).sent ≡ s.sent
  unfolding commit
  committed_sent item s = refl

  committed_idle :
      (item : UpdateQueueItem N) (s : RibService N)
      → (commit ndn item s).rib.is_update_in_progress ≡ false
  unfolding commit
  committed_idle item s = refl

  take_none :
      (s : RibService N) (q : List (UpdateQueueItem N))
      → s.rib.update_batches ≡ q
      → length q ≤ 0
      → s.rib.is_update_in_progress ≡ false
      → IsAdvanced s (done s)
  take_none s [] e l i =
      inl (i, e, sym (append-nil s.calls) ∙ ap (λ z. s.calls ++ map report z) (sym e), refl)
  take_none s (item ∷ rest) e l i = absurd (omega (arith, l))

  -- A batch that succeeds at once, and what follows.
  then_rest :
      (item : UpdateQueueItem N) (s s1 : RibService N) (o : Outcome N)
      → s.rib.update_batches ≡ item ∷ s1.rib.update_batches
      → s1.calls ≡ s.calls ++ report item ∷ []
      → s1.sent ≡ s.sent
      → IsAdvanced s1 o
      → IsAdvanced s o
  then_rest item s s1 (done s') q c n (inl (i, e, d, u)) = inl (
    i,
    e,
    d
        ∙ (ap (λ z. z ++ map report s1.rib.update_batches) c
            ∙ (append_assoc s.calls (report item ∷ []) (map report s1.rib.update_batches)
                ∙ ap (λ z. s.calls ++ map report z) (sym q))),
    u ∙ n,
  )
  then_rest item s s1 (done s') q c n (inr (finished, current, i, e, d, r, l, g)) = inr (
    item ∷ finished,
    current,
    i,
    q ∙ ap (λ z. item ∷ z) e,
    d
        ∙ (ap (λ z. z ++ map report finished) c
            ∙ append_assoc s.calls (report item ∷ []) (map report finished)),
    r,
    l,
    g ∙ ap (λ z. z ++ map (command_of current) (first_updates s'.updater)) n,
  )
  then_rest item s s1 (thrown code) q c n h = tt
  then_rest item s s1 null_pointer q c n h = tt

  module _ (k : ℕ) (next : RibService N → Outcome N)
      (advances : (s : RibService N)
        → length s.rib.update_batches ≤ k
        → s.rib.is_update_in_progress ≡ false
        → IsAdvanced s (next s)) where
    launch-IsAdvanced :
        (item : UpdateQueueItem N) (rest : List (UpdateQueueItem N)) (s : RibService N)
        (o : Option (FibUpdater N))
        → s.rib.update_batches ≡ item ∷ rest
        → length rest ≤ k
        → compute_updates ndn s.rib.table item.batch (start_batch ndn item.batch_face_id) ≡ o
        → IsAdvanced s (launch ndn next item rest s o)
    unfolding launch
    launch-IsAdvanced item rest s none q l r = tt
    launch-IsAdvanced item rest s (some x) q l r =
        let s1 = commit ndn item (take_batch ndn rest x s) in
        let kept = commit_keeps_queue item (take_batch ndn rest x s) in
        if_IsAdvanced s (not (is_empty x.updates_for_batch_face_id)) _ _
          (λ e. sending x.updates_for_batch_face_id x item rest s q r (ground arith) e)
          (λ f.
            if_IsAdvanced s (not (is_empty x.updates_for_non_batch_face_id)) _ _
              (λ e. sending x.updates_for_non_batch_face_id x item rest s q r (ground arith) e)
              (λ g.
                then_rest item s s1 _ (q ∙ ap (λ z. item ∷ z) (sym kept)) (committed item _)
                  (committed_sent item _)
                  (advances s1 (subst (λ z. length z ≤ k) (sym kept) l) (committed_idle item _))))

    take_next-IsAdvanced :
        (s : RibService N) (q : List (UpdateQueueItem N))
        → s.rib.update_batches ≡ q
        → length q ≤ suc k
        → s.rib.is_update_in_progress ≡ false
        → IsAdvanced s (take_next ndn next s q)
    unfolding take_next
    take_next-IsAdvanced s [] e l i =
        inl (i, e, sym (append-nil s.calls) ∙ ap (λ z. s.calls ++ map report z) (sym e), refl)
    take_next-IsAdvanced s (item ∷ rest) e l i =
        launch-IsAdvanced item rest s _ e (omega (arith, l)) refl

  send_batches-IsAdvanced :
      (k : ℕ) (s : RibService N)
      → length s.rib.update_batches ≤ k
      → s.rib.is_update_in_progress ≡ false
      → IsAdvanced s (send_batches ndn k s)
  unfolding send_batches
  send_batches-IsAdvanced zero s l i = take_none s s.rib.update_batches refl l i
  send_batches-IsAdvanced (suc k) s l i =
      if_IsAdvanced s s.rib.is_update_in_progress _ _ (λ e. absurd (ground arith))
        (λ e. take_next-IsAdvanced k (send_batches ndn k) (send_batches-IsAdvanced k) s _ refl l i)

  -- When no batch is under way and the queue is sent, there are two ways for it to end, unless the code
  -- dereferences a null pointer. The queue is empty, no batch is under way, no command was sent, and the
  -- callbacks of the managers of all batches are called in the order of the queue. Or the callbacks of
  -- the first batches are called, the others wait in their order, and the batch between is under way:
  -- the commands that were sent are those for the updates computed for this batch, for its own face if there
  -- are any and for the other faces otherwise, one at least, each bound to this batch.
  pub send_batch_from_queue_lem :
      (s : RibService N) {s' : RibService N}
      → s.rib.is_update_in_progress ≡ false
      → send_batch_from_queue ndn s ≡ done s'
      → IsDrained s s' ⊎ IsUnderWay s s'
  unfolding send_batch_from_queue
  send_batch_from_queue_lem s i h =
      subst (IsAdvanced s) h
        (send_batches-IsAdvanced (length s.rib.update_batches) s (omega arith) i)
