-- ===== src/Rib/Errors.antt =====
-- The answers of the controller in daemon/rib/fib-updater.cpp: which errors throw.

use nfd_out_of_the_box.Rib.Service.{
  send_updates_for_non_batch_face_id, max_num_timeouts, remove_update, error_face_not_found,
  Command, on_update_success, send_batch_from_queue, on_fib_update_success, take_next, launch,
  on_update_error, on_fib_update_failure, finish_non_batch, send_batches, RibService, Outcome, done,
  thrown, null_pointer,
}
use nfd_out_of_the_box.Prelude.{
  is_empty, is_empty, is_empty, is_empty, is_empty, is_empty, is_empty, is_empty, is_empty,
  is_empty, is_empty, is_empty, is_empty, is_empty, is_empty, is_empty, is_empty, is_empty,
  is_empty, is_empty, is_empty, is_empty, is_empty, is_empty, ℕ, zero, suc, ◌≤◌, ◌≡◌, refl, ◌≢◌,
  ◌↔◌, ◌⊎◌, Bool, true, false, not, ◌&&◌, Option, none, some, List, [], ◌∷◌, arith, ltb, ◌==◌,
  if◌then◌else◌,
}
use nfd_out_of_the_box.Rib.{Ndn}
use nfd_out_of_the_box.Rib.Table.{UpdateQueueItem}
use nfd_out_of_the_box.Rib.Updater.{FibUpdater}

module _ {N : Type 0} (ndn : Ndn N) where
  abbrev pub IsThrown : Outcome N → Type 0
  IsThrown (done s) = ⊥
  IsThrown (thrown code) = Unit {0}
  IsThrown null_pointer = ⊥

  if_is_calm :
      (b : Bool) (o p : Outcome N) → ¬ IsThrown o → ¬ IsThrown p → ¬ IsThrown (if b then o else p)
  if_is_calm true o p h g = h
  if_is_calm false o p h g = g

  module _ (next : RibService N → Outcome N) (calm : (s : RibService N) → ¬ IsThrown (next s)) where
    launch_is_calm :
        (item : UpdateQueueItem N) (rest : List (UpdateQueueItem N)) (s : RibService N)
        (o : Option (FibUpdater N))
        → ¬ IsThrown (launch ndn next item rest s o)
    unfolding launch
    launch_is_calm item rest s none = λ h. h
    launch_is_calm item rest s (some x) =
        if_is_calm (not (is_empty x.updates_for_batch_face_id)) _ _ (λ h. h)
          (if_is_calm (not (is_empty x.updates_for_non_batch_face_id)) _ _ (λ h. h) (calm _))

    take_next_is_calm :
        (s : RibService N) (q : List (UpdateQueueItem N)) → ¬ IsThrown (take_next ndn next s q)
    unfolding take_next
    take_next_is_calm s [] = λ h. h
    take_next_is_calm s (item ∷ rest) = launch_is_calm item rest s _

  send_batches_is_calm : (k : ℕ) (s : RibService N) → ¬ IsThrown (send_batches ndn k s)
  unfolding send_batches
  send_batches_is_calm zero s = λ h. h
  send_batches_is_calm (suc k) s =
      if_is_calm s.rib.is_update_in_progress _ _ (λ h. h)
        (take_next_is_calm (send_batches ndn k) (send_batches_is_calm k) s _)

  finish_is_calm : (c : Command N) (s : RibService N) → ¬ IsThrown (finish_non_batch ndn c s)
  unfolding finish_non_batch on_fib_update_success send_batch_from_queue
  finish_is_calm c s =
      if_is_calm (is_empty (remove_update ndn c.update s.updater.updates_for_non_batch_face_id)) _ _
        (send_batches_is_calm _ _) (λ h. h)

  failure_is_calm :
      (item : UpdateQueueItem N) (code : ℕ) (s : RibService N)
      → ¬ IsThrown (on_fib_update_failure ndn item code s)
  unfolding on_fib_update_failure send_batch_from_queue
  failure_is_calm item code s = send_batches_is_calm _ _

  answers_is_calm : (c : Command N) (s : RibService N) → ¬ IsThrown (on_update_success ndn c s)
  unfolding on_update_success send_updates_for_non_batch_face_id on_fib_update_success
      send_batch_from_queue
  answers_is_calm c s =
      if_is_calm (c.update.face_id == s.updater.batch_face_id) _ _
        (if_is_calm (is_empty (remove_update ndn c.update s.updater.updates_for_batch_face_id)) _ _
          (if_is_calm (is_empty s.updater.updates_for_non_batch_face_id) _ _
            (send_batches_is_calm _ _) (λ h. h))
          (λ h. h))
        (finish_is_calm c s)

  missing_face_is_calm :
      (c : Command N) (code : ℕ) (s : RibService N)
      → ¬ IsThrown (
          if c.update.face_id == s.updater.batch_face_id
          then on_fib_update_failure ndn c.item code s
          else finish_non_batch ndn c s)
  missing_face_is_calm c code s =
      if_is_calm (c.update.face_id == s.updater.batch_face_id) _ _ (failure_is_calm c.item code s)
        (finish_is_calm c s)

  -- The two tests of onUpdateError, with what each branch gives.
  error_tests :
      (a b : Bool) (o p : Outcome N) (code : ℕ)
      → ¬ IsThrown o
      → ¬ IsThrown p
      → IsThrown (if a then o else if b then p else thrown code) ↔ ((a ≡ false) × (b ≡ false))
  error_tests true b o p code h g = (λ z. absurd (h z), λ z. absurd (ground arith))
  error_tests false true o p code h g = (λ z. absurd (g z), λ z. absurd (ground arith))
  error_tests false false o p code h g = (λ z. (refl, refl), λ z. tt)

  test_cases :
      (code timeout n : ℕ)
      → (((code == timeout && ltb n max_num_timeouts) ≡ false)
          × ((code == error_face_not_found) ≡ false))
        ↔ ((code ≢ error_face_not_found) × ((code ≢ timeout) ⊎ (max_num_timeouts ≤ n)))
  test_cases code timeout n = ground arith

  -- An error throws exactly when it is not ERROR_FACE_NOT_FOUND and either is no timeout or is one of a command
  -- that has timed out MAX_NUM_TIMEOUTS times before. An answer that reports success never throws, nor does
  -- sending the queue.
  pub on_update_error-IsThrown :
      (c : Command N) (code : ℕ) (s : RibService N)
      → (IsThrown (on_update_error ndn c code s) ↔ (
          (code ≢ error_face_not_found)
          × ((code ≢ ndn.error_timeout) ⊎ (max_num_timeouts ≤ c.n_timeouts))))
        × (¬ IsThrown (on_update_success ndn c s))
        × (¬ IsThrown (send_batch_from_queue ndn s))
  unfolding on_update_error send_batch_from_queue
  on_update_error-IsThrown c code s =
      let (a, b) =
        error_tests (code == ndn.error_timeout && ltb c.n_timeouts max_num_timeouts)
          (code == error_face_not_found) _ _ code (λ h. h) (missing_face_is_calm c code s) in
      let (p, q) = test_cases code ndn.error_timeout c.n_timeouts in
      ((λ h. p (a h), λ h. b (q h)), answers_is_calm c s, send_batches_is_calm _ s)
