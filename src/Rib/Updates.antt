-- ===== src/Rib/Updates.antt =====
-- The lists of updates that daemon/rib/fib-updater.cpp computes for a batch: what goes to the batch's face
-- stays apart from the rest, and each name and face has one update.
use nfd_out_of_the_box.Prelude.{
  ℕ, ◌≡◌, refl, subst, inl, inr, Bool, true, false, ◌||◌, some, List, [], ◌∷◌, arith, ◌==◌,
  Bool-cases,
}
use nfd_out_of_the_box.Rib.{RibUpdate, RibEntry, FibUpdate, Ndn}
use nfd_out_of_the_box.Rib.Updater.{is_update_for, add_fib_update, replace_or_push, FibUpdater}
use nfd_out_of_the_box.Rib.Changes.{compute_updates, start_batch}
use nfd_out_of_the_box.Rib.Keeping.{compute_updates-Keeps, Keeps}

module _ {N : Type 0} (ndn : Ndn N) where
  unfoldable pub has_update : N → ℕ → List (FibUpdate N) → Bool
  has_update n f [] = false
  has_update n f (u ∷ us) = is_update_for ndn n f u || has_update n f us

  abbrev pub IsDistinct : List (FibUpdate N) → Type 0
  IsDistinct [] = Unit {0}
  IsDistinct (u ∷ us) = (has_update u.name u.face_id us ≡ false) × IsDistinct us

  -- All updates are for the face, or none is, as the Bool says.
  abbrev pub IsOnFace : Bool → ℕ → List (FibUpdate N) → Type 0
  IsOnFace b f [] = Unit {0}
  IsOnFace b f (u ∷ us) = ((u.face_id == f) ≡ b) × IsOnFace b f us

  abbrev pub IsPartitioned : ℕ → FibUpdater N → Type 0
  IsPartitioned f x =
      (x.batch_face_id ≡ f)
      × IsDistinct x.updates_for_batch_face_id
      × IsOnFace true f x.updates_for_batch_face_id
      × IsDistinct x.updates_for_non_batch_face_id
      × IsOnFace false f x.updates_for_non_batch_face_id

  has_update-replace_or_push :
      (n : N) (f : ℕ) (u : FibUpdate N) (os : List (FibUpdate N))
      → is_update_for ndn n f u ≡ false
      → has_update n f os ≡ false
      → has_update n f (replace_or_push ndn u os) ≡ false
  unfolding has_update replace_or_push
  has_update-replace_or_push n f u [] h g = rw h refl
  has_update-replace_or_push n f u (o ∷ os) h g =
      ground (arith, has_update-replace_or_push n f u os h)

  replace_or_push-IsDistinct :
      ((a b : N) → ndn.same a b ≡ ndn.same b a)
      → (u : FibUpdate N) (os : List (FibUpdate N)) → IsDistinct os
      → IsDistinct (replace_or_push ndn u os)
  unfolding has_update replace_or_push
  replace_or_push-IsDistinct symmetric u [] d = (refl, tt)
  replace_or_push-IsDistinct symmetric u (o ∷ os) d = ground (
    arith,
    symmetric u.name o.name,
    has_update-replace_or_push o.name o.face_id u os,
    replace_or_push-IsDistinct symmetric u os d.1,
  )

  replace_or_push-IsOnFace :
      (b : Bool) (f : ℕ) (u : FibUpdate N) (os : List (FibUpdate N))
      → (u.face_id == f) ≡ b
      → IsOnFace b f os
      → IsOnFace b f (replace_or_push ndn u os)
  unfolding replace_or_push
  replace_or_push-IsOnFace b f u [] h d = (h, tt)
  replace_or_push-IsOnFace b f u (o ∷ os) h d =
      ground (arith, replace_or_push-IsOnFace b f u os h d.1)

  add_fib_update-IsPartitioned :
      ((a b : N) → ndn.same a b ≡ ndn.same b a)
      → (f : ℕ) (u : FibUpdate N) (x : FibUpdater N) → IsPartitioned f x
      → IsPartitioned f (add_fib_update ndn u x)
  unfolding add_fib_update
  add_fib_update-IsPartitioned symmetric f u x p =
      elim (Bool-cases (u.face_id == x.batch_face_id)) [
        | inl h ↦
            rw (add_fib_update, h)
              (
                p.0,
                replace_or_push-IsDistinct symmetric u _ p.1,
                replace_or_push-IsOnFace true f u _ (subst (λ g. (u.face_id == g) ≡ true) p.0 h)
                    p.2,
                p.3,
                p.4,
              )
        | inr h ↦
            rw (add_fib_update, h)
              (
                p.0,
                p.1,
                p.2,
                replace_or_push-IsDistinct symmetric u _ p.3,
                replace_or_push-IsOnFace false f u _ (subst (λ g. (u.face_id == g) ≡ false) p.0 h)
                    p.4,
              )
      ]

  -- A batch of updates of the RIB for one face gives, unless the code dereferences a null pointer, two
  -- lists of updates of the FIB in which no two are for the same name and face. The first has updates for
  -- the face of the batch only, the second for other faces only. Names are compared symmetrically.
  pub compute_updates-IsPartitioned :
      ((a b : N) → ndn.same a b ≡ ndn.same b a)
      → (t : List (RibEntry N)) (f : ℕ) (us : List (RibUpdate N)) {x : FibUpdater N}
      → compute_updates ndn t us (start_batch ndn f) ≡ some x
      → IsPartitioned f x
  unfolding start_batch
  compute_updates-IsPartitioned symmetric t f us h =
      subst (Keeps ndn (IsPartitioned f) (add_fib_update-IsPartitioned symmetric f) (λ us x p. p)) h
        (compute_updates-Keeps ndn (IsPartitioned f) (add_fib_update-IsPartitioned symmetric f)
          (λ us x p. p) (λ x p. (p.0, tt, tt, p.3, p.4)) t us _ (refl, tt, tt, tt, tt))
