-- ===== src/Forwarder/Sendings.antt =====
-- The loop of daemon/fw/multicast-strategy.cpp finds every out-record that it asks for.
use nfd_out_of_the_box.Fw.Retx.{
  interval_or, RetxSuppressionExponential, RetxSuppressionResult, decide_per_upstream, new, forward,
  suppress,
}
use nfd_out_of_the_box.Prelude.{
  ℕ, ◌-◌, ◌≡◌, refl, ap, ◌∙◌, ◌⊎◌, inl, inr, Bool, true, not, ◌&&◌, some, List, [], ◌∷◌, arith, ltb,
  if◌then◌else◌, Bool-cases, Option-cases, ==_iff,
}
use nfd_out_of_the_box.Packet.{is_local, Interest, FaceRef}
use nfd_out_of_the_box.Pit.{
  face_record_update, out_record_update, out_face, OutRecord, Entry, insert_or_update_out_record,
  get_out_record,
}
use nfd_out_of_the_box.Pit.Records.{modify_record}
use nfd_out_of_the_box.Pit.Lookup.{find_record-insert_or_update, find_record-modify_record}
use nfd_out_of_the_box.Forwarder.{
  set_expiry_timer, has_no_hops_left, Forwarder, on_outgoing_interest, Parts,
}
use nfd_out_of_the_box.Forwarder.Strategies.{
  is_eligible, is_suppressed, increment_at, increment_if_forward, after_receive_interest_multicast,
  give_no_route, multicast, try_next_hop, after_send,
}
use nfd_out_of_the_box.Fw.Algorithm.{has_pending_out_records, NextHop}
use nfd_out_of_the_box.Forwarder.Interests.{run_action, run_actions}

abbrev pub HasOutRecord : {N : Type 0} → FaceRef → Entry N → Type 0
HasOutRecord f e = (r : OutRecord) × (get_out_record f e ≡ some r)

-- What FORWARD promises of the entry that the decision leaves.
abbrev pub IsKnown : {N : Type 0} → FaceRef → RetxSuppressionResult × Entry N → Type 0
IsKnown f (forward, e) = HasOutRecord f e
IsKnown f (new, e) = Unit {0}
IsKnown f (suppress, e) = Unit {0}

if_true : {A : Type 0} {u : A} (v : A) {b : Bool} → b ≡ true → (if b then u else v) ≡ u
if_true v h = ground arith

module _ {N : Type 0} where
  get_out_record-modify :
      (f : FaceRef) (u : OutRecord → OutRecord) (e : Entry N)
      → ((r : OutRecord) → out_face (u r) ≡ out_face r)
      → HasOutRecord f e
      → HasOutRecord f (record e { out_records = modify_record out_face f u e.out_records })
  unfolding get_out_record
  get_out_record-modify f u e k (r, h) =
      (u r, ground (arith, find_record-modify_record out_face f f u e.out_records k))

  decide_per_upstream-IsKnown :
      (x : RetxSuppressionExponential) (now : ℕ) (e : Entry N) (f : FaceRef)
      → IsKnown f (decide_per_upstream x now e f)
  unfolding decide_per_upstream
  decide_per_upstream-IsKnown x now e f = elim (Option-cases (get_out_record f e)) [
    | inl absent ↦ rw (absent, decide_per_upstream, IsKnown) tt
    | inr (r, h) ↦
        rw (h, decide_per_upstream, IsKnown)
          (elim (Bool-cases
            (ltb (now - r.last_renewed) (interval_or x.initial_interval r.suppression_interval))) [
              | inl early ↦ rw (early, IsKnown) tt
              | inr late ↦ rw (late, IsKnown) (get_out_record-modify f _ e (λ q. refl) (r, h))
            ])
  ]

  insert_or_update_out_record-HasOutRecord :
      (now : ℕ) (f : FaceRef) (i : Interest N) (e : Entry N)
      → HasOutRecord f (insert_or_update_out_record now f i e)
  unfolding insert_or_update_out_record get_out_record out_record_update face_record_update
  insert_or_update_out_record-HasOutRecord now f i e = (
    _,
    find_record-insert_or_update out_face f f _ _ e.out_records refl (λ r. refl)
        ∙ if_true _ ((==_iff f f).1 refl),
  )

module _ {N : Type 0} {C : Type 0} (x : Parts N C) where
  on_outgoing_interest-HasOutRecord :
      (now : ℕ) (f : FaceRef) (i : Interest N) (e : Entry N) (s : Forwarder N C)
      → HasOutRecord f e
      → HasOutRecord f (on_outgoing_interest x now f i e s).0
  unfolding on_outgoing_interest
  on_outgoing_interest-HasOutRecord now f i e s known =
      elim (Bool-cases (has_no_hops_left x i && not (is_local (x.faces f).scope))) [
        | inl dropped ↦ rw dropped known
        | inr sent ↦ rw sent (insert_or_update_out_record-HasOutRecord now f i e)
      ]

  after_send-total :
      (r : RetxSuppressionExponential) (res : RetxSuppressionResult) (f : FaceRef)
      (s : Entry N × Forwarder N C)
      → IsKnown f (res, s.0)
      → (u : Entry N × Forwarder N C) × (after_send x r res f s ≡ some u)
  unfolding after_send increment_if_forward increment_at
  after_send-total r new f (e, s) known = (_, refl)
  after_send-total r suppress f (e, s) known = (_, refl)
  after_send-total r forward f (e, s) (q, h) = rw (h, after_send) (_, refl)

  on_outgoing_interest-IsKnown :
      (now : ℕ) (f : FaceRef) (i : Interest N) (res : RetxSuppressionResult) (e : Entry N)
      (s : Forwarder N C)
      → IsKnown f (res, e)
      → IsKnown f (res, (on_outgoing_interest x now f i e s).0)
  on_outgoing_interest-IsKnown now f i new e s known = tt
  on_outgoing_interest-IsKnown now f i suppress e s known = tt
  on_outgoing_interest-IsKnown now f i forward e s known =
      on_outgoing_interest-HasOutRecord now f i e s known

  try_next_hop-total :
      (now : ℕ) (ingress : FaceRef) (i : Interest N) (r : RetxSuppressionExponential) (h : NextHop)
      (s : Forwarder N C) (p : RetxSuppressionResult × Entry N)
      → IsKnown (h.face) p
      → (u : Entry N × Forwarder N C) × (try_next_hop x now ingress i r h s p ≡ some u)
  unfolding try_next_hop
  try_next_hop-total now ingress i r h s (res, e) known = elim (Bool-cases (is_suppressed res)) [
    | inl suppressed ↦ (_, if_true _ suppressed)
    | inr passed ↦ rw passed (elim (Bool-cases (is_eligible x ingress i e h)) [
      | inl good ↦ rw good (
          after_send-total r res h.face _ (on_outgoing_interest-IsKnown now h.face i res e s known))
      | inr bad ↦ rw bad (_, refl)
    ])
  ]

  multicast-total :
      (now : ℕ) (ingress : FaceRef) (i : Interest N) (r : RetxSuppressionExponential)
      (hs : List NextHop) (s : Entry N × Forwarder N C)
      → (u : Entry N × Forwarder N C) × (multicast x now ingress i r hs s ≡ some u)
  unfolding multicast
  multicast-total now ingress i r [] s = (s, refl)
  multicast-total now ingress i r (h ∷ hs) (e, f) =
      let step =
        try_next_hop-total now ingress i r h f _ (decide_per_upstream-IsKnown r now e h.face) in
      rw (step.1, multicast) (multicast-total now ingress i r hs step.0)

  give_no_route-rejected :
      (now : ℕ) (ingress : FaceRef) (i : Interest N) (e : Entry N) (f : Forwarder N C)
      → (give_no_route x now ingress i (e, f)).0.expiry_timer ≡ some now
  unfolding give_no_route run_actions run_action set_expiry_timer
  give_no_route-rejected now ingress i e f = ap some (omega arith)

  -- The multicast strategy never follows an end iterator to an out-record, and does not leave an
  -- Interest with nothing to wait for: afterwards the PIT entry has a pending out-record, or its
  -- expiry timer is set to the present, which rejects it.
  pub after_receive_interest_multicast-waits :
      (now : ℕ) (ingress : FaceRef) (i : Interest N) (r : RetxSuppressionExponential)
      (hs : List NextHop) (s : Entry N × Forwarder N C)
      → (e : Entry N) × (f : Forwarder N C) × (after_receive_interest_multicast x now ingress i r hs
            s
          ≡ some (e, f))
        × ((has_pending_out_records now e ≡ true) ⊎ (e.expiry_timer ≡ some now))
  unfolding after_receive_interest_multicast
  after_receive_interest_multicast-waits now ingress i r hs s =
      let done = multicast-total now ingress i r hs s in
      rw (done.1, after_receive_interest_multicast)
        (elim (Bool-cases (has_pending_out_records now (done.0).0)) [
          | inl waits ↦ ((done.0).0, (done.0).1, rw waits refl, inl waits)
          | inr empty ↦
              let rejected = give_no_route x now ingress i ((done.0).0, (done.0).1) in
              (
                rejected.0,
                rejected.1,
                rw empty refl,
                inr (give_no_route-rejected now ingress i (done.0).0 (done.0).1),
              )
        ])
