-- ===== src/Forwarder/Expiry.antt =====
-- The expiry timer of a pending Interest.
use nfd_out_of_the_box.Packet.{Interest}
use nfd_out_of_the_box.Pit.{
  Entry, InRecord, in_face, in_record_update, face_record_update, insert_or_update_in_record,
}
use nfd_out_of_the_box.Pit.Records.{insert_or_update, modify_record, has_record}
use nfd_out_of_the_box.Forwarder.{set_expiry_timer, Parts}
use nfd_out_of_the_box.Forwarder.Interests.{note_interest, last_expiring}
use nfd_out_of_the_box.Prelude.{
  length, ℕ, ◌+◌, ◌≤◌, ◌<◌, max, ◌≡◌, refl, inl, inr, true, some, List, [], ◌∷◌, arith, ◌==◌,
  Bool-cases, sym, subst, ◌⊎◌, ltb,
}

module _ {N : Type 0} where
  abbrev pub AllExpire : ℕ → List (InRecord N) → Type 0
  AllExpire t [] = Unit {0}
  AllExpire t (r ∷ rs) = (r.expiry ≤ t) × AllExpire t rs

  -- One of the records expires at the time.
  abbrev pub SomeExpires : ℕ → List (InRecord N) → Type 0
  SomeExpires t [] = ⊥
  SomeExpires t (r ∷ rs) = (r.expiry ≡ t) ⊎ SomeExpires t rs

  AllExpire-mono : (t u : ℕ) (rs : List (InRecord N)) → t ≤ u → AllExpire t rs → AllExpire u rs
  AllExpire-mono t u [] le all = tt
  AllExpire-mono t u (r ∷ rs) le all = (omega arith, AllExpire-mono t u rs le all.1)

module _ {N : Type 0} {C : Type 0} (x : Parts N C) where
  last_expiring-AllExpire : (rs : List (InRecord N)) → AllExpire (last_expiring x rs) rs
  unfolding last_expiring
  last_expiring-AllExpire [] = tt
  last_expiring-AllExpire (r ∷ rs) = (
    omega arith,
    AllExpire-mono (last_expiring x rs) (max r.expiry (last_expiring x rs)) rs (omega arith)
        (last_expiring-AllExpire rs),
  )

  last_expiring-SomeExpires :
      (r : InRecord N) (rs : List (InRecord N)) → SomeExpires (last_expiring x (r ∷ rs)) (r ∷ rs)
  unfolding last_expiring
  last_expiring-SomeExpires r [] = inl (omega arith)
  last_expiring-SomeExpires r (q ∷ rs) =
      elim (Bool-cases (ltb r.expiry (last_expiring x (q ∷ rs)))) [
        | inl later ↦
            let e : max r.expiry (last_expiring x (q ∷ rs)) ≡ last_expiring x (q ∷ rs) =
              ground arith in
            inr (subst (λ t. SomeExpires t (q ∷ rs)) (sym e) (last_expiring-SomeExpires q rs))
        | inr here ↦ inl (ground arith)
      ]

  some_expires : (rs : List (InRecord N)) → 0 < length rs → SomeExpires (last_expiring x rs) rs
  some_expires [] h = absurd (omega arith)
  some_expires (r ∷ rs) h = last_expiring-SomeExpires r rs

  modified_some :
      (f : ℕ) (u : InRecord N → InRecord N) (rs : List (InRecord N))
      → has_record in_face f rs ≡ true
      → 0 < length (modify_record in_face f u rs)
  unfolding has_record modify_record
  modified_some f u [] h = absurd (cc)
  modified_some f u (r ∷ rs) h = elim (Bool-cases (r.face == f)) [
    | inl here ↦ rw (here, modify_record) (omega arith)
    | inr other ↦ rw (other, modify_record) (omega arith)
  ]

  noted_some :
      (now f : ℕ) (i : Interest N) (e : Entry N)
      → 0 < length (insert_or_update_in_record now f i e).in_records
  unfolding insert_or_update_in_record insert_or_update
  noted_some now f i e = elim (Bool-cases (has_record in_face f e.in_records)) [
    | inl there ↦ rw (there, insert_or_update) (modified_some f _ e.in_records there)
    | inr absent ↦ rw (absent, insert_or_update) (omega arith)
  ]

  modified_expiring :
      (now f : ℕ) (i : Interest N) (rs : List (InRecord N))
      → has_record in_face f rs ≡ true
      → now ≤ last_expiring x (modify_record in_face f (in_record_update now i) rs)
  unfolding last_expiring has_record modify_record in_record_update face_record_update
  modified_expiring now f i [] h = absurd (cc)
  modified_expiring now f i (r ∷ rs) h = elim (Bool-cases (r.face == f)) [
    | inl here ↦ rw (here, modify_record) (omega arith)
    | inr other ↦
        let later = modified_expiring now f i rs (rw other at h) in
        rw (other, modify_record) (omega arith)
  ]

  noted_expiring :
      (now f : ℕ) (i : Interest N) (e : Entry N)
      → now ≤ last_expiring x (insert_or_update_in_record now f i e).in_records
  unfolding insert_or_update_in_record insert_or_update
  noted_expiring now f i e = elim (Bool-cases (has_record in_face f e.in_records)) [
    | inl there ↦ rw (there, insert_or_update) (modified_expiring now f i e.in_records there)
    | inr absent ↦
        rw (absent, insert_or_update)
          (unfold last_expiring in_record_update face_record_update in omega arith)
  ]

  -- A pending Interest that is recorded arms the expiry timer of its PIT entry: it fires no earlier
  -- than now, no later than the last in-record expires, and less than a millisecond before that.
  -- The last expiry is that of an in-record, and no in-record expires later.
  pub note_interest-expiry :
      (now f : ℕ) (i : Interest N) (e : Entry N)
      → (t : ℕ) × (last : ℕ) × ((note_interest x now f i e).expiry_timer ≡ some t)
        × (now ≤ t)
        × (t ≤ last)
        × (last < t + 1000000)
        × SomeExpires last (note_interest x now f i e).in_records
        × AllExpire last (note_interest x now f i e).in_records
  unfolding note_interest set_expiry_timer
  note_interest-expiry now f i e =
      let noted = noted_expiring now f i e in
      let last : ℕ = last_expiring x (insert_or_update_in_record now f i e).in_records in
      (
        _,
        last,
        refl,
        omega arith,
        omega arith,
        omega arith,
        some_expires (insert_or_update_in_record now f i e).in_records (noted_some now f i e),
        last_expiring-AllExpire (insert_or_update_in_record now f i e).in_records,
      )
