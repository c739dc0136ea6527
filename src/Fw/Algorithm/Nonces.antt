-- ===== src/Fw/Algorithm/Nonces.antt =====
-- What the bits of `findDuplicateNonce` and the other scans of a PIT entry mean.
use nfd_out_of_the_box.Prelude.{
  ◌≤◌, Option, ℕ, ◌≡◌, ◌↔◌, refl, Bool, true, false, not, ◌&&◌, ◌||◌, some, List, [], ◌∷◌, ◌==◌,
  arith, Bool-cases, inl, inr, none,
}
use nfd_out_of_the_box.Pit.{
  Entry, InRecord, OutRecord, in_face, out_face, get_in_record, get_out_record,
}
use nfd_out_of_the_box.Pit.Records.{find_record, has_record}
use nfd_out_of_the_box.Pit.Distinct.{IsDistinct}
use nfd_out_of_the_box.Pit.Laws.{IsValid}
use nfd_out_of_the_box.Fw.Algorithm.{
  max_renewed, is_pending, has_pending_out_records, get_last_outgoing, is_duplicate, DuplicateNonce,
  duplicate_nonce_none, find_duplicate_nonce, mark_in, mark_out, any,
}

module _ {R : Type 0} (face_of nonce_of : R → ℕ) where
  abbrev pub nonce_here : ℕ → ℕ → R → Bool
  nonce_here nonce f r = nonce_of r == nonce && face_of r == f

  abbrev pub nonce_elsewhere : ℕ → ℕ → R → Bool
  nonce_elsewhere nonce f r = nonce_of r == nonce && not (face_of r == f)

  no_record :
      (nonce f : ℕ) (rs : List R)
      → has_record face_of f rs ≡ false
      → any (nonce_here nonce f) rs ≡ false
  unfolding has_record
  no_record nonce f [] h = refl
  no_record nonce f (r ∷ rs) h = ground (arith, no_record nonce f rs)

  back_cons :
      (nonce f : ℕ) (r : R) (rs : List R)
      → (face_of r == f) ≡ false
      → any (nonce_here nonce f) rs ≡ true
      → any (nonce_here nonce f) (r ∷ rs) ≡ true
  back_cons nonce f r rs other h = ground arith

  -- With one record for each face, the scan says what a lookup says.
  pub any-nonce_here :
      (nonce f : ℕ) (rs : List R)
      → IsDistinct face_of rs
      → (any (nonce_here nonce f) rs ≡ true)
        ↔ ((r : R) × (find_record face_of f rs ≡ some r) × (nonce_of r ≡ nonce))
  unfolding find_record
  any-nonce_here nonce f [] d = (λ h. absurd (cc), λ (r, h, e). absurd (cc))
  any-nonce_here nonce f (r ∷ rs) d = elim (Bool-cases (face_of r == f)) [
    | inl here ↦ rw here (
      λ h. (r, refl, ground (arith, no_record nonce f rs, no_record nonce (face_of r) rs d.0)),
      λ (x, h, e). ground arith,
    )
    | inr other ↦
        let (there, back) = any-nonce_here nonce f rs d.1 in
        (
          λ h. rw other (there (ground arith)),
          λ h. back_cons nonce f r rs other (back (rw other at h)),
        )
  ]

module _ {N : Type 0} where
  mark_in_lem :
      (nonce f : ℕ) (d : DuplicateNonce) (rs : List (InRecord N))
      → mark_in nonce f d rs ≡ record d {
        in_same = d.in_same || any (nonce_here in_face (λ r. r.last_nonce) nonce f) rs;
        in_other = d.in_other || any (nonce_elsewhere in_face (λ r. r.last_nonce) nonce f) rs;
      }
  unfolding mark_in
  mark_in_lem nonce f d [] = ground arith
  mark_in_lem nonce f d (r ∷ rs) = ground (
    arith,
    mark_in_lem nonce f d rs,
    mark_in_lem nonce f (record d { in_same = true }) rs,
    mark_in_lem nonce f (record d { in_other = true }) rs,
  )

mark_out_lem :
    (nonce f : ℕ) (d : DuplicateNonce) (rs : List OutRecord)
    → mark_out nonce f d rs ≡ record d {
      out_same = d.out_same || any (nonce_here out_face (λ r. r.last_nonce) nonce f) rs;
      out_other = d.out_other || any (nonce_elsewhere out_face (λ r. r.last_nonce) nonce f) rs;
    }
unfolding mark_out
mark_out_lem nonce f d [] = ground arith
mark_out_lem nonce f d (r ∷ rs) = ground (
  arith,
  mark_out_lem nonce f d rs,
  mark_out_lem nonce f (record d { out_same = true }) rs,
  mark_out_lem nonce f (record d { out_other = true }) rs,
)

module _ {N : Type 0} where
  find_duplicate_nonce_bits :
      (e : Entry N) (nonce f : ℕ)
      → find_duplicate_nonce e nonce f ≡ record {
        in_same = any (nonce_here in_face (λ r. r.last_nonce) nonce f) e.in_records;
        in_other = any (nonce_elsewhere in_face (λ r. r.last_nonce) nonce f) e.in_records;
        out_same = any (nonce_here out_face (λ r. r.last_nonce) nonce f) e.out_records;
        out_other = any (nonce_elsewhere out_face (λ r. r.last_nonce) nonce f) e.out_records;
      }
  unfolding find_duplicate_nonce
  find_duplicate_nonce_bits e nonce f = ground (
    arith,
    mark_in_lem nonce f duplicate_nonce_none e.in_records,
    mark_out_lem nonce f (mark_in nonce f duplicate_nonce_none e.in_records) e.out_records,
  )

  -- In a valid entry the bit DUPLICATE_NONCE_IN_SAME is set exactly when the in-record of the
  -- face has the Nonce, and DUPLICATE_NONCE_OUT_SAME exactly when its out-record has.
  pub find_duplicate_nonce_same :
      (e : Entry N) (nonce f : ℕ)
      → IsValid e
      → (((find_duplicate_nonce e nonce f).in_same ≡ true)
          ↔ ((r : InRecord N) × (get_in_record f e ≡ some r) × (r.last_nonce ≡ nonce)))
        × (((find_duplicate_nonce e nonce f).out_same ≡ true)
            ↔ ((r : OutRecord) × (get_out_record f e ≡ some r) × (r.last_nonce ≡ nonce)))
  unfolding get_in_record get_out_record
  find_duplicate_nonce_same e nonce f v = rw (find_duplicate_nonce_bits e nonce f) (
    any-nonce_here in_face (λ r. r.last_nonce) nonce f e.in_records v.ins,
    any-nonce_here out_face (λ r. r.last_nonce) nonce f e.out_records v.outs,
  )

any-split :
    {R : Type 0} (p q : R → Bool) (rs : List R)
    → any (λ r. p r && q r) rs || any (λ r. p r && not (q r)) rs ≡ any p rs
any-split p q [] = refl
any-split p q (r ∷ rs) = ground (arith, any-split p q rs)

module _ {N : Type 0} where
  -- A duplicate is found exactly when some in-record or out-record has the Nonce, of any face.
  pub is_duplicate-find_duplicate_nonce :
      (e : Entry N) (nonce f : ℕ)
      → is_duplicate (find_duplicate_nonce e nonce f)
        ≡ any (λ r. r.last_nonce == nonce) e.in_records
          || any (λ r. r.last_nonce == nonce) e.out_records
  unfolding is_duplicate
  is_duplicate-find_duplicate_nonce e nonce f = ground (
    arith,
    find_duplicate_nonce_bits e nonce f,
    any-split (λ r. r.last_nonce == nonce) (λ r. in_face r == f) e.in_records,
    any-split (λ r. r.last_nonce == nonce) (λ r. out_face r == f) e.out_records,
  )

-- The result of max_element bounds what it began with and every record.
AtLeast : Option ℕ → ℕ → Type 0
AtLeast none t = Unit {0}
AtLeast (some b) t = b ≤ t

abbrev pub AllRenewed : (ℕ → Type 0) → List OutRecord → Type 0
AllRenewed P [] = Unit {0}
AllRenewed P (r ∷ rs) = P r.last_renewed × AllRenewed P rs

max_renewed_max :
    (best : Option ℕ) (rs : List OutRecord) (t : ℕ)
    → max_renewed best rs ≡ some t
    → AtLeast best t × AllRenewed (λ x. x ≤ t) rs
unfolding max_renewed AtLeast
max_renewed_max none [] t h = absurd (cc)
max_renewed_max (some b) [] t h = (ground arith, tt)
max_renewed_max none (r ∷ rs) t h =
    let (le, all) = max_renewed_max (some r.last_renewed) rs t h in (tt, (le, all))
max_renewed_max (some b) (r ∷ rs) t h =
    let (le, all) = max_renewed_max _ rs t h in (ground arith, (ground arith, all))

max_renewed_total : (rs : List OutRecord) (b : ℕ) → (t : ℕ) × (max_renewed (some b) rs ≡ some t)
unfolding max_renewed
max_renewed_total [] b = (b, refl)
max_renewed_total (r ∷ rs) b = max_renewed_total rs _

module _ {N : Type 0} where
  -- Where an out-record is pending, `getLastOutgoing` has a result, and no out-record was
  -- renewed later: its precondition holds wherever `hasPendingOutRecords` has been tested.
  pub get_last_outgoing_max :
      (now : ℕ) (e : Entry N)
      → has_pending_out_records now e ≡ true
      → (t : ℕ) × (get_last_outgoing e ≡ some t) × AllRenewed (λ x. x ≤ t) e.out_records
  unfolding get_last_outgoing has_pending_out_records
  get_last_outgoing_max now e h = go e.out_records h
    where
      go :
          (rs : List OutRecord)
          → any (is_pending now) rs ≡ true
          → (t : ℕ) × (max_renewed none rs ≡ some t) × AllRenewed (λ x. x ≤ t) rs
      go [] h = absurd (cc)
      go (r ∷ rs) h =
          let (t, found) = max_renewed_total rs r.last_renewed in
          (t, found, (max_renewed_max none (r ∷ rs) t found).1)
