-- ===== src/Pit/Distinct.antt =====
-- One record for each face: every change of a record list keeps the faces distinct, and after
-- `delete_record` the face has no record.
use nfd_out_of_the_box.Prelude.{
  ℕ, ◌≡◌, refl, false, none, List, [], ◌∷◌, ◌==◌, arith, if◌then◌else◌,
}
use nfd_out_of_the_box.Pit.Records.{
  find_record, has_record, modify_record, delete_record, insert_or_update,
}

module _ {R : Type 0} (face_of : R → ℕ) where
  abbrev pub IsDistinct : List R → Type 0
  IsDistinct [] = Unit {0}
  IsDistinct (r ∷ rs) = (has_record face_of (face_of r) rs ≡ false) × IsDistinct rs

  has_record-modify_record :
      (f g : ℕ) (u : R → R) (rs : List R)
      → ((r : R) → face_of (u r) ≡ face_of r)
      → has_record face_of g (modify_record face_of f u rs) ≡ has_record face_of g rs
  unfolding has_record modify_record
  has_record-modify_record f g u [] h = refl
  has_record-modify_record f g u (r ∷ rs) h =
      ground (arith, h r, has_record-modify_record f g u rs h)

  pub modify_record-IsDistinct :
      (f : ℕ) (u : R → R) (rs : List R)
      → ((r : R) → face_of (u r) ≡ face_of r)
      → IsDistinct rs
      → IsDistinct (modify_record face_of f u rs)
  unfolding modify_record
  modify_record-IsDistinct f u [] h d = tt
  modify_record-IsDistinct f u (r ∷ rs) h d = ground (
    arith,
    h r,
    modify_record-IsDistinct f u rs h d.1,
    has_record-modify_record f (face_of r) u rs h,
  )

  pub insert_or_update-IsDistinct :
      (f : ℕ) (u : R → R) (fresh : R) (rs : List R)
      → face_of fresh ≡ f
      → ((r : R) → face_of (u r) ≡ face_of r)
      → IsDistinct rs
      → IsDistinct (insert_or_update face_of u fresh f rs)
  unfolding insert_or_update
  insert_or_update-IsDistinct f u fresh rs e h d =
      ground (arith, h fresh, modify_record-IsDistinct f u rs h d)

  has_record-delete_record :
      (f g : ℕ) (rs : List R)
      → has_record face_of g rs ≡ false
      → has_record face_of g (delete_record face_of f rs) ≡ false
  unfolding has_record delete_record
  has_record-delete_record f g [] h = refl
  has_record-delete_record f g (r ∷ rs) h = ground (arith, has_record-delete_record f g rs)

  pub delete_record-IsDistinct :
      (f : ℕ) (rs : List R) → IsDistinct rs → IsDistinct (delete_record face_of f rs)
  unfolding delete_record
  delete_record-IsDistinct f [] d = tt
  delete_record-IsDistinct f (r ∷ rs) d =
      ground
        (arith, delete_record-IsDistinct f rs d.1, has_record-delete_record f (face_of r) rs d.0)

  absent : (f : ℕ) (rs : List R) → has_record face_of f rs ≡ false → find_record face_of f rs ≡ none
  unfolding find_record has_record
  absent f [] h = refl
  absent f (r ∷ rs) h = ground (arith, absent f rs)

  -- `find_if` sees one record of a face, and `erase` takes one away: with distinct faces that
  -- is all of them.
  pub find_record-delete_record :
      (f g : ℕ) (rs : List R)
      → IsDistinct rs
      → find_record face_of g (delete_record face_of f rs)
        ≡ (if g == f then none else find_record face_of g rs)
  unfolding find_record delete_record
  find_record-delete_record f g [] d = ground arith
  find_record-delete_record f g (r ∷ rs) d =
      ground (arith, find_record-delete_record f g rs d.1, absent (face_of r) rs d.0)
