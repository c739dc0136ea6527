-- ===== src/Pit/Records.antt =====
-- The find_if, emplace_front and erase on the record lists of a PIT entry, once for both lists.
-- `face_of` is `getFace()`, compared by address.
use nfd_out_of_the_box.Prelude.{
  ℕ, Bool, false, Option, none, some, List, [], ◌∷◌, ◌==◌, ◌||◌, if◌then◌else◌,
}

module _ {R : Type 0} (face_of : R → ℕ) where
  unfoldable pub find_record : ℕ → List R → Option R
  find_record f [] = none
  find_record f (r ∷ rs) = if face_of r == f then some r else find_record f rs

  unfoldable pub has_record : ℕ → List R → Bool
  has_record f [] = false
  has_record f (r ∷ rs) = face_of r == f || has_record f rs

  -- A write through the iterator of the first record of the face.
  unfoldable pub modify_record : ℕ → (R → R) → List R → List R
  modify_record f u [] = []
  modify_record f u (r ∷ rs) = if face_of r == f then u r ∷ rs else r ∷ modify_record f u rs

  unfoldable pub delete_record : ℕ → List R → List R
  delete_record f [] = []
  delete_record f (r ∷ rs) = if face_of r == f then rs else r ∷ delete_record f rs

  unfoldable pub insert_or_update : (R → R) → R → ℕ → List R → List R
  insert_or_update u fresh f rs = if has_record f rs then modify_record f u rs else u fresh ∷ rs
