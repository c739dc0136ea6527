-- ===== src/Pit/Lookup.antt =====
-- Lookups after each change of a record list.
use nfd_out_of_the_box.Prelude.{
  ℕ, ◌≡◌, refl, true, false, Option, none, some, List, [], ◌∷◌, ◌==◌, arith, Bool-cases, inl, inr,
  if◌then◌else◌,
}
use nfd_out_of_the_box.Pit.Records.{find_record, has_record, modify_record, insert_or_update}

abbrev pub or_else : {A : Type 0} → Option A → A → A
or_else none d = d
or_else (some a) d = a

abbrev pub map_option : {A B : Type 0} → (A → B) → Option A → Option B
map_option f none = none
map_option f (some a) = some (f a)

module _ {R : Type 0} (face_of : R → ℕ) where
  pub find_record-face :
      (f : ℕ) (rs : List R) (r : R) → find_record face_of f rs ≡ some r → face_of r ≡ f
  unfolding find_record
  find_record-face f [] r h = absurd (cc)
  find_record-face f (x ∷ rs) r h = ground (arith, find_record-face f rs r)

  -- A change that leaves the record's face alone is seen at that face only.
  pub find_record-modify_record :
      (f g : ℕ) (u : R → R) (rs : List R)
      → ((r : R) → face_of (u r) ≡ face_of r)
      → find_record face_of g (modify_record face_of f u rs)
        ≡ (if g == f then map_option u (find_record face_of g rs) else find_record face_of g rs)
  unfolding find_record modify_record
  find_record-modify_record f g u [] h = ground arith
  find_record-modify_record f g u (r ∷ rs) h =
      ground (arith, h r, find_record-modify_record f g u rs h)

  has_record-find_record :
      (f : ℕ) (rs : List R) → has_record face_of f rs ≡ false → find_record face_of f rs ≡ none
  unfolding find_record has_record
  has_record-find_record f [] h = refl
  has_record-find_record f (r ∷ rs) h = ground (arith, has_record-find_record f rs)

  has_record-true :
      (f : ℕ) (rs : List R)
      → has_record face_of f rs ≡ true
      → (r : R) × (find_record face_of f rs ≡ some r)
  unfolding find_record has_record
  has_record-true f [] h = absurd (cc)
  has_record-true f (r ∷ rs) h = elim (Bool-cases (face_of r == f)) [
    | inl e ↦ (r, rw e)
    | inr e ↦ rw e (has_record-true f rs (ground arith))
  ]

  pub find_record-insert_or_update :
      (f g : ℕ) (u : R → R) (fresh : R) (rs : List R)
      → face_of fresh ≡ f
      → ((r : R) → face_of (u r) ≡ face_of r)
      → find_record face_of g (insert_or_update face_of u fresh f rs) ≡ (
          if g == f
          then some (u (or_else (find_record face_of f rs) fresh))
          else find_record face_of g rs)
  unfolding insert_or_update
  find_record-insert_or_update f g u fresh rs e h = elim (Bool-cases (has_record face_of f rs)) [
    | inl there ↦
        ground (arith, find_record-modify_record f g u rs h, (has_record-true f rs there).1)
    | inr absent ↦ unfold find_record in ground (arith, has_record-find_record f rs absent, h fresh)
  ]
