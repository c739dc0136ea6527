-- ===== src/Cs/Keys.antt =====
-- Keyed lists with distinct keys: deletions and additions.
use nfd_out_of_the_box.Pit.Records.{has_record, modify_record, delete_record}
use nfd_out_of_the_box.Pit.Distinct.{IsDistinct}
use nfd_out_of_the_box.Prelude.{
  length, ℕ, suc, ◌≡◌, refl, inl, inr, true, false, not, ◌&&◌, ◌||◌, List, [], ◌∷◌, ◌++◌, arith,
  ◌==◌, Bool-cases,
}

module _ {R : Type 0} (key : R → ℕ) where
  pub has_record-delete_record :
      (f g : ℕ) (rs : List R)
      → IsDistinct key rs
      → has_record key g (delete_record key f rs) ≡ not (g == f) && has_record key g rs
  unfolding has_record delete_record
  has_record-delete_record f g [] d = ground arith
  has_record-delete_record f g (r ∷ rs) d = elim (Bool-cases (key r == f)) [
    | inl here ↦ let e : key r ≡ f = ground arith in ground arith
    | inr other ↦ ground (arith, has_record-delete_record f g rs d.1)
  ]

  pub length-delete_record :
      (f : ℕ) (rs : List R)
      → has_record key f rs ≡ true
      → suc (length (delete_record key f rs)) ≡ length rs
  unfolding has_record delete_record
  length-delete_record f [] h = absurd (cc)
  length-delete_record f (r ∷ rs) h = ground (arith, length-delete_record f rs)

  pub length-modify_record :
      (f : ℕ) (u : R → R) (rs : List R) → length (modify_record key f u rs) ≡ length rs
  unfolding modify_record
  length-modify_record f u [] = refl
  length-modify_record f u (r ∷ rs) = ground (arith, length-modify_record f u rs)

  pub has_record-modified :
      (f g : ℕ) (u : R → R) (rs : List R)
      → ((r : R) → key (u r) ≡ key r)
      → has_record key g (modify_record key f u rs) ≡ has_record key g rs
  unfolding has_record modify_record
  has_record-modified f g u [] h = refl
  has_record-modified f g u (r ∷ rs) h = ground (arith, h r, has_record-modified f g u rs h)

  pub has_record-snoc :
      (g : ℕ) (r : R) (rs : List R)
      → has_record key g (rs ++ r ∷ []) ≡ has_record key g rs || key r == g
  unfolding has_record
  has_record-snoc g r [] = ground arith
  has_record-snoc g r (s ∷ rs) = ground (arith, has_record-snoc g r rs)

  pub snoc-IsDistinct :
      (r : R) (rs : List R)
      → has_record key (key r) rs ≡ false
      → IsDistinct key rs
      → IsDistinct key (rs ++ r ∷ [])
  unfolding has_record
  snoc-IsDistinct r [] new d = (refl, tt)
  snoc-IsDistinct r (s ∷ rs) new d =
      (ground (arith, has_record-snoc (key s) r rs), snoc-IsDistinct r rs (ground arith) d.1)
