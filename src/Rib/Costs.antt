-- ===== src/Rib/Costs.antt =====
-- The cheapest routes of a face, of daemon/rib/rib-entry.cpp.
use nfd_out_of_the_box.Prelude.{
  ℕ, ◌≤◌, ◌<◌, ◌≡◌, refl, sym, ap, ◌∙◌, subst, ◌≢◌, ◌⊎◌, inl, inr, Bool, true, false, ◌&&◌, Option,
  none, some, List, [], ◌∷◌, arith, ltb, ◌==◌, Bool-cases,
}
use nfd_out_of_the_box.Rib.{
  is_child_inherit, RibEntry, get_route_with_lowest_cost_and_child_inherit_by_face_id,
  get_route_with_lowest_cost_by_face_id, Ndn, lowest_from, Route,
}

abbrev pub IsIn : Route → List Route → Type 0
IsIn l [] = ⊥
IsIn l (r ∷ rs) = (l ≡ r) ⊎ IsIn l rs

-- No route that passes the test is cheaper than `c`.
abbrev pub IsLowerBound : (Route → Bool) → ℕ → List Route → Type 0
IsLowerBound p c [] = Unit {0}
IsLowerBound p c (r ∷ rs) = ((p r ≡ false) ⊎ (c ≤ r.cost)) × IsLowerBound p c rs

abbrev pub HasNone : (Route → Bool) → List Route → Type 0
HasNone p [] = Unit {0}
HasNone p (r ∷ rs) = (p r ≡ false) × HasNone p rs

abbrev pub IsLowest : (Route → Bool) → List Route → Route → Type 0
IsLowest p rs l = IsIn l rs × (p l ≡ true) × IsLowerBound p l.cost rs

differ : true ≢ false
differ h = ground arith

IsIn-tail :
    (p : Route → Bool) (l r : Route) (rs : List Route)
    → p r ≡ true
    → (l ≡ r) ⊎ (IsIn l rs × (p l ≡ true))
    → IsIn l (r ∷ rs) × (p l ≡ true)
IsIn-tail p l r rs h (inl e) = (inl e, ap p e ∙ h)
IsIn-tail p l r rs h (inr (i, q)) = (inr i, q)

IsIn-longer :
    (p : Route → Bool) (l c r : Route) (rs : List Route)
    → (l ≡ c) ⊎ (IsIn l rs × (p l ≡ true))
    → (l ≡ c) ⊎ (IsIn l (r ∷ rs) × (p l ≡ true))
IsIn-longer p l c r rs (inl e) = inl e
IsIn-longer p l c r rs (inr (i, q)) = inr (inr i, q)

not_cheaper : (a : Bool) (x c l : ℕ) → a && ltb x c ≡ false → l ≤ c → (a ≡ false) ⊎ (l ≤ x)
not_cheaper a x c l h g = ground arith

cheaper : (a : Bool) (x c : ℕ) → a && ltb x c ≡ true → (a ≡ true) × (x < c)
cheaper a x c h = ground arith

lowest_from-some :
    (p : Route → Bool) (c : Route) (rs : List Route)
    → (l : Route) × (lowest_from p (some c) rs ≡ some l)
      × ((l ≡ c) ⊎ (IsIn l rs × (p l ≡ true)))
      × (l.cost ≤ c.cost)
      × IsLowerBound p l.cost rs
unfolding lowest_from
lowest_from-some p c [] = (c, refl, inl refl, omega arith, tt)
lowest_from-some p c (r ∷ rs) = elim (Bool-cases (p r && ltb r.cost c.cost)) [
  | inl h ↦
      let (l, e, w, g, b) = lowest_from-some p r rs in
      let (pr, lt) = cheaper (p r) r.cost c.cost h in
      (l, rw h e, inr (IsIn-tail p l r rs pr w), omega (arith, g, lt), (inr g, b))
  | inr h ↦
      let (l, e, w, g, b) = lowest_from-some p c rs in
      (l, rw h e, IsIn-longer p l c r rs w, g, (not_cheaper (p r) r.cost c.cost l.cost h g, b))
]

pub lowest_from_lem :
    (p : Route → Bool) (rs : List Route)
    → ((lowest_from p none rs ≡ none) × HasNone p rs)
      ⊎ ((l : Route) × (lowest_from p none rs ≡ some l) × IsLowest p rs l)
unfolding lowest_from
lowest_from_lem p [] = inl (refl, tt)
lowest_from_lem p (r ∷ rs) = elim (Bool-cases (p r)) [
  | inl h ↦
      let (l, e, w, g, b) = lowest_from-some p r rs in
      let (i, q) = IsIn-tail p l r rs h w in inr (l, rw h e, (i, q, (inr g, b)))
  | inr h ↦ elim (lowest_from_lem p rs) [
    | inl (e, n) ↦ inl (rw h e, (h, n))
    | inr (l, e, (i, q, b)) ↦ inr (l, rw h e, (inr i, q, (inl h, b)))
  ]
]

-- A route of the list that passes the test bounds the cheapest.
pub lowest_bound :
    (p : Route → Bool) (c : ℕ) (y : Route) (rs : List Route)
    → IsIn y rs
    → p y ≡ true
    → IsLowerBound p c rs
    → c ≤ y.cost
lowest_bound p c y [] i h b = absurd i
lowest_bound p c y (r ∷ rs) (inl e) h (inl n, b) = absurd (differ (sym h ∙ (ap p e ∙ n)))
lowest_bound p c y (r ∷ rs) (inl e) h (inr n, b) = subst (λ (z : Route). c ≤ z.cost) (sym e) n
lowest_bound p c y (r ∷ rs) (inr i) h (n, b) = lowest_bound p c y rs i h b

pub has_none :
    (p : Route → Bool) (y : Route) (rs : List Route) → IsIn y rs → p y ≡ true → ¬ HasNone p rs
has_none p y [] i h n = absurd i
has_none p y (r ∷ rs) (inl e) h n = differ (sym h ∙ (ap p e ∙ n.0))
has_none p y (r ∷ rs) (inr i) h n = has_none p y rs i h n.1

pub none_lowest : (p : Route → Bool) (rs : List Route) → HasNone p rs → lowest_from p none rs ≡ none
none_lowest p rs n = elim (lowest_from_lem p rs) [
  | inl (e, _) ↦ e
  | inr (l, e, (i, q, b)) ↦ absurd (has_none p l rs i q n)
]

-- What the searches promise: none when no route passes the test, and otherwise one of the routes that
-- pass it, which none of the others undercuts.
abbrev pub IsCheapest : (Route → Bool) → List Route → Option Route → Type 0
IsCheapest p rs none = HasNone p rs
IsCheapest p rs (some l) = IsLowest p rs l

cheapest : (p : Route → Bool) (rs : List Route) → IsCheapest p rs (lowest_from p none rs)
cheapest p rs = elim (lowest_from_lem p rs) [ inl (e, n) ↦ rw e n | inr (l, e, b) ↦ rw e b ]

module _ {N : Type 0} (ndn : Ndn N) where
  -- Both searches for the cheapest route of a face find none when the entry has no such route, and
  -- otherwise a route of the entry, on the face, that no other such route undercuts. The second search counts the
  -- routes with the CHILD_INHERIT flag only.
  pub get_route_with_lowest_cost-IsCheapest :
      (f : ℕ) (e : RibEntry N)
      → IsCheapest (λ r. r.face_id == f) e.routes (get_route_with_lowest_cost_by_face_id f e)
        × IsCheapest
            (λ r. r.face_id == f && is_child_inherit ndn r)
            e.routes
            (get_route_with_lowest_cost_and_child_inherit_by_face_id ndn f e)
  unfolding get_route_with_lowest_cost_by_face_id
      get_route_with_lowest_cost_and_child_inherit_by_face_id
  get_route_with_lowest_cost-IsCheapest f e = (cheapest _ e.routes, cheapest _ e.routes)
