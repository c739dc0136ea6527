-- ===== src/Rib/Lookup.antt =====
-- What Rib::find of daemon/rib/rib.cpp gives after a change of the table, whatever the links between the
-- entries.
use nfd_out_of_the_box.Prelude.{
  ◌≡◌, refl, sym, ap, ◌∙◌, ◌≢◌, ◌↔◌, ◌⊎◌, inl, inr, Bool, true, false, Option, none, some, List, [],
  ◌∷◌, arith, if◌then◌else◌, Bool-cases,
}
use nfd_out_of_the_box.Rib.{find_route_in, RibEntry, find_route, Route, Ndn}
use nfd_out_of_the_box.Rib.Table.{
  route_of, is_same_parent, find_in_table, put_in_table, move_children, adopt, unlink_from_parent,
  link_to_parent, remove_child, add_child, modify_entry, find_in_rib,
}

pub differ : true ≢ false
differ h = ground arith

module _ {N : Type 0} (ndn : Ndn N) where
  -- The entries without their links.
  abbrev pub keys : List (RibEntry N) → List (N × List Route)
  keys [] = []
  keys (e ∷ t) = (e.name, e.routes) ∷ keys t

  keys-modify_entry :
      (n : N) (u : RibEntry N → RibEntry N) (t : List (RibEntry N))
      → ((x : RibEntry N) → (u x).name ≡ x.name)
      → ((x : RibEntry N) → (u x).routes ≡ x.routes)
      → keys (modify_entry ndn n u t) ≡ keys t
  unfolding modify_entry
  keys-modify_entry n u [] named same_routes = refl
  keys-modify_entry n u (e ∷ t) named same_routes = elim (Bool-cases (ndn.same e.name n)) [
    | inl h ↦ rw h (rw (named e, same_routes e) refl)
    | inr h ↦ rw h (ap (λ z. (e.name, e.routes) ∷ z) (keys-modify_entry n u t named same_routes))
  ]

  keys-add_child : (p c : N) (t : List (RibEntry N)) → keys (add_child ndn p c t) ≡ keys t
  unfolding add_child
  keys-add_child p c t =
      keys-modify_entry p _ _ (λ x. refl) (λ x. refl)
      ∙ keys-modify_entry c _ t (λ x. refl) (λ x. refl)

  keys-remove_child : (p c : N) (t : List (RibEntry N)) → keys (remove_child ndn p c t) ≡ keys t
  unfolding remove_child
  keys-remove_child p c t =
      keys-modify_entry p _ _ (λ x. refl) (λ x. refl)
      ∙ keys-modify_entry c _ t (λ x. refl) (λ x. refl)

  pub keys-link_to_parent :
      (p : Option N) (c : N) (t : List (RibEntry N)) → keys (link_to_parent ndn p c t) ≡ keys t
  unfolding link_to_parent
  keys-link_to_parent none c t = refl
  keys-link_to_parent (some p) c t = keys-add_child p c t

  pub keys-unlink_from_parent :
      (p : Option N) (c : N) (t : List (RibEntry N)) → keys (unlink_from_parent ndn p c t) ≡ keys t
  unfolding unlink_from_parent
  keys-unlink_from_parent none c t = refl
  keys-unlink_from_parent (some p) c t = keys-remove_child p c t

  pub keys-adopt :
      (p : Option N) (n : N) (cs t : List (RibEntry N)) → keys (adopt ndn p n cs t) ≡ keys t
  unfolding adopt
  keys-adopt p n [] t = refl
  keys-adopt p n (c ∷ cs) t =
      keys-adopt p n cs _ ∙ (elim (Bool-cases (is_same_parent ndn c.parent p)) [
        | inl h ↦ rw h (keys-add_child n c.name _ ∙ keys-unlink_from_parent p c.name t)
        | inr h ↦ rw h refl
      ])

  pub keys-move_children :
      (p : Option N) (n : N) (cs : List N) (t : List (RibEntry N))
      → keys (move_children ndn p n cs t) ≡ keys t
  unfolding move_children
  keys-move_children p n [] t = refl
  keys-move_children p n (c ∷ cs) t =
      keys-move_children p n cs _ ∙ (keys-link_to_parent p c _ ∙ keys-remove_child n c t)

  abbrev pub find_key : N → Route → List (N × List Route) → Option Route
  find_key m q [] = none
  find_key m q (k ∷ ks) = if ndn.same k.0 m then find_route_in q k.1 else find_key m q ks

  pub found_none :
      (n : N) (e : RibEntry N) (t : List (RibEntry N))
      → find_in_table ndn n (e ∷ t) ≡ none
      → (ndn.same e.name n ≡ false) × (find_in_table ndn n t ≡ none)
  unfolding find_in_table
  found_none n e t h = ground arith

  pub found_cases :
      (n : N) (y : RibEntry N) (t : List (RibEntry N)) {e : RibEntry N}
      → find_in_table ndn n (y ∷ t) ≡ some e
      → ((ndn.same y.name n ≡ true) × (y ≡ e))
        ⊎ ((ndn.same y.name n ≡ false) × (find_in_table ndn n t ≡ some e))
  unfolding find_in_table
  found_cases n y t h = ground arith

module _ {N : Type 0} (ndn : Ndn N) (lawful : (a b : N) → (ndn.same a b ≡ true) ↔ (a ≡ b)) where
  pub same_refl : (a : N) → ndn.same a a ≡ true
  same_refl a = (lawful a a).1 refl

  pub same_with : {a b : N} → a ≡ b → (c : N) → ndn.same a c ≡ ndn.same b c
  same_with h c = ap (λ z. ndn.same z c) h

  pub not_same : (a b c : N) → ndn.same a b ≡ true → ndn.same a c ≡ false → ndn.same c b ≡ false
  not_same a b c h g = elim (Bool-cases (ndn.same c b)) [
    | inl k ↦ absurd (differ (sym ((lawful a c).1 ((lawful a b).0 h ∙ sym ((lawful c b).0 k))) ∙ g))
    | inr k ↦ k
  ]

  route_of_if :
      (q : Route) (b : Bool) (e : RibEntry N) (o : Option (RibEntry N))
      → route_of ndn q (if b then some e else o) ≡ (if b then find_route q e else route_of ndn q o)
  unfolding route_of
  route_of_if q true e o = refl
  route_of_if q false e o = refl

  pub lookup_cons :
      (m : N) (q : Route) (e : RibEntry N) (t : List (RibEntry N))
      → find_in_rib ndn m q (e ∷ t)
        ≡ (if ndn.same e.name m then find_route q e else find_in_rib ndn m q t)
  unfolding find_in_rib find_in_table
  lookup_cons m q e t = route_of_if q (ndn.same e.name m) e (find_in_table ndn m t)

  pub lookup_here :
      (m : N) (q : Route) (e : RibEntry N) (t : List (RibEntry N))
      → ndn.same e.name m ≡ true
      → find_in_rib ndn m q (e ∷ t) ≡ find_route q e
  lookup_here m q e t h = lookup_cons m q e t ∙ rw h refl

  pub lookup_later :
      (m : N) (q : Route) (e : RibEntry N) (t : List (RibEntry N))
      → ndn.same e.name m ≡ false
      → find_in_rib ndn m q (e ∷ t) ≡ find_in_rib ndn m q t
  lookup_later m q e t h = lookup_cons m q e t ∙ rw h refl

  replaced_here :
      (m n : N) (q : Route) (x y : RibEntry N) (t : List (RibEntry N))
      → x.name ≡ n
      → ndn.same y.name n ≡ true
      → (if ndn.same x.name m then find_route q x else find_in_rib ndn m q t)
        ≡ (if ndn.same n m then find_route q x else find_in_rib ndn m q (y ∷ t))
  replaced_here m n q x y t h s = elim (Bool-cases (ndn.same n m)) [
    | inl k ↦ rw (same_with h m, k) refl
    | inr k ↦
        rw (same_with h m, k) (sym (lookup_later m q y t (same_with ((lawful y.name n).0 s) m ∙ k)))
  ]

  -- A new entry, where the table has none of its name.
  pub lookup-put_in_table :
      (m : N) (q : Route) (x : RibEntry N) (t : List (RibEntry N))
      → find_in_table ndn x.name t ≡ none
      → find_in_rib ndn m q (put_in_table ndn x t)
        ≡ (if ndn.same x.name m then find_route q x else find_in_rib ndn m q t)
  unfolding put_in_table
  lookup-put_in_table m q x [] h = lookup_cons m q x []
  lookup-put_in_table m q x (e ∷ t) h =
      let (other, rest) = found_none ndn x.name e t h in
      elim (Bool-cases (ndn.is_less x.name e.name)) [
        | inl k ↦ rw k (lookup_cons m q x (e ∷ t))
        | inr k ↦ rw k (elim (Bool-cases (ndn.same e.name m)) [
          | inl g ↦
              rw (not_same e.name m x.name g other)
                (lookup_here m q e _ g ∙ sym (lookup_here m q e t g))
          | inr g ↦
              lookup_later m q e _ g
              ∙ (lookup-put_in_table m q x t rest
                  ∙ ap (λ z. if ndn.same x.name m then find_route q x else z)
                      (sym (lookup_later m q e t g)))
        ])
      ]

  -- An entry replaced by one of the same name.
  pub lookup-replace :
      (m n : N) (q : Route) (x : RibEntry N) (t : List (RibEntry N)) {e : RibEntry N}
      → find_in_table ndn n t ≡ some e
      → x.name ≡ e.name
      → find_in_rib ndn m q (modify_entry ndn n (λ z. x) t)
        ≡ (if ndn.same n m then find_route q x else find_in_rib ndn m q t)
  unfolding modify_entry find_in_table
  lookup-replace m n q x [] h g = absurd (ground arith)
  lookup-replace m n q x (y ∷ t) h g = elim (found_cases ndn n y t h) [
    | inl (s, k) ↦ rw s (
        let named = g ∙ (ap (λ (z : RibEntry N). z.name) (sym k) ∙ (lawful y.name n).0 s) in
        lookup_cons m q x t ∙ replaced_here m n q x y t named s)
    | inr (s, k) ↦ rw s (elim (Bool-cases (ndn.same y.name m)) [
      | inl c ↦ rw (not_same y.name m n c s) (lookup_here m q y _ c ∙ sym (lookup_here m q y t c))
      | inr c ↦
          lookup_later m q y _ c
          ∙ (lookup-replace m n q x t k g
              ∙ ap (λ z. if ndn.same n m then find_route q x else z) (sym (lookup_later m q y t c)))
    ])
  ]
