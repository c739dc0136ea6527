-- ===== src/Rib/Walk.antt =====
-- The walk of daemon/rib/fib-updater.cpp over the children of an entry, as a relation without fuel.
use nfd_out_of_the_box.Prelude.{
  ℕ, zero, suc, ◌+◌, ◌≤◌, ◌<◌, max, ◌≡◌, subst, ◌⊎◌, inl, inr, true, some, List, [], ◌∷◌, arith,
  Option-cases, false, none, Bool-cases,
}
use nfd_out_of_the_box.Rib.{has_capture, Route, RibEntry, Ndn}
use nfd_out_of_the_box.Rib.Table.{find_in_table}
use nfd_out_of_the_box.Rib.Updater.{
  remove_loop, add_loop, unblocked, FibUpdater, traverse_sub_tree,
  modify_childrens_inherited_routes, longest, modify_childrens,
}

module _ {N : Type 0} (ndn : Ndn N) where
  abbrev pub HasAtLeast : ℕ → List N → Type 0
  HasAtLeast m [] = Unit {0}
  HasAtLeast m (c ∷ cs) = (m ≤ ndn.size c) × HasAtLeast m cs

  -- The names of an entry's children are longer than its own.
  abbrev pub IsTree : List (RibEntry N) → Type 0
  IsTree [] = Unit {0}
  IsTree (e ∷ es) = HasAtLeast (suc (ndn.size e.name)) e.children × IsTree es

  found_cases :
      (c : N) (y : RibEntry N) (t : List (RibEntry N)) {e : RibEntry N}
      → find_in_table ndn c (y ∷ t) ≡ some e
      → ((ndn.same y.name c ≡ true) × (y ≡ e)) ⊎ (find_in_table ndn c t ≡ some e)
  unfolding find_in_table
  found_cases c y t h = ground arith

  found_in_tree :
      ((a b : N) → ndn.same a b ≡ true → ndn.size a ≡ ndn.size b)
      → (c : N) (t : List (RibEntry N)) {e : RibEntry N} → IsTree t
      → find_in_table ndn c t ≡ some e
      → HasAtLeast (suc (ndn.size c)) e.children × (ndn.size c ≤ longest ndn t)
  unfolding find_in_table longest
  found_in_tree sizes c [] w h = absurd (ground arith)
  found_in_tree sizes c (x ∷ t) {e = e} w h = elim (found_cases c x t h) [
    | inl (s, q) ↦
        subst
          (λ (z : RibEntry N).
            HasAtLeast (suc (ndn.size c)) z.children
            × (ndn.size c ≤ max (ndn.size x.name) (longest ndn t)))
          q
          (
            subst (λ n. HasAtLeast (suc n) x.children) (sizes x.name c s) w.0,
            omega (arith, sizes x.name c s),
          )
    | inr q ↦ let (a, b) = found_in_tree sizes c t w.1 q in (a, omega (arith, b))
  ]

  at_least : (m n : ℕ) (cs : List N) → m ≤ n → HasAtLeast n cs → HasAtLeast m cs
  at_least m n [] l h = tt
  at_least m n (c ∷ cs) l h = (omega (arith, l, h.0), at_least m n cs l h.1)

  all_names : (cs : List N) → HasAtLeast 0 cs
  all_names [] = tt
  all_names (c ∷ cs) = (omega arith, all_names cs)

  -- The recursion of traverseSubTree and modifyChildrensInheritedRoutes, as deep as it goes: `Walks cs
  -- adds removes x y` takes the updater from `x` to `y` along the children `cs`. A child is a name here; one that
  -- the table lacks, which pointers exclude, is passed over.
  pub data Walks (t : List (RibEntry N))
      : List N → List Route → List Route → FibUpdater N → FibUpdater N → Type 0 where
    finished : (adds removes : List Route) (x : FibUpdater N) → Walks t [] adds removes x x
    absent :
        (c : N) (cs : List N) (adds removes : List Route) (x y : FibUpdater N)
        → find_in_table ndn c t ≡ none
        → Walks t cs adds removes x y
        → Walks t (c ∷ cs) adds removes x y
    captured :
        (c : N) (cs : List N) (e : RibEntry N) (adds removes : List Route) (x y : FibUpdater N)
        → find_in_table ndn c t ≡ some e
        → has_capture e ≡ true
        → Walks t cs adds removes x y
        → Walks t (c ∷ cs) adds removes x y
    descended :
        (c : N) (cs : List N) (e : RibEntry N) (adds removes : List Route) (x y z : FibUpdater N)
        → find_in_table ndn c t ≡ some e
        → has_capture e ≡ false
        → Walks t e.children
            (unblocked ndn e adds)
            (unblocked ndn e removes)
            (add_loop ndn e adds (remove_loop ndn e removes x))
            y
        → Walks t cs adds removes y z
        → Walks t (c ∷ cs) adds removes x z

  module _ (sizes : (a b : N) → ndn.same a b ≡ true → ndn.size a ≡ ndn.size b)
      (t : List (RibEntry N)) (tree : IsTree t) where
    nowhere :
        (m : ℕ) (cs : List N) (adds removes : List Route) (x : FibUpdater N)
        → longest ndn t < m
        → HasAtLeast m cs
        → Walks t cs adds removes x x
    nowhere m [] adds removes x l h = finished adds removes x
    nowhere m (c ∷ cs) adds removes x l h = elim (Option-cases (find_in_table ndn c t)) [
      | inl n ↦ absent c cs adds removes x x n (nowhere m cs adds removes x l h.1)
      | inr (e, n) ↦ absurd (omega (arith, (found_in_tree sizes c t tree n).1, l, h.0))
    ]

    walk-Walks :
        (k m : ℕ) (cs : List N) (adds removes : List Route) (x : FibUpdater N)
        → longest ndn t < m + k
        → HasAtLeast m cs
        → Walks t cs adds removes x (modify_childrens_inherited_routes ndn t k cs adds removes x)
    unfolding modify_childrens_inherited_routes traverse_sub_tree
    walk-Walks zero m [] adds removes x l h = finished adds removes x
    walk-Walks (suc k) m [] adds removes x l h = finished adds removes x
    walk-Walks zero m (c ∷ cs) adds removes x l h =
        nowhere m (c ∷ cs) adds removes x (omega (arith, l)) h
    walk-Walks (suc k) m (c ∷ cs) adds removes x l h = elim (Option-cases (find_in_table ndn c t)) [
      | inl n ↦ rw n (absent c cs adds removes x _ n (walk-Walks (suc k) m cs adds removes x l h.1))
      | inr (e, n) ↦ elim (Bool-cases (has_capture e)) [
        | inl stop ↦
            rw (n, stop)
              (captured c cs e adds removes x _ n stop
                (walk-Walks (suc k) m cs adds removes x l h.1))
        | inr go ↦
            let (longer, _) = found_in_tree sizes c t tree n in
            let below =
              walk-Walks k (suc m) e.children (unblocked ndn e adds) (unblocked ndn e removes)
                (add_loop ndn e adds (remove_loop ndn e removes x)) (omega (arith, l))
                (at_least (suc m) (suc (ndn.size c)) e.children (omega (arith, h.0)) longer) in
            rw (n, go)
              (descended c cs e adds removes x _ _ n go below
                (walk-Walks (suc k) m cs adds removes _ l h.1))
      ]
    ]

  -- Where the children of each entry have longer names than the entry, and names that are the same have
  -- the same length, the walk with the fuel that `modify_childrens` gives it is the recursion of the
  -- code without any fuel: it goes below every child that it finds and that does not capture, with the
  -- routes that the child does not block, and on to the next one, and it ends.
  pub modify_childrens-Walks :
      ((a b : N) → ndn.same a b ≡ true → ndn.size a ≡ ndn.size b)
      → (t : List (RibEntry N)) → IsTree t
      → (cs : List N) (adds removes : List Route) (x : FibUpdater N)
      → Walks t cs adds removes x (modify_childrens ndn t cs adds removes x)
  unfolding modify_childrens
  modify_childrens-Walks sizes t tree cs adds removes x =
      walk-Walks sizes t tree (suc (longest ndn t)) 0 cs adds removes x (omega arith) (all_names cs)
