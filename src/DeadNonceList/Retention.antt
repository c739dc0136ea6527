-- ===== src/DeadNonceList/Retention.antt =====
-- How long a Nonce is remembered: the queue is first in, first out, so an entry stays while the
-- entries behind it fit the capacity.
use mathlib.Core.List.{append_assoc}
use nfd_out_of_the_box.DeadNonceList.{
  DeadNonceList, contains, evict_entries, has, add, add_all, evict_limit,
}
use nfd_out_of_the_box.Prelude.{
  length-append, drop, length, ℕ, zero, suc, ◌+◌, ◌-◌, ◌≤◌, ◌<◌, min, ◌≡◌, refl, ap, ◌∙◌, inl, inr,
  true, false, ◌||◌, List, [], ◌∷◌, ◌++◌, arith, leb, Bool-cases,
}

contains-append : (x : ℕ) (xs ys : List ℕ) → contains x (xs ++ ys) ≡ contains x xs || contains x ys
unfolding contains
contains-append x [] ys = refl
contains-append x (z ∷ xs) ys = ground (arith, contains-append x xs ys)

-- The entry `x` stands in the queue with fewer than `room` entries behind it.
record Within (x room : ℕ) (q : List ℕ) : Type 0 where
  front : List ℕ
  back : List ℕ
  split : q ≡ front ++ (x ∷ back)
  near : length back < room

drop-append : (k : ℕ) (xs ys : List ℕ) → k ≤ length xs → drop k (xs ++ ys) ≡ drop k xs ++ ys
drop-append zero xs ys h = refl
drop-append (suc k) [] ys h = absurd (omega arith)
drop-append (suc k) (x ∷ xs) ys h = drop-append k xs ys (omega arith)

evict_entries-Within :
    (x room : ℕ) (d : DeadNonceList)
    → room ≤ d.capacity
    → Within x room d.queue
    → Within x room (evict_entries d).queue
unfolding evict_entries
evict_entries-Within x room d le w = elim (Bool-cases (leb (length d.queue) d.capacity)) [
  | inl fits ↦ rw fits w
  | inr over ↦ rw over (record {
    front = drop k w.front;
    back = w.back;
    split = ap (drop k) w.split ∙ drop-append k w.front (x ∷ w.back) (kept over);
    near = w.near;
  })
]
  where
    k : ℕ
    k = min (length d.queue - d.capacity) evict_limit

    kept : leb (length d.queue) d.capacity ≡ false → k ≤ length w.front
    kept over =
        let n = w.near in omega (arith, ap length w.split, length-append w.front (x ∷ w.back))

push-Within : (x y room : ℕ) (q : List ℕ) → Within x room q → Within x (suc room) (q ++ y ∷ [])
push-Within x y room q w = record {
  front = w.front;
  back = w.back ++ y ∷ [];
  split = ap (λ l. l ++ y ∷ []) w.split ∙ append_assoc w.front (x ∷ w.back) (y ∷ []);
  near = let n = w.near in omega (arith, length-append w.back (y ∷ []));
}

Within-contains : (x room : ℕ) (q : List ℕ) → Within x room q → contains x q ≡ true
unfolding contains
Within-contains x room q w = rw w.split (ground (arith, contains-append x w.front (x ∷ w.back)))

same_capacity : (d : DeadNonceList) → (evict_entries d).capacity ≡ d.capacity
unfolding evict_entries
same_capacity d = ground arith

module _ {N : Type 0} (make_entry : N → ℕ → ℕ) where
  add_all-Within :
      (rest : List (N × ℕ)) (x room : ℕ) (d : DeadNonceList)
      → room + length rest ≤ d.capacity
      → Within x room d.queue
      → Within x (room + length rest) (add_all make_entry rest d).queue
  unfolding add
  add_all-Within [] x room d le w = let e : room + 0 ≡ room = omega arith in rw e w
  add_all-Within ((name, nonce) ∷ rest) x room d le w =
      let added = record d { queue = d.queue ++ make_entry name nonce ∷ [] } in
      let e : room + suc (length rest) ≡ suc room + length rest = omega arith in
      rw e (
        add_all-Within rest x (suc room) (evict_entries added) (omega (arith, same_capacity added))
          (evict_entries-Within x (suc room) added (omega arith)
            (push-Within x (make_entry name nonce) room d.queue w)))

  -- A Nonce that has been added is found, and is still found after fewer than `capacity` further
  -- additions, whatever they are.
  pub add_all-has :
      (name : N) (nonce : ℕ) (rest : List (N × ℕ)) (d : DeadNonceList)
      → length rest < d.capacity
      → has make_entry name nonce (add_all make_entry rest (add make_entry name nonce d)) ≡ true
  unfolding has add
  add_all-has name nonce rest d h = Within-contains (make_entry name nonce) (1 + length rest) _ (
      add_all-Within rest (make_entry name nonce) 1 (evict_entries added)
        (omega (arith, same_capacity added))
        (evict_entries-Within (make_entry name nonce) 1 added (omega arith)
          (record { front = d.queue; back = []; split = refl; near = omega arith })))
    where
      added : DeadNonceList
      added = record d { queue = d.queue ++ make_entry name nonce ∷ [] }
