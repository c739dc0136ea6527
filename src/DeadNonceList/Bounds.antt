-- ===== src/DeadNonceList/Bounds.antt =====
-- The capacity stays within its limits, and no operation but the two timers lets the queue outgrow
-- it.
use nfd_out_of_the_box.DeadNonceList.{
  adjusted_capacity, DeadNonceList, evict_entries, adjust_capacity, add, all_counts, min_capacity,
  max_capacity, evict_limit, expected_mark_count,
}
use nfd_out_of_the_box.Prelude.{
  length-append, length-drop, length, ℕ, ◌+◌, ◌-◌, ◌≤◌, min, max, ◌≡◌, ◌⊎◌, true, [], ◌∷◌, ◌++◌,
  arith, ltb,
}

abbrev pub HasCapacity : DeadNonceList → Type 0
HasCapacity d = (min_capacity ≤ d.capacity) × (d.capacity ≤ max_capacity)

-- An eviction removes EVICT_LIMIT entries at most, leaves no fewer than the capacity, and changes
-- nothing else.
pub evict_entries_bounds :
    (d : DeadNonceList)
    → (length d.queue ≤ length (evict_entries d).queue + evict_limit)
      × (min (length d.queue) d.capacity ≤ length (evict_entries d).queue)
      × (length (evict_entries d).queue ≤ max d.capacity (length d.queue - evict_limit))
      × ((evict_entries d).capacity ≡ d.capacity)
unfolding evict_entries
evict_entries_bounds d =
    let l = length-drop (min (length d.queue - d.capacity) evict_limit) d.queue in
    (ground arith, ground arith, ground arith, ground arith)

adjusted_capacity_bounds :
    (up down : ℕ → ℕ) (d : DeadNonceList)
    → ((c : ℕ) → c ≤ up c)
    → ((c : ℕ) → down c ≤ c)
    → HasCapacity d
    → (min_capacity ≤ adjusted_capacity up down d)
      × (adjusted_capacity up down d ≤ max_capacity)
      × ((d.capacity ≤ adjusted_capacity up down d)
          ⊎ (all_counts (λ n. ltb expected_mark_count n) d.actual_mark_counts ≡ true))
      × ((adjusted_capacity up down d ≤ d.capacity)
          ⊎ (all_counts (λ n. ltb n expected_mark_count) d.actual_mark_counts ≡ true))
unfolding adjusted_capacity
adjusted_capacity_bounds up down d grows shrinks h =
    let g = grows d.capacity in
    let s = shrinks d.capacity in (ground arith, ground arith, ground arith, ground arith)

-- Where `up` does not shrink a capacity and `down` does not grow one, adjusting keeps the capacity
-- between MIN_CAPACITY and MAX_CAPACITY. It goes down only when all marks counted since the last
-- time lie above the expected number, and up only when all lie below it. One adjustment evicts
-- EVICT_LIMIT entries at most, and none that the new capacity has room for.
pub adjust_capacity-HasCapacity :
    (up down : ℕ → ℕ) (d : DeadNonceList)
    → ((c : ℕ) → c ≤ up c)
    → ((c : ℕ) → down c ≤ c)
    → HasCapacity d
    → HasCapacity (adjust_capacity up down d)
      × ((d.capacity ≤ (adjust_capacity up down d).capacity)
          ⊎ (all_counts (λ n. ltb expected_mark_count n) d.actual_mark_counts ≡ true))
      × (((adjust_capacity up down d).capacity ≤ d.capacity)
          ⊎ (all_counts (λ n. ltb n expected_mark_count) d.actual_mark_counts ≡ true))
      × (length d.queue ≤ length (adjust_capacity up down d).queue + evict_limit)
      × (min (length d.queue) (adjust_capacity up down d).capacity
          ≤ length (adjust_capacity up down d).queue)
unfolding adjust_capacity
adjust_capacity-HasCapacity up down d grows shrinks h =
    let (lo, hi, fell, rose) = adjusted_capacity_bounds up down d grows shrinks h in
    let (few, room, _, same) =
      evict_entries_bounds
        (record d { capacity = adjusted_capacity up down d; actual_mark_counts = [] }) in
    (rw same (lo, hi), rw same fell, rw same rose, few, rw same room)

-- A list within its capacity stays so when a Nonce is added.
pub add_within_capacity :
    {N : Type 0} (make_entry : N → ℕ → ℕ) (name : N) (nonce : ℕ) (d : DeadNonceList)
    → length d.queue ≤ d.capacity
    → length (add make_entry name nonce d).queue ≤ (add make_entry name nonce d).capacity
unfolding add
add_within_capacity make_entry name nonce d h =
    let added = record d { queue = d.queue ++ make_entry name nonce ∷ [] } in
    omega (arith, evict_entries_bounds added, length-append d.queue (make_entry name nonce ∷ []))
