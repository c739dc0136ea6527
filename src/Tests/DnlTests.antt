-- ===== src/Tests/DnlTests.antt =====
-- A list of capacity 8 with Nonces hashed by a sum.
use nfd_out_of_the_box.DeadNonceList.{
  DeadNonceList, has, add, add_all, adjust_capacity, all_counts, expected_mark_count, evict_limit,
}
use nfd_out_of_the_box.DeadNonceList.Bounds.{HasCapacity, adjust_capacity-HasCapacity}
use nfd_out_of_the_box.DeadNonceList.Retention.{add_all-has}
use nfd_out_of_the_box.Prelude.{
  length, ℕ, ◌+◌, ◌*◌, ◌/◌, ◌≤◌, min, ◌≡◌, ◌⊎◌, true, [], ◌∷◌, arith, ltb,
}

abbrev hash : ℕ → ℕ → ℕ
hash name nonce = name * 1000 + nonce + 1

abbrev full : DeadNonceList
full = record {
  lifetime = 6000000000;
  queue = 1 ∷ 2 ∷ 0 ∷ 3 ∷ 4 ∷ 5 ∷ 0 ∷ 6 ∷ [];
  capacity = 8;
  actual_mark_counts = 7 ∷ 9 ∷ [];
}

add_all-has_example :
    has hash 5 77 (add_all hash ((1, 1) ∷ (2, 2) ∷ (3, 3) ∷ []) (add hash 5 77 full)) ≡ true
add_all-has_example = add_all-has hash 5 77 ((1, 1) ∷ (2, 2) ∷ (3, 3) ∷ []) full (omega arith)

abbrev up : ℕ → ℕ
up c = c * 12 / 10

abbrev down : ℕ → ℕ
down c = c * 9 / 10

adjust_capacity-HasCapacity_example :
    HasCapacity (adjust_capacity up down full)
    × ((8 ≤ (adjust_capacity up down full).capacity)
        ⊎ (all_counts (λ n. ltb expected_mark_count n) full.actual_mark_counts ≡ true))
    × (((adjust_capacity up down full).capacity ≤ 8)
        ⊎ (all_counts (λ n. ltb n expected_mark_count) full.actual_mark_counts ≡ true))
    × (8 ≤ length (adjust_capacity up down full).queue + evict_limit)
    × (min 8 (adjust_capacity up down full).capacity ≤ length (adjust_capacity up down full).queue)
adjust_capacity-HasCapacity_example =
    adjust_capacity-HasCapacity up down full (λ c. omega arith) (λ c. omega arith) (omega arith)
