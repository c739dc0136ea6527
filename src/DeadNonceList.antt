-- ===== src/DeadNonceList.antt =====
-- daemon/table/dead-nonce-list.cpp. The hash of a Name with a Nonce (daemon/common/city-hash.cpp,
-- through `makeEntry`) is the parameter `make_entry`; the products with the doubles CAPACITY_UP and
-- CAPACITY_DOWN, cast to size_t, are the parameters `up` and `down`. The two timers call `mark` and
-- `adjust_capacity`.
pub mod Bounds
pub mod Retention
use nfd_out_of_the_box.Prelude.{
  drop, length, replicate, ℕ, zero, suc, ◌+◌, ◌-◌, ◌*◌, ◌/◌, ◌%◌, ◌^◌, ◌≤◌, ◌<◌, min, max, ◌≡◌,
  refl, sym, ap, ◌∙◌, subst, ◌≢◌, ◌↔◌, ◌⊎◌, inl, inr, Bool, true, false, not, ◌&&◌, ◌||◌, Option,
  none, some, List, [], ◌∷◌, ◌++◌, map, arith, ltb, leb, ◌==◌, if◌then◌else◌, Bool-cases,
  Option-cases, ==_iff,
}

pub record DeadNonceList : Type 0 where
  pub lifetime : ℕ
  pub queue : List ℕ
  pub capacity : ℕ
  pub actual_mark_counts : List ℕ

abbrev pub initial_capacity : ℕ
initial_capacity = 2 ^ 7

abbrev pub min_capacity : ℕ
min_capacity = 2 ^ 3

abbrev pub max_capacity : ℕ
max_capacity = 2 ^ 24

abbrev pub mark_entry : ℕ
mark_entry = 0

abbrev pub expected_mark_count : ℕ
expected_mark_count = 5

abbrev pub evict_limit : ℕ
evict_limit = 2 ^ 6

abbrev pub min_lifetime : ℕ
min_lifetime = 1000000

-- The constructor; `none` is the exception.
unfoldable pub new : ℕ → Option DeadNonceList
new lifetime =
    if ltb lifetime min_lifetime
    then none
    else some (record {
      lifetime = lifetime;
      queue = replicate expected_mark_count mark_entry;
      capacity = initial_capacity;
      actual_mark_counts = [];
    })

unfoldable pub count : ℕ → List ℕ → ℕ
count x [] = 0
count x (y ∷ ys) = if y == x then suc (count x ys) else count x ys

unfoldable pub contains : ℕ → List ℕ → Bool
contains x [] = false
contains x (y ∷ ys) = y == x || contains x ys

unfoldable pub all_counts : (ℕ → Bool) → List ℕ → Bool
all_counts p [] = true
all_counts p (x ∷ xs) = p x && all_counts p xs

unfoldable pub count_marks : DeadNonceList → ℕ
unfolding count
count_marks d = count mark_entry d.queue

unfoldable pub size : DeadNonceList → ℕ
unfolding count_marks
size d = length d.queue - count_marks d

unfoldable pub evict_entries : DeadNonceList → DeadNonceList
evict_entries d =
    if leb (length d.queue) d.capacity
    then d
    else record d { queue = drop (min (length d.queue - d.capacity) evict_limit) d.queue }

unfoldable pub mark : DeadNonceList → DeadNonceList
unfolding count_marks
mark d =
    let marked = record d { queue = d.queue ++ mark_entry ∷ [] } in
    record marked { actual_mark_counts = count_marks marked ∷ d.actual_mark_counts }

-- `equal_range(EXPECTED_MARK_COUNT).second == begin()` says that all counts are above the expected
-- one, and `equal_range(…).first == end()` that all are below.
unfoldable pub adjusted_capacity : (ℕ → ℕ) → (ℕ → ℕ) → DeadNonceList → ℕ
unfolding all_counts
adjusted_capacity up down d =
    if all_counts (λ n. ltb expected_mark_count n) d.actual_mark_counts
    then max min_capacity (down d.capacity)
    else if all_counts (λ n. ltb n expected_mark_count) d.actual_mark_counts
    then min max_capacity (up d.capacity)
    else d.capacity

unfoldable pub adjust_capacity : (ℕ → ℕ) → (ℕ → ℕ) → DeadNonceList → DeadNonceList
unfolding adjusted_capacity
adjust_capacity up down d =
    evict_entries (record d { capacity = adjusted_capacity up down d; actual_mark_counts = [] })

module _ {N : Type 0} (make_entry : N → ℕ → ℕ) where
  unfoldable pub has : N → ℕ → DeadNonceList → Bool
  unfolding contains
  has name nonce d = contains (make_entry name nonce) d.queue

  unfoldable pub add : N → ℕ → DeadNonceList → DeadNonceList
  add name nonce d = evict_entries (record d { queue = d.queue ++ make_entry name nonce ∷ [] })

  -- A series of additions.
  abbrev pub add_all : List (N × ℕ) → DeadNonceList → DeadNonceList
  add_all [] d = d
  add_all ((name, nonce) ∷ rest) d = add_all rest (add name nonce d)
