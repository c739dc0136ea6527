-- ===== src/Cs/PriorityFifo.antt =====
-- daemon/table/cs-policy-priority-fifo.cpp: the three queues of the policy, and the map that says in which of
-- them an entry is. A reference to an entry is a number. A failed assertion is `none`. A scheduled move to
-- the stale queue is the time at which it is due.
use nfd_out_of_the_box.Prelude.{
  ℕ, zero, suc, ◌+◌, Bool, Option, none, some, List, [], ◌∷◌, ◌++◌, ◌==◌, if◌then◌else◌,
}

pub data QueueType : Type 0 where
  queue_unsolicited : QueueType
  queue_stale : QueueType
  queue_fifo : QueueType

pub record EntryInfo : Type 0 where
  pub queue_type : QueueType
  pub move_stale_event : Option ℕ

pub record PriorityFifoPolicy : Type 0 where
  pub unsolicited : List ℕ
  pub stale : List ℕ
  pub fifo : List ℕ
  pub entry_info_map : ℕ → Option EntryInfo

-- What the policy asks of an entry when it attaches it.
pub record Attributes : Type 0 where
  pub is_unsolicited : Bool
  pub is_fresh : Bool
  pub freshness_period : ℕ

abbrev pub empty_policy : PriorityFifoPolicy
empty_policy = record { unsolicited = []; stale = []; fifo = []; entry_info_map = λ k. none }

abbrev pub put_info : ℕ → Option EntryInfo → (ℕ → Option EntryInfo) → ℕ → Option EntryInfo
put_info k i m j = if j == k then i else m j

unfoldable pub erase_first : ℕ → List ℕ → List ℕ
erase_first k [] = []
erase_first k (x ∷ xs) = let rest = erase_first k xs in if x == k then xs else (x ∷ rest)

unfoldable pub push_to : QueueType → ℕ → PriorityFifoPolicy → PriorityFifoPolicy
push_to queue_unsolicited k s = record s { unsolicited = s.unsolicited ++ k ∷ [] }
push_to queue_stale k s = record s { stale = s.stale ++ k ∷ [] }
push_to queue_fifo k s = record s { fifo = s.fifo ++ k ∷ [] }

unfoldable pub erase_in : QueueType → ℕ → PriorityFifoPolicy → PriorityFifoPolicy
erase_in queue_unsolicited k s = record s { unsolicited = erase_first k s.unsolicited }
erase_in queue_stale k s = record s { stale = erase_first k s.stale }
erase_in queue_fifo k s = record s { fifo = erase_first k s.fifo }

unfoldable pub choose_queue : Attributes → QueueType
choose_queue a =
    if a.is_unsolicited then queue_unsolicited else if a.is_fresh then queue_fifo else queue_stale

unfoldable pub choose_event : ℕ → Attributes → QueueType → Option ℕ
choose_event now a queue_unsolicited = none
choose_event now a queue_stale = none
choose_event now a queue_fifo = some (now + a.freshness_period)

-- An entry that is in no queue yet goes to the end of one.
unfoldable pub enter :
    ℕ → EntryInfo → PriorityFifoPolicy → Option EntryInfo → Option PriorityFifoPolicy
enter k i s (some _) = none
enter k i s none =
    some
      (push_to i.queue_type k (record s { entry_info_map = put_info k (some i) s.entry_info_map }))

unfoldable pub attach_queue : ℕ → Attributes → ℕ → PriorityFifoPolicy → Option PriorityFifoPolicy
attach_queue now a k s =
    enter k
      (record {
        queue_type = choose_queue a;
        move_stale_event = choose_event now a (choose_queue a);
      })
      s (s.entry_info_map k)

unfoldable pub leave : ℕ → PriorityFifoPolicy → Option EntryInfo → Option PriorityFifoPolicy
leave k s none = none
leave k s (some i) =
    some (erase_in i.queue_type k (record s { entry_info_map = put_info k none s.entry_info_map }))

unfoldable pub detach_queue : ℕ → PriorityFifoPolicy → Option PriorityFifoPolicy
detach_queue k s = leave k s (s.entry_info_map k)

unfoldable pub turn_stale : ℕ → PriorityFifoPolicy → Option EntryInfo → Option PriorityFifoPolicy
turn_stale k s none = none
turn_stale k s (some i) = elim i.queue_type [
  | queue_unsolicited ↦ none
  | queue_stale ↦ none
  | queue_fifo ↦ some (record s {
    fifo = erase_first k s.fifo;
    stale = s.stale ++ k ∷ [];
    entry_info_map = put_info k (some (record i { queue_type = queue_stale })) s.entry_info_map;
  })
]

unfoldable pub move_to_stale_queue : ℕ → PriorityFifoPolicy → Option PriorityFifoPolicy
move_to_stale_queue k s = turn_stale k s (s.entry_info_map k)

unfoldable pub front_of : List ℕ → List ℕ → List ℕ → Option ℕ
front_of (k ∷ ks) stale fifo = some k
front_of [] (k ∷ ks) fifo = some k
front_of [] [] (k ∷ ks) = some k
front_of [] [] [] = none

-- The entry that is evicted, and the queues without it.
unfoldable pub evict_one : PriorityFifoPolicy → Option (ℕ × PriorityFifoPolicy)
evict_one s = elim (front_of s.unsolicited s.stale s.fifo) [
  | none ↦ none
  | some k ↦ elim (detach_queue k s) [ none ↦ none | some t ↦ some (k, t) ]
]

-- `evictEntries`: the store is `excess` entries above its limit, and each eviction takes one from it.
unfoldable pub evict_excess : ℕ → PriorityFifoPolicy → Option (List ℕ × PriorityFifoPolicy)
evict_excess zero s = some ([], s)
evict_excess (suc n) s = elim (evict_one s) [
  | none ↦ none
  | some (k, t) ↦ elim (evict_excess n t) [ none ↦ none | some (ks, u) ↦ some (k ∷ ks, u) ]
]

unfoldable pub do_after_insert :
    ℕ → Attributes → ℕ → ℕ → PriorityFifoPolicy → Option (List ℕ × PriorityFifoPolicy)
do_after_insert now a k excess s = elim (attach_queue now a k s) [
  | none ↦ none
  | some t ↦ evict_excess excess t
]

unfoldable pub do_after_refresh :
    ℕ → Attributes → ℕ → PriorityFifoPolicy → Option PriorityFifoPolicy
do_after_refresh now a k s = elim (detach_queue k s) [
  | none ↦ none
  | some t ↦ attach_queue now a k t
]
