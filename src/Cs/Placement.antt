-- ===== src/Cs/Placement.antt =====
-- The queues of daemon/table/cs-policy-priority-fifo.cpp: each entry is in exactly one of them.

use nfd_out_of_the_box.Cs.PriorityFifo.{
  evict_one, turn_stale, leave, erase_in, put_info, move_to_stale_queue, detach_queue, attach_queue,
  Attributes, push_to, empty_policy, EntryInfo, enter, erase_first, PriorityFifoPolicy, QueueType,
  queue_unsolicited, queue_stale, queue_fifo,
}
use nfd_out_of_the_box.Prelude.{
  ℕ, ◌+◌, ◌-◌, ◌≡◌, refl, sym, ap, ◌∙◌, subst, Bool, true, false, Option, none, some, List, [], ◌∷◌,
  ◌++◌, arith, ◌==◌, if◌then◌else◌, ==_iff,
}

abbrev pub occurrences : ℕ → List ℕ → ℕ
occurrences k [] = 0
occurrences k (x ∷ xs) = (if x == k then 1 else 0) + occurrences k xs

abbrev pub is_of_type : QueueType → QueueType → Bool
is_of_type queue_unsolicited queue_unsolicited = true
is_of_type queue_unsolicited queue_stale = false
is_of_type queue_unsolicited queue_fifo = false
is_of_type queue_stale queue_unsolicited = false
is_of_type queue_stale queue_stale = true
is_of_type queue_stale queue_fifo = false
is_of_type queue_fifo queue_unsolicited = false
is_of_type queue_fifo queue_stale = false
is_of_type queue_fifo queue_fifo = true

-- How often an entry is to be in a queue, by what the map has for it.
abbrev pub expected : QueueType → Option EntryInfo → ℕ
expected t none = 0
expected t (some i) = if is_of_type t i.queue_type then 1 else 0

-- The entry is once in the queue that the map says, and in no other.
abbrev pub IsPlaced : ℕ → PriorityFifoPolicy → Type 0
IsPlaced k s =
    (occurrences k s.unsolicited ≡ expected queue_unsolicited (s.entry_info_map k))
    × (occurrences k s.stale ≡ expected queue_stale (s.entry_info_map k))
    × (occurrences k s.fifo ≡ expected queue_fifo (s.entry_info_map k))

-- The states that the operations reach from the empty policy.
pub data IsReachable : PriorityFifoPolicy → Type 0 where
  constructed : IsReachable empty_policy
  attached :
      (now : ℕ) (a : Attributes) (k : ℕ) (s t : PriorityFifoPolicy)
      → IsReachable s
      → attach_queue now a k s ≡ some t
      → IsReachable t
  detached :
      (k : ℕ) (s t : PriorityFifoPolicy) → IsReachable s → detach_queue k s ≡ some t → IsReachable t
  moved :
      (k : ℕ) (s t : PriorityFifoPolicy)
      → IsReachable s
      → move_to_stale_queue k s ≡ some t
      → IsReachable t
  evicted :
      (k : ℕ) (s t : PriorityFifoPolicy) → IsReachable s → evict_one s ≡ some (k, t) → IsReachable t

occurrences-append :
    (k j : ℕ) (xs : List ℕ)
    → occurrences k (xs ++ j ∷ []) ≡ occurrences k xs + (if j == k then 1 else 0)
occurrences-append k j [] = omega arith
occurrences-append k j (x ∷ xs) = omega (arith, occurrences-append k j xs)

occurrences-erase_first :
    (k j : ℕ) (xs : List ℕ)
    → occurrences k (erase_first j xs) ≡ occurrences k xs - (if j == k then 1 else 0)
unfolding erase_first
occurrences-erase_first k j [] = ground arith
occurrences-erase_first k j (x ∷ xs) = ground (arith, occurrences-erase_first k j xs)

abbrev pub IsPlacedIn : ℕ → Option PriorityFifoPolicy → Type 0
IsPlacedIn k none = Unit {0}
IsPlacedIn k (some t) = IsPlaced k t

same_info :
    (j k : ℕ) (m : ℕ → Option EntryInfo) {o : Option EntryInfo}
    → m j ≡ o
    → (j == k) ≡ true
    → m k ≡ o
same_info j k m e h = ap m (sym ((==_iff j k).0 h)) ∙ e

push_to-IsPlaced :
    (k j : ℕ) (q : QueueType) (event : Option ℕ) (s : PriorityFifoPolicy)
    → s.entry_info_map j ≡ none
    → IsPlaced k s
    → IsPlaced k (
        push_to q j (record s {
          entry_info_map =
              put_info j
                (some (record { queue_type = q; move_stale_event = event }))
                s.entry_info_map;
        }))
unfolding push_to
push_to-IsPlaced k j queue_unsolicited event s e p =
    ground (arith, same_info j k s.entry_info_map e, occurrences-append k j s.unsolicited)
push_to-IsPlaced k j queue_stale event s e p =
    ground (arith, same_info j k s.entry_info_map e, occurrences-append k j s.stale)
push_to-IsPlaced k j queue_fifo event s e p =
    ground (arith, same_info j k s.entry_info_map e, occurrences-append k j s.fifo)

erase_in-IsPlaced :
    (k j : ℕ) (q : QueueType) (event : Option ℕ) (s : PriorityFifoPolicy)
    → s.entry_info_map j ≡ some (record { queue_type = q; move_stale_event = event })
    → IsPlaced k s
    → IsPlaced k (erase_in q j (record s { entry_info_map = put_info j none s.entry_info_map }))
unfolding erase_in
erase_in-IsPlaced k j queue_unsolicited event s e p =
    ground (arith, same_info j k s.entry_info_map e, occurrences-erase_first k j s.unsolicited)
erase_in-IsPlaced k j queue_stale event s e p =
    ground (arith, same_info j k s.entry_info_map e, occurrences-erase_first k j s.stale)
erase_in-IsPlaced k j queue_fifo event s e p =
    ground (arith, same_info j k s.entry_info_map e, occurrences-erase_first k j s.fifo)

enter-IsPlacedIn :
    (k j : ℕ) (i : EntryInfo) (s : PriorityFifoPolicy) (o : Option EntryInfo)
    → s.entry_info_map j ≡ o
    → IsPlaced k s
    → IsPlacedIn k (enter j i s o)
unfolding enter
enter-IsPlacedIn k j i s (some x) e p = tt
enter-IsPlacedIn k j i s none e p = push_to-IsPlaced k j i.queue_type i.move_stale_event s e p

leave-IsPlacedIn :
    (k j : ℕ) (s : PriorityFifoPolicy) (o : Option EntryInfo)
    → s.entry_info_map j ≡ o
    → IsPlaced k s
    → IsPlacedIn k (leave j s o)
unfolding leave
leave-IsPlacedIn k j s none e p = tt
leave-IsPlacedIn k j s (some i) e p = erase_in-IsPlaced k j i.queue_type i.move_stale_event s e p

turn_stale-IsPlacedIn :
    (k j : ℕ) (s : PriorityFifoPolicy) (q : QueueType) (event : Option ℕ)
    → s.entry_info_map j ≡ some (record { queue_type = q; move_stale_event = event })
    → IsPlaced k s
    → IsPlacedIn k (turn_stale j s (some (record { queue_type = q; move_stale_event = event })))
unfolding turn_stale
turn_stale-IsPlacedIn k j s queue_unsolicited event e p = tt
turn_stale-IsPlacedIn k j s queue_stale event e p = tt
turn_stale-IsPlacedIn k j s queue_fifo event e p = ground (
  arith,
  same_info j k s.entry_info_map e,
  occurrences-erase_first k j s.fifo,
  occurrences-append k j s.stale,
)

move-IsPlacedIn :
    (k j : ℕ) (s : PriorityFifoPolicy) (o : Option EntryInfo)
    → s.entry_info_map j ≡ o
    → IsPlaced k s
    → IsPlacedIn k (turn_stale j s o)
unfolding turn_stale
move-IsPlacedIn k j s none e p = tt
move-IsPlacedIn k j s (some i) e p = turn_stale-IsPlacedIn k j s i.queue_type i.move_stale_event e p

evict_one-detach_queue :
    (k : ℕ) (s t : PriorityFifoPolicy) → evict_one s ≡ some (k, t) → detach_queue k s ≡ some t
unfolding evict_one
evict_one-detach_queue k s t h = grind arith

-- In every state that inserting, refreshing, erasing, evicting and expiring entries reaches from the
-- empty policy, each entry that the policy knows is once in the queue that its information names,
-- and in no other; an entry that it does not know is in no queue.
pub IsReachable-IsPlaced : {s : PriorityFifoPolicy} (k : ℕ) → IsReachable s → IsPlaced k s
unfolding attach_queue detach_queue move_to_stale_queue
IsReachable-IsPlaced k constructed = (refl, refl, refl)
IsReachable-IsPlaced k (attached now a j s t r h) =
    subst (IsPlacedIn k) h (enter-IsPlacedIn k j _ s _ refl (IsReachable-IsPlaced k r))
IsReachable-IsPlaced k (detached j s t r h) =
    subst (IsPlacedIn k) h (leave-IsPlacedIn k j s _ refl (IsReachable-IsPlaced k r))
IsReachable-IsPlaced k (moved j s t r h) =
    subst (IsPlacedIn k) h (move-IsPlacedIn k j s _ refl (IsReachable-IsPlaced k r))
IsReachable-IsPlaced k (evicted j s t r h) =
    subst (IsPlacedIn k) (evict_one-detach_queue j s t h)
      (leave-IsPlacedIn k j s _ refl (IsReachable-IsPlaced k r))
