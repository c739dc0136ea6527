-- ===== src/Cs.antt =====
-- daemon/table/cs.cpp with cs-entry.cpp and the default policy, cs-policy-lru.cpp. The full Name of
-- a Data, with its digest, is the number `full_name`; `less` is the order of the std::set. A
-- reference to an entry is its full Name.
pub mod Keys
pub mod Bounds
pub mod Recency
pub mod PriorityFifo
pub mod Placement
use nfd_out_of_the_box.Packet.{Interest, Data, milliseconds}
use nfd_out_of_the_box.Pit.Records.{has_record, find_record, modify_record, delete_record}
use nfd_out_of_the_box.Prelude.{
  length, ℕ, zero, suc, ◌+◌, ◌-◌, ◌*◌, ◌/◌, ◌%◌, ◌^◌, ◌≤◌, ◌<◌, min, max, ◌≡◌, refl, sym, ap, ◌∙◌,
  subst, ◌≢◌, ◌↔◌, ◌⊎◌, inl, inr, Bool, true, false, not, ◌&&◌, ◌||◌, Option, none, some, List, [],
  ◌∷◌, ◌++◌, map, arith, ltb, leb, ◌==◌, if◌then◌else◌, Bool-cases, Option-cases, ==_iff,
}

pub record CsEntry (N : Type 0) : Type 0 where
  pub data_packet : Data N
  pub is_unsolicited : Bool
  pub fresh_until : ℕ

pub record Cs (N : Type 0) : Type 0 where
  pub table : List (CsEntry N)
  pub queue : List ℕ
  pub limit : ℕ
  pub should_admit : Bool
  pub should_serve : Bool

abbrev pub same_key : ℕ → ℕ
same_key k = k

-- The boost::multi_index queue: `push_back` of a new reference, and a move to the end.
unfoldable pub insert_to_queue : ℕ → Bool → List ℕ → List ℕ
insert_to_queue k is_new_entry q =
    let pushed = if has_record same_key k q then q else q ++ k ∷ [] in
    if is_new_entry then pushed else delete_record same_key k pushed ++ k ∷ []

-- `beforeErase` of each reference.
unfoldable pub forget : List ℕ → List ℕ → List ℕ
forget [] q = q
forget (k ∷ ks) q = forget ks (delete_record same_key k q)

-- `updateFreshUntil`, and `clearUnsolicited` for solicited Data.
unfoldable pub refresh : {N : Type 0} → ℕ → Bool → CsEntry N → CsEntry N
refresh now is_unsolicited e = record e {
  fresh_until = now + milliseconds e.data_packet.freshness_period;
  is_unsolicited = e.is_unsolicited && is_unsolicited;
}

-- What ndn-cxx says of packets.
pub record Names (N : Type 0) : Type 0 where
  pub full_name : Data N → ℕ
  pub less : ℕ → ℕ → Bool
  pub matches_data : Interest N → Data N → Bool
  pub no_cache : Data N → Bool
  pub has_prefix : N → Data N → Bool

module _ {N : Type 0} (x : Names N) where
  abbrev pub key_of : CsEntry N → ℕ
  key_of e = x.full_name e.data_packet

  unfoldable pub can_satisfy : ℕ → Interest N → CsEntry N → Bool
  can_satisfy now i e =
      if not (x.matches_data i e.data_packet)
      then false
      else if i.must_be_fresh && not (leb now e.fresh_until)
      then false
      else true

  -- std::set::emplace of an entry that is not there yet.
  unfoldable pub emplace : CsEntry N → List (CsEntry N) → List (CsEntry N)
  emplace e [] = e ∷ []
  emplace e (d ∷ ds) = if x.less (key_of e) (key_of d) then e ∷ d ∷ ds else d ∷ emplace e ds

  -- `evictEntries` of the policy, with the erasure that the signal beforeEvict makes.
  unfoldable pub evict : ℕ → List ℕ → List (CsEntry N) → List ℕ × List (CsEntry N)
  evict limit [] table = ([], table)
  evict limit (k ∷ q) table =
      if ltb limit (length table)
      then evict limit q (delete_record key_of k table)
      else (k ∷ q, table)

  unfoldable pub evict_entries : Cs N → Cs N
  unfolding evict
  evict_entries c = let (q, t) = evict c.limit c.queue c.table in record c { queue = q; table = t }

  unfoldable pub set_limit : ℕ → Cs N → Cs N
  unfolding evict_entries
  set_limit n c = evict_entries (record c { limit = n })

  unfoldable pub insert : ℕ → Data N → Bool → Cs N → Cs N
  unfolding refresh emplace evict_entries insert_to_queue
  insert now d is_unsolicited c =
      let k = x.full_name d in
      if not c.should_admit || c.limit == 0
      then c
      else if x.no_cache d
      then c
      else if has_record key_of k c.table
      then record c {
        table = modify_record key_of k (refresh now is_unsolicited) c.table;
        queue = insert_to_queue k false c.queue;
      }
      else evict_entries (record c {
        table =
            emplace
              (record {
                data_packet = d;
                is_unsolicited = is_unsolicited;
                fresh_until = now + milliseconds d.freshness_period;
              })
              c.table;
        queue = insert_to_queue k true c.queue;
      })

  -- The first entry in the prefix range that satisfies the Interest.
  unfoldable pub find_match : ℕ → Interest N → List (CsEntry N) → Option (CsEntry N)
  unfolding can_satisfy
  find_match now i [] = none
  find_match now i (e ∷ es) =
      if x.has_prefix i.name e.data_packet && can_satisfy now i e
      then some e
      else find_match now i es

  -- `findImpl`, with the store after `beforeUse`.
  unfoldable pub find : ℕ → Interest N → Cs N → Cs N × Option (Data N)
  unfolding find_match insert_to_queue
  find now i c =
      if not c.should_serve || c.limit == 0 then (c, none) else elim (find_match now i c.table) [
        | none ↦ (c, none)
        | some e ↦
            (record c { queue = insert_to_queue (key_of e) false c.queue }, some e.data_packet)
      ]

  -- The loop of `eraseImpl` over the table: what is left of the table, and the references erased.
  unfoldable pub erase_range : N → ℕ → List (CsEntry N) → List (CsEntry N) × List ℕ
  erase_range prefix n [] = ([], [])
  erase_range prefix zero (e ∷ es) = (e ∷ es, [])
  erase_range prefix (suc n) (e ∷ es) =
      if x.has_prefix prefix e.data_packet
      then (let r = erase_range prefix n es in (r.0, key_of e ∷ r.1))
      else (let r = erase_range prefix (suc n) es in (e ∷ r.0, r.1))

  -- `eraseImpl`, with the number of the erased entries.
  unfoldable pub erase : N → ℕ → Cs N → Cs N × ℕ
  unfolding erase_range forget
  erase prefix n c =
      let r = erase_range prefix n c.table in
      (record c { table = r.0; queue = forget r.1 c.queue }, length r.1)
