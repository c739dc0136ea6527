-- ===== src/Cs/Recency.antt =====
-- The Data last inserted stays: the policy evicts from the front of its queue.
use nfd_out_of_the_box.Packet.{milliseconds, Data}
use nfd_out_of_the_box.Pit.Records.{has_record, delete_record}
use nfd_out_of_the_box.Cs.{
  emplace, insert_to_queue, evict_entries, refresh, insert, evict, Cs, CsEntry, Names, key_of,
  same_key,
}
use nfd_out_of_the_box.Cs.Keys.{has_record-snoc, has_record-modified}
use nfd_out_of_the_box.Cs.Bounds.{IsPaired, IsPaired-pop, IsValid, emplaced-IsPaired}
use nfd_out_of_the_box.Prelude.{
  length, ℕ, ◌+◌, ◌<◌, ◌≡◌, refl, sym, ◌∙◌, inl, inr, Bool, true, false, not, ◌||◌, List, [], ◌∷◌,
  ◌++◌, arith, ltb, ◌==◌, Bool-cases,
}

module _ {N : Type 0} (x : Names N) where
  evict-last :
      (front : List ℕ) (limit k : ℕ) (t : List (CsEntry N))
      → 0 < limit
      → IsPaired x (front ++ k ∷ []) t
      → has_record (key_of x) k (evict x limit (front ++ k ∷ []) t).1 ≡ true
  unfolding evict has_record
  evict-last [] limit k t room p =
      let fits : ltb limit (length t) ≡ false = (let c = p.counts in ground arith) in
      rw (fits, evict) (sym (p.same k) ∙ ground arith)
  evict-last (j ∷ js) limit k t room p = elim (Bool-cases (ltb limit (length t))) [
    | inl over ↦
        rw (over, evict)
          (evict-last js limit k (delete_record (key_of x) j t) room
            (IsPaired-pop x j (js ++ k ∷ []) t p).0)
    | inr within ↦
        rw (within, evict) (sym (p.same k) ∙ ground (arith, has_record-snoc same_key k k js))
  ]

  -- Where a valid store admits Data, has room for some, and the Data may be cached, the Data is in
  -- the table after it has been inserted, whatever has been evicted for it.
  pub insert-has_record :
      (now : ℕ) (d : Data N) (u : Bool) (c : Cs N)
      → IsValid x c
      → c.should_admit ≡ true
      → 0 < c.limit
      → x.no_cache d ≡ false
      → has_record (key_of x) (x.full_name d) (insert x now d u c).table ≡ true
  unfolding insert
  insert-has_record now d u c v admits room caches =
      let on : (not c.should_admit || c.limit == 0) ≡ false = ground arith in
      elim (Bool-cases (has_record (key_of x) (x.full_name d) c.table)) [
        | inl known ↦
            rw (on, insert, caches, known)
              (has_record-modified (key_of x) (x.full_name d) (x.full_name d) (refresh now u)
                  c.table (λ r. unfold refresh in refl)
                ∙ known)
        | inr new ↦
            let e : CsEntry N = record {
              data_packet = d;
              is_unsolicited = u;
              fresh_until = now + milliseconds d.freshness_period;
            } in
            let unqueued : has_record same_key (x.full_name d) c.queue ≡ false =
              v.0.same (x.full_name d) ∙ new in
            let appended : insert_to_queue (x.full_name d) true c.queue
                ≡ c.queue ++ x.full_name d ∷ [] =
              unfold insert_to_queue in rw unqueued refl in
            let pair : IsPaired x (c.queue ++ x.full_name d ∷ []) (emplace x e c.table) =
              rw appended at (emplaced-IsPaired x e c.queue c.table new v.0) in
            rw (on, insert, caches, new, appended)
              (unfold evict_entries in
                evict-last c.queue c.limit (x.full_name d) (emplace x e c.table) room pair)
      ]
