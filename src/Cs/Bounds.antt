-- ===== src/Cs/Bounds.antt =====
-- The Content Store keeps within its limit, and its queue holds exactly the entries of its table.
use nfd_out_of_the_box.Packet.{milliseconds, Interest, Data}
use nfd_out_of_the_box.Pit.Records.{has_record, modify_record, delete_record}
use nfd_out_of_the_box.Pit.Distinct.{IsDistinct, delete_record-IsDistinct, modify_record-IsDistinct}
use nfd_out_of_the_box.Cs.{
  find, find_match, insert, refresh, emplace, insert_to_queue, set_limit, evict_entries, evict, Cs,
  CsEntry, Names, key_of, same_key,
}
use nfd_out_of_the_box.Cs.Keys.{
  has_record-snoc, length-modify_record, has_record-modified, snoc-IsDistinct, length-delete_record,
  has_record-delete_record,
}
use nfd_out_of_the_box.Prelude.{
  length-append, length, ℕ, suc, ◌+◌, ◌≤◌, ◌≡◌, refl, sym, ◌∙◌, inl, inr, Bool, true, false, not,
  ◌||◌, some, List, [], ◌∷◌, arith, ltb, ◌==◌, Bool-cases, Option-cases,
}

module _ {N : Type 0} (x : Names N) where
  -- A queue and a table of the same keys, each key once in each.
  pub record IsPaired (q : List ℕ) (t : List (CsEntry N)) : Type 0 where
    pub queued : IsDistinct same_key q
    pub tabled : IsDistinct (key_of x) t
    pub same : (k : ℕ) → has_record same_key k q ≡ has_record (key_of x) k t
    pub counts : length q ≡ length t

  abbrev pub IsValid : Cs N → Type 0
  IsValid c = IsPaired c.queue c.table × (length c.table ≤ c.limit)

  -- The front of the queue and its entry, taken away together.
  pub IsPaired-pop :
      (k : ℕ) (q : List ℕ) (t : List (CsEntry N))
      → IsPaired (k ∷ q) t
      → IsPaired q (delete_record (key_of x) k t)
        × (suc (length (delete_record (key_of x) k t)) ≡ length t)
  unfolding has_record
  IsPaired-pop k q t p =
      let there : has_record (key_of x) k t ≡ true = sym (p.same k) ∙ ground arith in
      let shorter = length-delete_record (key_of x) k t there in
      (
        record {
          queued = p.queued.1;
          tabled = delete_record-IsDistinct (key_of x) k t p.tabled;
          same = λ g.
              let new = p.queued.0 in
              ground (arith, p.same g, has_record-delete_record (key_of x) k g t p.tabled);
          counts = let c = p.counts in omega (arith, shorter);
        },
        shorter,
      )

  -- The loop of the eviction ends with the table within the limit.
  evict-IsPaired :
      (limit : ℕ) (q : List ℕ) (t : List (CsEntry N))
      → IsPaired q t
      → IsPaired (evict x limit q t).0 (evict x limit q t).1
        × (length (evict x limit q t).1 ≤ limit)
  unfolding evict
  evict-IsPaired limit [] t p = (p, (let c = p.counts in omega arith))
  evict-IsPaired limit (k ∷ q) t p = elim (Bool-cases (ltb limit (length t))) [
    | inl over ↦
        rw (over, evict)
          (evict-IsPaired limit q (delete_record (key_of x) k t) (IsPaired-pop k q t p).0)
    | inr within ↦ rw (within, evict) (p, ground arith)
  ]

  pub evict_entries-IsValid : (c : Cs N) → IsPaired c.queue c.table → IsValid (evict_entries x c)
  unfolding evict_entries
  evict_entries-IsValid c p = evict-IsPaired c.limit c.queue c.table p

  -- The limit may change at any time: the eviction that follows restores the bound.
  pub set_limit-IsValid : (n : ℕ) (c : Cs N) → IsValid c → IsValid (set_limit x n c)
  unfolding set_limit
  set_limit-IsValid n c v = evict_entries-IsValid (record c { limit = n }) v.0

  -- A use or a refresh moves a key of the queue to its end.
  moved-IsPaired :
      (k : ℕ) (q : List ℕ) (t : List (CsEntry N))
      → has_record (key_of x) k t ≡ true
      → IsPaired q t
      → IsPaired (insert_to_queue k false q) t
  unfolding insert_to_queue
  moved-IsPaired k q t there p =
      let queued : has_record same_key k q ≡ true = p.same k ∙ there in
      let gone : has_record same_key k (delete_record same_key k q) ≡ false =
        ground (arith, has_record-delete_record same_key k k q p.queued) in
      rw queued (record {
        queued =
            snoc-IsDistinct same_key k (delete_record same_key k q) gone
              (delete_record-IsDistinct same_key k q p.queued);
        tabled = p.tabled;
        same = λ g. ground (
          arith,
          p.same g,
          has_record-snoc same_key g k (delete_record same_key k q),
          has_record-delete_record same_key k g q p.queued,
        );
        counts =
            let c = p.counts in
            omega (
              arith,
              length-append (delete_record same_key k q) (k ∷ []),
              length-delete_record same_key k q queued,
            );
      })

  has_record-emplace :
      (g : ℕ) (e : CsEntry N) (t : List (CsEntry N))
      → has_record (key_of x) g (emplace x e t) ≡ key_of x e == g || has_record (key_of x) g t
  unfolding emplace has_record
  has_record-emplace g e [] = refl
  has_record-emplace g e (d ∷ ds) = ground (arith, has_record-emplace g e ds)

  length-emplace : (e : CsEntry N) (t : List (CsEntry N)) → length (emplace x e t) ≡ suc (length t)
  unfolding emplace
  length-emplace e [] = refl
  length-emplace e (d ∷ ds) = ground (arith, length-emplace e ds)

  emplace-IsDistinct :
      (e : CsEntry N) (t : List (CsEntry N))
      → has_record (key_of x) (key_of x e) t ≡ false
      → IsDistinct (key_of x) t
      → IsDistinct (key_of x) (emplace x e t)
  unfolding emplace has_record
  emplace-IsDistinct e [] new d = (refl, tt)
  emplace-IsDistinct e (f ∷ fs) new d = elim (Bool-cases (x.less (key_of x e) (key_of x f))) [
    | inl before ↦ rw (before, emplace) (new, d)
    | inr after ↦
        rw (after, emplace)
          (
            ground (arith, has_record-emplace (key_of x f) e fs),
            emplace-IsDistinct e fs (ground arith) d.1,
          )
  ]

  -- A new entry with its key at the end of the queue.
  pub emplaced-IsPaired :
      (e : CsEntry N) (q : List ℕ) (t : List (CsEntry N))
      → has_record (key_of x) (key_of x e) t ≡ false
      → IsPaired q t
      → IsPaired (insert_to_queue (key_of x e) true q) (emplace x e t)
  unfolding insert_to_queue
  emplaced-IsPaired e q t new p =
      let unqueued : has_record same_key (key_of x e) q ≡ false = p.same (key_of x e) ∙ new in
      rw unqueued (record {
        queued = snoc-IsDistinct same_key (key_of x e) q unqueued p.queued;
        tabled = emplace-IsDistinct e t new p.tabled;
        same = λ g.
            ground (
              arith,
              p.same g,
              has_record-snoc same_key g (key_of x e) q,
              has_record-emplace g e t,
            );
        counts =
            let c = p.counts in
            omega (arith, length-append q (key_of x e ∷ []), length-emplace e t);
      })

  refreshed-IsPaired :
      (k now : ℕ) (u : Bool) (q : List ℕ) (t : List (CsEntry N))
      → IsPaired q t
      → IsPaired q (modify_record (key_of x) k (refresh now u) t)
  unfolding refresh
  refreshed-IsPaired k now u q t p = record {
    queued = p.queued;
    tabled = modify_record-IsDistinct (key_of x) k (refresh now u) t (λ r. refl) p.tabled;
    same = λ g. p.same g ∙ sym (has_record-modified (key_of x) k g (refresh now u) t (λ r. refl));
    counts = p.counts ∙ sym (length-modify_record (key_of x) k (refresh now u) t);
  }

  -- In a valid Content Store the queue has the keys of the table, each once, and the table is
  -- within the limit. Inserting Data, solicited or not, known or new, keeps the store valid.
  pub insert-IsValid :
      (now : ℕ) (d : Data N) (u : Bool) (c : Cs N) → IsValid c → IsValid (insert x now d u c)
  unfolding insert
  insert-IsValid now d u c v = elim (Bool-cases (not c.should_admit || c.limit == 0)) [
    | inl off ↦ rw (off, insert) v
    | inr on ↦ elim (Bool-cases (x.no_cache d)) [
      | inl refused ↦ rw (on, insert, refused) v
      | inr taken ↦ elim (Bool-cases (has_record (key_of x) (x.full_name d) c.table)) [
        | inl known ↦
            rw (on, insert, taken, known)
              (
                refreshed-IsPaired (x.full_name d) now u
                    (insert_to_queue (x.full_name d) false c.queue) c.table
                    (moved-IsPaired (x.full_name d) c.queue c.table known v.0),
                (let l = length-modify_record (key_of x) (x.full_name d) (refresh now u) c.table in
                    let within = v.1 in omega (arith, l)),
              )
        | inr new ↦
            let e : CsEntry N = record {
              data_packet = d;
              is_unsolicited = u;
              fresh_until = now + milliseconds d.freshness_period;
            } in
            rw (on, insert, taken, new)
              (evict_entries-IsValid
                (record c {
                  table = emplace x e c.table;
                  queue = insert_to_queue (x.full_name d) true c.queue;
                })
                (emplaced-IsPaired e c.queue c.table new v.0))
      ]
    ]
  ]

  find_match-has_record :
      (now : ℕ) (i : Interest N) (t : List (CsEntry N)) (e : CsEntry N)
      → find_match x now i t ≡ some e
      → has_record (key_of x) (key_of x e) t ≡ true
  unfolding find_match has_record
  find_match-has_record now i [] e h = absurd (cc)
  find_match-has_record now i (f ∷ fs) e h = ground (arith, find_match-has_record now i fs e)

  -- A lookup keeps the store valid too, whether it hits or misses.
  pub find-IsValid : (now : ℕ) (i : Interest N) (c : Cs N) → IsValid c → IsValid (find x now i c).0
  unfolding find
  find-IsValid now i c v = elim (Bool-cases (not c.should_serve || c.limit == 0)) [
    | inl off ↦ rw (off, find) v
    | inr on ↦ elim (Option-cases (find_match x now i c.table)) [
      | inl miss ↦ rw (on, find, miss) v
      | inr (e, hit) ↦
          rw (on, find, hit)
            (
              moved-IsPaired (key_of x e) c.queue c.table
                  (find_match-has_record now i c.table e hit) v.0,
              v.1,
            )
    ]
  ]
