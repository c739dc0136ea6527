-- ===== src/Link/Budget.antt =====
-- Losses and retransmissions in daemon/face/lp-reliability.cpp stay within a budget.
use nfd_out_of_the_box.Prelude.{
  length-append, length, get_elem?, ℕ, ◌+◌, ◌%◌, ◌^◌, ◌≤◌, ◌<◌, ◌≡◌, refl, inl, inr, Bool, true,
  false, Option, none, some, List, [], ◌∷◌, ◌++◌, arith, leb, ◌==◌, if◌then◌else◌, Bool-cases, suc,
  ◌*◌, sym, ap, ◌∙◌, subst, not, Option-cases,
}
use nfd_out_of_the_box.Link.Reliability.{
  ReliabilityOptions, replace_in, is_among, find_at, new_unacked_frag, is_window_start, store_frag,
  LpPacket, modify_net_pkt, on_lp_packet_lost, retransmit_frag, give_up, delete_others, send_frags,
  assign_tx_sequence, NetPkt, delete_unacked_frag, erase_at, emplace_at, LpReliability, UnackedFrag,
}
use nfd_out_of_the_box.Link.Remaining.{
  moved-retx_left, emplace_at-IsAscending, erase_at-IsAscending, retx_left, emplace_at-retx_left,
  erase_at-retx_left, IsAscending,
}

below : (a b m : ℕ) → a ≡ m → leb a b ≡ false → b < m
below a b m h e = ground arith

-- A predicate of the result that is there.
abbrev pub OnSome : {A : Type 0} → (A → Type 0) → Option A → Type 0
OnSome P none = Unit {0}
OnSome P (some x) = P x

pub bind-OnSome :
    {A B : Type 0} (P : B → Type 0) (Q : A → Type 0) (o : Option B) (f : B → Option A)
    → OnSome P o
    → ((z : B) → P z → OnSome Q (f z))
    → OnSome Q (elim o [ none ↦ none | some z ↦ f z ])
bind-OnSome P Q none f w g = tt
bind-OnSome P Q (some z) f w g = g z w

pub option-OnSome :
    {A B : Type 0} (Q : A → Type 0) (o : Option B) (f : B → Option A)
    → ((z : B) → o ≡ some z → OnSome Q (f z))
    → OnSome Q (elim o [ none ↦ none | some z ↦ f z ])
option-OnSome Q none f g = tt
option-OnSome Q (some z) f g = g z refl

pub if-OnSome :
    {A : Type 0} (Q : A → Type 0) (c : Bool) (o p : Option A)
    → OnSome Q o
    → (c ≡ false → OnSome Q p)
    → OnSome Q (if c then o else p)
if-OnSome Q true o p g h = g
if-OnSome Q false o p g h = h refl

one_more : (m b n : ℕ) → (b + m) + m * n ≡ b + m * suc n
one_more b n = omega arith

module _ {H : Type 0} (m b : ℕ) where
  -- The retransmissions so far and those that are left are within the budget `b`.
  abbrev pub IsWithin : LpReliability H → Type 0
  IsWithin s =
      (s.options.max_retx ≡ m)
      × IsAscending s.unacked_frags
      × (length s.sent + retx_left m s.unacked_frags ≤ b)

  pub delete_unacked_frag-IsWithin :
      (k : ℕ) (s : LpReliability H) → IsWithin s → IsWithin (delete_unacked_frag k s)
  unfolding delete_unacked_frag
  delete_unacked_frag-IsWithin k s w =
      let e = erase_at-retx_left m k s.unacked_frags in
      let l = w.2 in (w.0, erase_at-IsAscending k s.unacked_frags w.1, omega (arith, e, l))

  pub option-IsWithin :
      {A : Type 0} (o : Option A) (a : LpReliability H) (f : A → LpReliability H)
      → IsWithin a
      → ((z : A) → IsWithin (f z))
      → IsWithin (elim o [ none ↦ a | some z ↦ f z ])
  option-IsWithin none a f w g = w
  option-IsWithin (some z) a f w g = g z

  modify_net_pkt-IsWithin :
      (i : ℕ) (u : NetPkt H → NetPkt H) (s : LpReliability H)
      → IsWithin s
      → IsWithin (modify_net_pkt i u s)
  modify_net_pkt-IsWithin i u s w = option-IsWithin (get_elem? s.net_pkts i) _ _ w (λ n. w)

  abbrev pub IsSafe : {A : Type 0} → Option (A × LpReliability H) → Type 0
  IsSafe o = OnSome (λ x. IsWithin x.1) o

  abbrev pub IsSafeState : Option (LpReliability H) → Type 0
  IsSafeState o = OnSome IsWithin o

  -- The sequence that is assigned leaves the map of fragments alone.
  abbrev IsAssigned : LpReliability H → LpPacket H × LpReliability H → Type 0
  IsAssigned s z = IsWithin z.1 × (z.1.unacked_frags ≡ s.unacked_frags)

  assign_tx_sequence-IsAssigned :
      (p : LpPacket H) (s : LpReliability H)
      → IsWithin s
      → OnSome (IsAssigned s) (assign_tx_sequence p s)
  unfolding assign_tx_sequence
  assign_tx_sequence-IsAssigned p s w =
      if-OnSome (IsAssigned s)
        (is_window_start ((s.last_tx_seq_no + 1) % 2 ^ 64) s.first_unacked_frag) none (some (_, _))
        tt (λ e. (w, refl))

module _ {H : Type 0} (m : ℕ) where
  -- The parts of the state that the bound is about.
  abbrev AreKept : LpReliability H → LpReliability H → Type 0
  AreKept s t = (t.options ≡ s.options) × (t.unacked_frags ≡ s.unacked_frags) × (t.sent ≡ s.sent)

  modify_net_pkt-AreKept :
      (i : ℕ) (u : NetPkt H → NetPkt H) (s : LpReliability H) → AreKept s (modify_net_pkt i u s)
  modify_net_pkt-AreKept i u s = elim (Option-cases (get_elem? s.net_pkts i)) [
    | inl e ↦ rw (e, modify_net_pkt) (refl, refl, refl)
    | inr (n, e) ↦ rw (e, modify_net_pkt) (refl, refl, refl)
  ]

  -- A new fragment has all its retransmissions left.
  stored-IsWithin :
      (b k : ℕ) (f : UnackedFrag H) (s : LpReliability H)
      → IsWithin m b s
      → IsWithin m (b + m) (store_frag k f s)
  unfolding store_frag
  stored-IsWithin b k f s w =
      let e = emplace_at-retx_left m k f s.unacked_frags in
      let l = w.2 in (w.0, emplace_at-IsAscending k f s.unacked_frags w.1, omega (arith, e, l))

  pub send_frags-IsSafe :
      (estimated_rto : List ℕ → ℕ) (now net b : ℕ) (ps : List (LpPacket H)) (s : LpReliability H)
      → IsWithin m b s
      → IsSafe m (b + m * length ps) (send_frags estimated_rto now net ps s)
  unfolding send_frags
  send_frags-IsSafe estimated_rto now net b [] s w = let l = w.2 in (w.0, w.1, omega (arith, l))
  send_frags-IsSafe estimated_rto now net b (p ∷ ps) s w =
      let within : List (LpPacket H) × LpReliability H → Type 0 =
        λ x. IsWithin m (b + m * length (p ∷ ps)) x.1 in
      bind-OnSome (IsAssigned m b s) within (assign_tx_sequence p s) _
        (assign_tx_sequence-IsAssigned m b p s w)
        (λ z v.
          let k = z.1.last_tx_seq_no in
          let f = new_unacked_frag z.0 now (estimated_rto z.1.rtt_measurements) 0 net in
          let u : NetPkt H → NetPkt H =
            λ n. record n { unacked_frags = n.unacked_frags ++ k ∷ [] } in
          let s2 : LpReliability H = modify_net_pkt net u (store_frag k f z.1) in
          let stored : IsWithin m (b + m) s2 =
            modify_net_pkt-IsWithin m (b + m) net u (store_frag k f z.1)
              (stored-IsWithin b k f z.1 v.0) in
          let rest : IsSafe m (b + m * suc (length ps)) (send_frags estimated_rto now net ps s2) =
            subst (λ c. IsSafe m c (send_frags estimated_rto now net ps s2))
              (one_more m b (length ps))
              (send_frags-IsSafe estimated_rto now net (b + m) ps s2 stored) in
          bind-OnSome within within (send_frags estimated_rto now net ps s2) _ rest (λ y g. g))

module _ {H : Type 0} (m b : ℕ) (estimated_rto : List ℕ → ℕ) where
  delete_others-IsWithin :
      (k : ℕ) (js : List ℕ) (s : LpReliability H)
      → IsWithin m b s
      → IsWithin m b (delete_others estimated_rto k js s).1
  unfolding delete_others
  delete_others-IsWithin k [] s w = w
  delete_others-IsWithin k (j ∷ js) s w = elim (Bool-cases (j == k)) [
    | inl h ↦ rw h (delete_others-IsWithin k js s w)
    | inr h ↦ rw h (delete_others-IsWithin k js _ (delete_unacked_frag-IsWithin m b j s w))
  ]

  give_up-IsWithin :
      (k : ℕ) (f : UnackedFrag H) (net : NetPkt H) (s : LpReliability H)
      → IsWithin m b s
      → IsWithin m b (give_up estimated_rto k f net s).1
  unfolding give_up
  give_up-IsWithin k f net s w =
      delete_unacked_frag-IsWithin m b k _ (delete_others-IsWithin k net.unacked_frags s w)

  retransmit_frag-IsSafe :
      (now k : ℕ) (f : UnackedFrag H) (net : NetPkt H) (s : LpReliability H)
      → find_at k s.unacked_frags ≡ some f
      → f.retx_count < m
      → IsWithin m b s
      → IsSafe m b (retransmit_frag estimated_rto now k f net s)
  unfolding retransmit_frag delete_unacked_frag
  retransmit_frag-IsSafe now k f net s e l w =
      bind-OnSome (IsAssigned m b s) (λ x. IsWithin m b x.1) (assign_tx_sequence f.pkt s) _
        (assign_tx_sequence-IsAssigned m b f.pkt s w)
        (λ z v.
          let j = z.1.last_tx_seq_no in
          let again =
            new_unacked_frag z.0 now (estimated_rto z.1.rtt_measurements) (f.retx_count + 1)
              f.net_pkt in
          let s2 = record (z.1) { unacked_frags = emplace_at j again z.1.unacked_frags } in
          let u : NetPkt H → NetPkt H =
            λ n. record n { unacked_frags = replace_in k j n.unacked_frags; did_retx = true } in
          let s3 = modify_net_pkt f.net_pkt u s2 in
          let (o, q, r) = modify_net_pkt-AreKept m f.net_pkt u s2 in
          let found : find_at k z.1.unacked_frags ≡ some f = ap (find_at k) v.1 ∙ e in
          let moved = moved-retx_left m k j f again z.1.unacked_frags v.0.1 found l refl in
          let spent : retx_left m (erase_at k s3.unacked_frags) + 1
              ≤ retx_left m z.1.unacked_frags =
            subst (λ xs. retx_left m (erase_at k xs) + 1 ≤ retx_left m z.1.unacked_frags) (sym q)
              moved in
          let longer = length-append s3.sent (z.0 ∷ []) ∙ ap (λ xs. length xs + 1) r in
          let budget = v.0.2 in
          if-OnSome (λ x. IsWithin m b x.1) (not (is_among k net.unacked_frags)) none (some (_, _))
            tt
            (λ h. (
              ap (λ (c : ReliabilityOptions). c.max_retx) o ∙ v.0.0,
              erase_at-IsAscending k s3.unacked_frags (
                  subst IsAscending (sym q)
                    (emplace_at-IsAscending j again z.1.unacked_frags v.0.1)),
              omega (arith, spent, longer, budget),
            )))

  pub on_lp_packet_lost-IsSafe :
      (now k : ℕ) (s : LpReliability H)
      → IsWithin m b s
      → IsSafe m b (on_lp_packet_lost estimated_rto now k s)
  unfolding on_lp_packet_lost
  on_lp_packet_lost-IsSafe now k s w =
      option-OnSome (λ x. IsWithin m b x.1) (find_at k s.unacked_frags) _
        (λ f found.
          option-OnSome (λ x. IsWithin m b x.1) (get_elem? s.net_pkts f.net_pkt) _
            (λ net there.
              if-OnSome (λ x. IsWithin m b x.1) (leb s.options.max_retx f.retx_count) _ _
                (give_up-IsWithin k f net s w)
                (λ e.
                  retransmit_frag-IsSafe now k f net s found
                    (below s.options.max_retx f.retx_count m w.0 e) w)))
