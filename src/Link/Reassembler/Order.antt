-- ===== src/Link/Reassembler/Order.antt =====
-- The fragments of one message, delivered in any order before the drop timer runs out, give the
-- message back.
use nfd_out_of_the_box.Link.Packets.{Packet, empty_packet}
use nfd_out_of_the_box.Link.Reassembler.{
  is_due, run_timers, Options, PartialPacket, Key, value_or, find, put, erase, do_reassembly,
  has_sequence, get_or, partial_packet, add_fragment, receive_fragment,
}
use nfd_out_of_the_box.Link.Reassembler.Slots.{
  Agree, received, Agree-replicate, Agree-set, Agree-length, received-set, get_or-set_ne,
  Agree-full, AreSent, AreSent-get_or,
}
use nfd_out_of_the_box.Prelude.{
  length-set, replicate, set, length, ℕ, zero, suc, ◌+◌, ◌-◌, ◌%◌, ◌^◌, ◌≤◌, ◌<◌, ◌≡◌, refl, sym,
  ap, ◌∙◌, ◌≢◌, true, false, not, ◌&&◌, Option, none, some, List, [], ◌∷◌, arith, ltb, leb, ◌==◌,
}
use nfd_out_of_the_box.Link.Reassembler.Timers.{find-run_timers}

module _ {H : Type 0} where
  abbrev or_result :
      (List (Key × PartialPacket H) → List (Key × PartialPacket H) × Option (List ℕ × Packet H))
      → List (Key × PartialPacket H) × Option (List ℕ × Packet H)
      → List (Key × PartialPacket H) × Option (List ℕ × Packet H)
  or_result k (m, none) = k m
  or_result k (m, some r) = (m, some r)

  -- Fragments received one after the other, each at its time, until a packet is complete. The drop timers
  -- that have run out by then fire first.
  abbrev pub deliver :
      Options
      → ℕ
      → List (Packet H)
      → List (ℕ × ℕ)
      → List (Key × PartialPacket H)
      → List (Key × PartialPacket H) × Option (List ℕ × Packet H)
  deliver o endpoint fs [] m = (m, none)
  deliver o endpoint fs ((now, i) ∷ rest) m =
      or_result (deliver o endpoint fs rest)
        (receive_fragment o now endpoint (get_or fs i) (run_timers now m))

-- No entry of the order is the fragment `i`.
abbrev pub Avoids : ℕ → List (ℕ × ℕ) → Type 0
Avoids i [] = Unit {0}
Avoids i ((now, j) ∷ rest) = (i ≢ j) × Avoids i rest

-- Distinct numbers of fragments.
abbrev pub IsOrder : ℕ → List (ℕ × ℕ) → Type 0
IsOrder n [] = Unit {0}
IsOrder n ((now, i) ∷ rest) = (i < n) × Avoids i rest × IsOrder n rest

-- Each fragment comes before the drop timer that the one before it has set.
abbrev pub IsTimelyAfter : ℕ → ℕ → List (ℕ × ℕ) → Type 0
IsTimelyAfter timeout before [] = Unit {0}
IsTimelyAfter timeout before ((now, i) ∷ rest) =
    (now < before + timeout) × IsTimelyAfter timeout now rest

abbrev pub IsTimely : ℕ → List (ℕ × ℕ) → Type 0
IsTimely timeout [] = Unit {0}
IsTimely timeout ((now, i) ∷ rest) = IsTimelyAfter timeout now rest

module _ {H : Type 0} where
  find-put :
      (k : Key) (pp : PartialPacket H) (m : List (Key × PartialPacket H))
      → find k (put k pp m) ≡ some pp
  unfolding find put
  find-put k pp [] = ground arith
  find-put k pp ((j, qq) ∷ m) = ground (arith, find-put k pp m)

module _ {H : Type 0} (o : Options) (endpoint message : ℕ) (fs : List (Packet H))
    (several : 2 ≤ length fs) (limit : length fs ≤ o.n_max_fragments)
    (sent : AreSent (length fs) 0 message fs) where
  abbrev key : Key
  key = record { endpoint = endpoint; message = message }

  pp_of : List (Key × PartialPacket H) → PartialPacket H
  pp_of m = partial_packet key (length fs) m

  record Progress (pp : PartialPacket H) : Type 0 where
    agree : Agree pp.fragments fs
    count : pp.frag_count ≡ length fs
    counted : pp.n_received_fragments ≡ received pp.fragments

  pp_of-fresh :
      (m : List (Key × PartialPacket H))
      → find key m ≡ none
      → pp_of m ≡ record {
        fragments = replicate (length fs) empty_packet;
        frag_count = length fs;
        n_received_fragments = 0;
        drop_timer = none;
      }
  unfolding pp_of partial_packet
  pp_of-fresh m e = rw (e, pp_of, partial_packet)

  begin : (m : List (Key × PartialPacket H)) → find key m ≡ none → Progress (pp_of m)
  begin m e =
      let (a, r) = Agree-replicate fs in
      rw (pp_of-fresh m e) (record { agree = a; count = refl; counted = sym r })

  receive-add :
      (now i : ℕ) (m : List (Key × PartialPacket H))
      → i < length fs
      → receive_fragment o now endpoint (get_or fs i) m
        ≡ add_fragment o now key i (length fs) (get_or fs i) m
  unfolding receive_fragment
  receive-add now i m lt =
      let (index, count, (s, seq, e)) = AreSent-get_or fs (length fs) 0 message i sent lt in
      let zero_i : 0 + i ≡ i = omega arith in
      let index' : (get_or fs i).frag_index ≡ some i = rw zero_i at index in
      let e' : (s + 2 ^ 64 - i) % 2 ^ 64 ≡ message = rw zero_i at e in
      let t1 : leb (length fs) i ≡ false = ground arith in
      let t2 : ltb o.n_max_fragments (length fs) ≡ false = ground arith in
      let t3 : (i == 0 && length fs == 1) ≡ false = ground arith in
      let v0 : value_or 0 (get_or fs i).frag_index ≡ i = rw (index', value_or) in
      let v1 : value_or 1 (get_or fs i).frag_count ≡ length fs = rw (count, value_or) in
      rw (seq, v0, v1, t1, t2, t3, e')

  sent_sequence : (i : ℕ) → i < length fs → has_sequence (get_or fs i) ≡ true
  sent_sequence i lt =
      let (_, _, (s, seq, e)) = AreSent-get_or fs (length fs) 0 message i sent lt in
      rw (seq, has_sequence)

  filled-full :
      (i : ℕ) (m : List (Key × PartialPacket H))
      → Progress (pp_of m)
      → i < length fs
      → has_sequence (get_or (pp_of m).fragments i) ≡ false
      → received (pp_of m).fragments + 1 ≡ length fs
      → set (pp_of m).fragments i (get_or fs i) ≡ fs
  filled-full i m p lt fresh last =
      let same = Agree-length (pp_of m).fragments fs p.agree in
      Agree-full _ fs (Agree-set (pp_of m).fragments fs i p.agree) (
        omega (
          arith,
          received-set (pp_of m).fragments i (get_or fs i) (omega arith) fresh (sent_sequence i lt),
          length-set (pp_of m).fragments i (get_or fs i),
        ))

  -- The next state after a fragment that is not the last.
  next : ℕ → ℕ → List (Key × PartialPacket H) → PartialPacket H
  next now i m = record {
    fragments = set (pp_of m).fragments i (get_or fs i);
    frag_count = (pp_of m).frag_count;
    n_received_fragments = (pp_of m).n_received_fragments + 1;
    drop_timer = some (now + o.reassembly_timeout);
  }

  add_fragment-more :
      (now i : ℕ) (m : List (Key × PartialPacket H))
      → Progress (pp_of m)
      → has_sequence (get_or (pp_of m).fragments i) ≡ false
      → received (pp_of m).fragments + 1 ≢ length fs
      → add_fragment o now key i (length fs) (get_or fs i) m ≡ (put key (next now i m) m, none)
  unfolding add_fragment next pp_of
  add_fragment-more now i m p fresh more =
      let c = p.count in
      let d = p.counted in
      let t1 : not (length fs == (partial_packet key (length fs) m).frag_count) ≡ false =
        ground arith in
      let t2 : ((partial_packet key (length fs) m).n_received_fragments + 1
            == (partial_packet key (length fs) m).frag_count)
          ≡ false =
        ground arith in
      rw (t1, fresh, t2)

  add_fragment-last :
      (now i : ℕ) (m : List (Key × PartialPacket H))
      → Progress (pp_of m)
      → i < length fs
      → has_sequence (get_or (pp_of m).fragments i) ≡ false
      → received (pp_of m).fragments + 1 ≡ length fs
      → add_fragment o now key i (length fs) (get_or fs i) m
        ≡ (erase key m, some (do_reassembly fs, get_or fs 0))
  unfolding add_fragment pp_of
  add_fragment-last now i m p lt fresh last =
      let c = p.count in
      let d = p.counted in
      let t1 : not (length fs == (partial_packet key (length fs) m).frag_count) ≡ false =
        ground arith in
      let t2 : ((partial_packet key (length fs) m).n_received_fragments + 1
            == (partial_packet key (length fs) m).frag_count)
          ≡ true =
        ground arith in
      let full : set (partial_packet key (length fs) m).fragments i (get_or fs i) ≡ fs =
        filled-full i m p lt fresh last in
      rw (t1, fresh, t2, full)

  -- The fragments that are still to come are not there yet, and with those that are there they are
  -- all.
  abbrev Missing : List (ℕ × ℕ) → List (Packet H) → Type 0
  Missing [] ss = Unit {0}
  Missing ((now, i) ∷ rest) ss = (has_sequence (get_or ss i) ≡ false) × Missing rest ss

  Missing-set :
      (rest : List (ℕ × ℕ)) (ss : List (Packet H)) (i : ℕ) (f : Packet H)
      → Avoids i rest
      → Missing rest ss
      → Missing rest (set ss i f)
  Missing-set [] ss i f av h = tt
  Missing-set ((now, j) ∷ rest) ss i f av h =
      (rw (get_or-set_ne ss i j f av.0) h.0, Missing-set rest ss i f av.1 h.1)

  next-Progress :
      (now i : ℕ) (m : List (Key × PartialPacket H))
      → Progress (pp_of m)
      → i < length fs
      → has_sequence (get_or (pp_of m).fragments i) ≡ false
      → Progress (next now i m)
        × (received (next now i m).fragments ≡ received (pp_of m).fragments + 1)
  unfolding next
  next-Progress now i m p lt fresh =
      let c = p.counted in
      let same = Agree-length (pp_of m).fragments fs p.agree in
      let r =
        received-set (pp_of m).fragments i (get_or fs i) (omega arith) fresh (sent_sequence i lt) in
      (
        record {
          agree = Agree-set (pp_of m).fragments fs i p.agree;
          count = p.count;
          counted = omega (arith, r);
        },
        r,
      )

  pp_of-put : (pp : PartialPacket H) (m : List (Key × PartialPacket H)) → pp_of (put key pp m) ≡ pp
  unfolding pp_of partial_packet
  pp_of-put pp m = rw (find-put key pp m, pp_of, partial_packet)

  next-fragments :
      (now i : ℕ) (m : List (Key × PartialPacket H))
      → (next now i m).fragments ≡ set (pp_of m).fragments i (get_or fs i)
  unfolding next
  next-fragments now i m = refl

  -- The state in which the next fragment finds the reassembler.
  record IsReady (now : ℕ) (order : List (ℕ × ℕ)) (m : List (Key × PartialPacket H)) : Type 0 where
    idle : is_due now (find key m) ≡ false
    progress : Progress (pp_of m)
    missing : Missing order (pp_of m).fragments
    all : received (pp_of m).fragments + length order ≡ length fs

  pp_of-find : (m m' : List (Key × PartialPacket H)) → find key m ≡ find key m' → pp_of m ≡ pp_of m'
  unfolding pp_of partial_packet
  pp_of-find m m' e = rw (e, pp_of, partial_packet) refl

  -- The timers that have run out do not touch the message.
  IsReady-run_timers :
      (now : ℕ) (order : List (ℕ × ℕ)) (m : List (Key × PartialPacket H))
      → IsReady now order m
      → IsReady now order (run_timers now m)
  IsReady-run_timers now order m r =
      let e = find-run_timers now key m r.idle in
      let same = pp_of-find (run_timers now m) m e in
      record {
        idle = ap (is_due now) e ∙ r.idle;
        progress = rw same r.progress;
        missing = rw same r.missing;
        all = rw same r.all;
      }

  put-idle :
      (now later i : ℕ) (m : List (Key × PartialPacket H))
      → later < now + o.reassembly_timeout
      → is_due later (find key (put key (next now i m) m)) ≡ false
  unfolding next
  put-idle now later i m h = rw (find-put key (next now i m) m) (ground arith)

  IsReady-next :
      (now i later : ℕ) (rest : List (ℕ × ℕ)) (m : List (Key × PartialPacket H))
      → i < length fs
      → Avoids i rest
      → later < now + o.reassembly_timeout
      → IsReady now ((now, i) ∷ rest) m
      → IsReady later rest (put key (next now i m) m)
  IsReady-next now i later rest m lt av soon r =
      let (p', g) = next-Progress now i m r.progress lt r.missing.0 in
      let same = pp_of-put (next now i m) m in
      let l = r.all in
      record {
        idle = put-idle now later i m soon;
        progress = rw same p';
        missing =
            rw (same, next-fragments now i m)
              (Missing-set rest (pp_of m).fragments i (get_or fs i) av r.missing.1);
        all = rw same (omega (arith, g, l));
      }

  deliver-IsReady :
      (now i : ℕ) (rest : List (ℕ × ℕ)) (m : List (Key × PartialPacket H))
      → IsOrder (length fs) ((now, i) ∷ rest)
      → IsTimelyAfter o.reassembly_timeout now rest
      → IsReady now ((now, i) ∷ rest) m
      → (deliver o endpoint fs ((now, i) ∷ rest) m).1 ≡ some (do_reassembly fs, get_or fs 0)
  deliver-IsReady now i [] m is soon ready =
      let r = IsReady-run_timers now ((now, i) ∷ []) m ready in
      let l = r.all in
      ap (λ z. (or_result (deliver o endpoint fs []) z).1)
        (receive-add now i (run_timers now m) is.0
          ∙ add_fragment-last now i (run_timers now m) r.progress is.0 r.missing.0
              (omega (arith, l)))
  deliver-IsReady now i ((later, j) ∷ rest) m is soon ready =
      let r = IsReady-run_timers now ((now, i) ∷ (later, j) ∷ rest) m ready in
      let l = r.all in
      ap (λ z. (or_result (deliver o endpoint fs ((later, j) ∷ rest)) z).1)
        (receive-add now i (run_timers now m) is.0
          ∙ add_fragment-more now i (run_timers now m) r.progress r.missing.0 (omega (arith, l)))
      ∙ deliver-IsReady later j rest (put key (next now i (run_timers now m)) (run_timers now m))
          is.2 soon.1
          (IsReady-next now i later ((later, j) ∷ rest) (run_timers now m) is.0 is.1 soon.0 r)

  deliver-timely :
      (order : List (ℕ × ℕ)) (m : List (Key × PartialPacket H))
      → 0 < length order
      → IsOrder (length fs) order
      → IsTimely o.reassembly_timeout order
      → ((now : ℕ) → IsReady now order m)
      → (deliver o endpoint fs order m).1 ≡ some (do_reassembly fs, get_or fs 0)
  deliver-timely [] m pos is soon ready = absurd (omega arith)
  deliver-timely ((now, i) ∷ rest) m pos is soon ready =
      deliver-IsReady now i rest m is soon (ready now)

  Missing-fresh : (order : List (ℕ × ℕ)) (n : ℕ) → Missing order (replicate n empty_packet)
  Missing-fresh [] n = tt
  Missing-fresh ((now, i) ∷ rest) n = (empty_slot n i, Missing-fresh rest n)
    where
      empty_slot : (n i : ℕ) → has_sequence (get_or (replicate n (empty_packet {H = H})) i) ≡ false
      empty_slot zero i = refl
      empty_slot (suc n) zero = refl
      empty_slot (suc n) (suc i) = empty_slot n i

  -- Two or more fragments of one message, within the limit, that arrive at an endpoint with no
  -- partial packet of that message, each once, in any order, and each sooner than the reassembly timeout after
  -- the one before: the reassembler completes the packet with the last of them, and gives the
  -- payloads joined in the order of their numbers, with the first fragment for its other fields. Drop
  -- timers, of this and of other messages, fire when they run out.
  pub deliver_any_order :
      (order : List (ℕ × ℕ)) (m : List (Key × PartialPacket H))
      → find (record { endpoint = endpoint; message = message }) m ≡ none
      → IsOrder (length fs) order
      → IsTimely o.reassembly_timeout order
      → length order ≡ length fs
      → (deliver o endpoint fs order m).1 ≡ some (do_reassembly fs, get_or fs 0)
  deliver_any_order order m absent is soon all =
      let fresh = pp_of-fresh m absent in
      let (_, r) = Agree-replicate fs in
      deliver-timely order m (omega arith) is soon (λ now. record {
        idle = rw absent refl;
        progress = begin m absent;
        missing = rw fresh (Missing-fresh order (length fs));
        all = rw fresh (omega (arith, r));
      })
