-- ===== src/Forwarder/Interests.antt =====
-- The Interest pipelines of daemon/fw/forwarder.cpp, over the table of daemon/table/pit.cpp as a
-- list of entries, of which no two have the same key.
use nfd_out_of_the_box.Packet.{bool_eq, FaceRef, Interest, Data, duplicate, is_point_to_point}
use nfd_out_of_the_box.Pit.{
  Entry, InRecord, new_entry, insert_or_update_in_record, delete_in_record,
}
use nfd_out_of_the_box.DeadNonceList.{has}
use nfd_out_of_the_box.Fw.Algorithm.{find_duplicate_nonce, is_duplicate}
use nfd_out_of_the_box.Fw.BestRoute.{Action, send_interest, send_nack, reject_pending_interest}
use nfd_out_of_the_box.Forwarder.{
  violates_localhost, on_outgoing_data, nack_on, on_outgoing_nack, insert_dead_nonce_list,
  has_no_hops_left, set_expiry_timer, send, on_outgoing_interest, Forwarder, Parts,
}
use nfd_out_of_the_box.Prelude.{
  ℕ, ◌+◌, ◌-◌, ◌/◌, max, Bool, true, false, not, ◌&&◌, Option, none, some, List, [], ◌∷◌,
  if◌then◌else◌,
}

unfoldable pub decrement_hop_limit : {N : Type 0} → Interest N → Interest N
decrement_hop_limit i = elim i.hop_limit [
  | none ↦ i
  | some h ↦ record i { hop_limit = some (h - 1) }
]

module _ {N : Type 0} {C : Type 0} (x : Parts N C) where
  -- `Entry::canMatch` on the whole Name.
  unfoldable pub can_match : Interest N → Entry N → Bool
  can_match i e =
      x.name_eq e.interest.name i.name
      && bool_eq e.interest.can_be_prefix i.can_be_prefix
      && bool_eq e.interest.must_be_fresh i.must_be_fresh

  -- `Pit::find`
  unfoldable pub find_entry : Interest N → List (Entry N) → Option (Entry N)
  unfolding can_match
  find_entry i [] = none
  find_entry i (e ∷ es) = if can_match i e then some e else find_entry i es

  -- `Pit::insert`, without the insertion, which `put_entry` makes.
  unfoldable pub find_or_new : Interest N → List (Entry N) → Entry N
  find_or_new i es = elim (find_entry i es) [ none ↦ new_entry i | some e ↦ e ]

  -- The entry of the Interest as the pipeline leaves it, in place of the one that it took out.
  unfoldable pub put_entry : Interest N → Entry N → List (Entry N) → List (Entry N)
  put_entry i e [] = e ∷ []
  put_entry i e (d ∷ es) = if can_match i d then e ∷ es else d ∷ put_entry i e es

  -- `Pit::erase`
  unfoldable pub erase_entry : Interest N → List (Entry N) → List (Entry N)
  erase_entry i [] = []
  erase_entry i (d ∷ es) = if can_match i d then es else d ∷ erase_entry i es

  -- The calls of a strategy, in order.
  unfoldable pub run_action :
      ℕ → Interest N → Action → Entry N × Forwarder N C → Entry N × Forwarder N C
  run_action now i (send_interest face) (e, f) = on_outgoing_interest x now face i e f
  run_action now i (send_nack face reason) (e, f) = on_outgoing_nack x face reason e f
  run_action now i reject_pending_interest (e, f) = (set_expiry_timer now 0 e, f)

  unfoldable pub run_actions :
      ℕ → Interest N → List Action → Entry N × Forwarder N C → Entry N × Forwarder N C
  unfolding run_action
  run_actions now i [] r = r
  run_actions now i (a ∷ rest) r = run_actions now i rest (run_action now i a r)

  unfoldable pub on_interest_loop : FaceRef → Interest N → Forwarder N C → Forwarder N C
  on_interest_loop ingress i f =
      if not (is_point_to_point (x.faces ingress).link_type)
      then f
      else send (nack_on ingress (record { interest = i; reason = duplicate })) f

  -- std::max_element over the expiry of the in-records.
  unfoldable pub last_expiring : List (InRecord N) → ℕ
  last_expiring [] = 0
  last_expiring (r ∷ rs) = max r.expiry (last_expiring rs)

  -- The entry that `onContentStoreMiss` hands on.
  unfoldable pub note_interest : ℕ → FaceRef → Interest N → Entry N → Entry N
  unfolding last_expiring
  note_interest now ingress i e =
      let noted = insert_or_update_in_record now ingress i e in
      set_expiry_timer now ((last_expiring noted.in_records - now) / 1000000) noted

  unfoldable pub on_content_store_miss :
      ℕ → FaceRef → Interest N → Entry N → Forwarder N C → Entry N × Forwarder N C
  unfolding note_interest run_actions
  on_content_store_miss now ingress i e f =
      let counted = record f {
        counters = record (f.counters) { cs_misses = f.counters.cs_misses + 1 };
      } in
      let noted = note_interest now ingress i e in
      elim i.next_hop_face_id [
        | some id ↦ elim (x.face_by_id id) [
          | some face ↦ on_outgoing_interest x now face i noted counted
          | none ↦ (noted, counted)
        ]
        | none ↦
            let (decided, actions) = x.after_receive_interest now ingress i noted in
            run_actions now i actions (decided, counted)
      ]

  -- With `Strategy::afterContentStoreHit` and `sendData` of daemon/fw/strategy.cpp, which only the
  -- self-learning strategy overrides.
  unfoldable pub on_content_store_hit :
      ℕ → FaceRef → Data N → Entry N → Forwarder N C → Entry N × Forwarder N C
  on_content_store_hit now ingress d e f = (
    delete_in_record ingress (
        set_expiry_timer now 0
          (record e { is_satisfied = true; data_freshness_period = d.freshness_period })),
    on_outgoing_data x d ingress
        (record f { counters = record (f.counters) { cs_hits = f.counters.cs_hits + 1 } }),
  )

  -- Is the Nonce a duplicate for an entry?
  unfoldable pub has_duplicate_nonce : FaceRef → Interest N → Entry N → Bool
  has_duplicate_nonce ingress i e =
      let dnw = find_duplicate_nonce e i.nonce ingress in
      is_duplicate dnw && not (is_point_to_point (x.faces ingress).link_type && dnw.in_same)

  -- The Content Store lookup, for an entry that was not pending.
  unfoldable pub after_lookup :
      ℕ → FaceRef → Interest N → Entry N → Option (Data N) → Forwarder N C → Entry N × Forwarder N C
  unfolding on_content_store_miss on_content_store_hit
  after_lookup now ingress i e none f = on_content_store_miss now ingress i e f
  after_lookup now ingress i e (some d) f = on_content_store_hit now ingress d e f

  unfoldable pub store_entry : Interest N → Entry N × Forwarder N C → Forwarder N C
  unfolding put_entry
  store_entry i (e, f) = record f { pit = put_entry i e f.pit }

  -- From `PIT insert` on, for an Interest whose HopLimit and hint have been updated.
  unfoldable pub insert_pending : ℕ → FaceRef → Interest N → Forwarder N C → Forwarder N C
  unfolding find_or_new has_duplicate_nonce after_lookup store_entry on_interest_loop
  insert_pending now ingress i f =
      let e = find_or_new i f.pit in
      if has_duplicate_nonce ingress i e
      then on_interest_loop ingress i (store_entry i (e, f))
      else elim e.in_records [
        | [] ↦
            let (cs', found) = x.find i f.cs in
            store_entry i (after_lookup now ingress i e found (record f { cs = cs' }))
        | r ∷ rs ↦ store_entry i (on_content_store_miss now ingress i e f)
      ]

  unfoldable pub strip_forwarding_hint : Interest N → Interest N
  strip_forwarding_hint i =
      if i.has_forwarding_hint && x.in_producer_region i
      then record i { has_forwarding_hint = false }
      else i

  unfoldable pub on_incoming_interest : ℕ → FaceRef → Interest N → Forwarder N C → Forwarder N C
  unfolding insert_pending decrement_hop_limit strip_forwarding_hint on_interest_loop
  on_incoming_interest now ingress i f =
      let counted = record f {
        counters = record (f.counters) { in_interests = f.counters.in_interests + 1 };
      } in
      let j = decrement_hop_limit i in
      if has_no_hops_left x i
      then counted
      else if violates_localhost x ingress j.name
      then counted
      else if has x.make_entry j.name j.nonce counted.dead_nonce_list
      then on_interest_loop ingress j counted
      else insert_pending now ingress (strip_forwarding_hint j) counted

  unfoldable pub on_interest_finalize : Entry N → Forwarder N C → Forwarder N C
  unfolding erase_entry
  on_interest_finalize e f = record f {
    dead_nonce_list = insert_dead_nonce_list x none e f.dead_nonce_list;
    counters =
        if e.is_satisfied
        then record (f.counters) { satisfied_interests = f.counters.satisfied_interests + 1 }
        else record (f.counters) { unsatisfied_interests = f.counters.unsatisfied_interests + 1 };
    pit = erase_entry e.interest f.pit;
  }
