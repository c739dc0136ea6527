-- ===== src/Forwarder/Answers.antt =====
-- The Data pipelines of daemon/fw/forwarder.cpp, with `Strategy::afterReceiveData`,
-- `sendDataToAll` and `sendData` of daemon/fw/strategy.cpp, which only the self-learning strategy
-- overrides. A std::set of faces is the ascending list of their addresses.
use nfd_out_of_the_box.Packet.{FaceRef, Data, is_ad_hoc}
use nfd_out_of_the_box.Pit.{Entry, InRecord, delete_in_record, delete_out_record, clear_in_records}
use nfd_out_of_the_box.Forwarder.{
  violates_localhost, set_expiry_timer, insert_dead_nonce_list, on_outgoing_data, Forwarder, Parts,
}
use nfd_out_of_the_box.Prelude.{
  ℕ, suc, ◌+◌, Bool, true, false, not, ◌&&◌, some, List, [], ◌∷◌, ltb, ◌==◌, if◌then◌else◌,
}

-- std::set::insert
unfoldable pub set_insert : FaceRef → List FaceRef → List FaceRef
set_insert face [] = face ∷ []
set_insert face (g ∷ gs) =
    if face == g then g ∷ gs else if ltb face g then face ∷ g ∷ gs else g ∷ set_insert face gs

module _ {N : Type 0} {C : Type 0} (x : Parts N C) where
  -- Does the face get no Data that came from the ingress?
  unfoldable pub is_same_link : FaceRef → FaceRef → Bool
  is_same_link ingress face =
      (x.faces face).id == (x.faces ingress).id && not (is_ad_hoc (x.faces face).link_type)

  -- The loop of `sendDataToAll` that remembers the pending downstreams.
  unfoldable pub downstreams_of : ℕ → FaceRef → List (InRecord N) → List FaceRef → List FaceRef
  unfolding set_insert is_same_link
  downstreams_of now ingress [] faces = faces
  downstreams_of now ingress (r ∷ rs) faces = downstreams_of now ingress rs (
      if ltb now r.expiry && not (is_same_link ingress r.face)
      then set_insert r.face faces
      else faces)

  unfoldable pub send_data_each :
      Data N → List FaceRef → Entry N × Forwarder N C → Entry N × Forwarder N C
  send_data_each d [] r = r
  send_data_each d (face ∷ faces) (e, f) =
      send_data_each d faces (delete_in_record face e, on_outgoing_data x d face f)

  -- `isSatisfied`, `dataFreshnessPeriod` and the Dead Nonce List, for a matched entry.
  unfoldable pub satisfy : FaceRef → Data N → Entry N → Forwarder N C → Entry N × Forwarder N C
  satisfy ingress d e f =
      let done = record e { is_satisfied = true; data_freshness_period = d.freshness_period } in
      (
        done,
        record f {
          dead_nonce_list = insert_dead_nonce_list x (some ingress) done f.dead_nonce_list;
        },
      )

  -- The branch of a single matched entry.
  unfoldable pub satisfy_one :
      ℕ → FaceRef → Data N → Entry N → Forwarder N C → Entry N × Forwarder N C
  unfolding downstreams_of send_data_each satisfy
  satisfy_one now ingress d e f =
      let timed = set_expiry_timer now 0 e in
      let (answered, f') =
        send_data_each d (downstreams_of now ingress timed.in_records []) (timed, f) in
      let (done, f'') = satisfy ingress d answered f' in (delete_out_record ingress done, f'')

  -- The in-records that remember a pending downstream, with more than one matched entry.
  unfoldable pub pending_of : ℕ → List (InRecord N) → List FaceRef → List FaceRef
  unfolding set_insert
  pending_of now [] faces = faces
  pending_of now (r ∷ rs) faces =
      pending_of now rs (if ltb now r.expiry then set_insert r.face faces else faces)

  -- The body of the loop over the matched entries.
  unfoldable pub satisfy_next :
      ℕ → FaceRef → Data N → Entry N → Forwarder N C → Entry N × Forwarder N C
  unfolding satisfy
  satisfy_next now ingress d e f =
      let (done, f') = satisfy ingress d (set_expiry_timer now 0 e) f in
      (delete_out_record ingress (clear_in_records done), f')

  -- The last loop: Data for each pending downstream but the ingress.
  unfoldable pub send_pending : FaceRef → Data N → List FaceRef → Forwarder N C → Forwarder N C
  send_pending ingress d [] f = f
  send_pending ingress d (face ∷ faces) f =
      send_pending ingress d faces
        (if is_same_link ingress face then f else on_outgoing_data x d face f)

  -- `Pit::findAllDataMatches`, counted.
  unfoldable pub count_matches : Data N → List (Entry N) → ℕ
  count_matches d [] = 0
  count_matches d (e ∷ es) =
      if x.matches_data e.interest d then suc (count_matches d es) else count_matches d es

  -- A step on each matched entry, in the order of the table.
  unfoldable pub each_match :
      (Entry N → Forwarder N C → Entry N × Forwarder N C)
      → Data N
      → List (Entry N)
      → Forwarder N C
      → List (Entry N) × Forwarder N C
  each_match step d [] f = ([], f)
  each_match step d (e ∷ es) f =
      let here = if x.matches_data e.interest d then step e f else (e, f) in
      let rest = each_match step d es here.1 in (here.0 ∷ rest.0, rest.1)

  unfoldable pub all_pending : ℕ → Data N → List (Entry N) → List FaceRef → List FaceRef
  unfolding pending_of
  all_pending now d [] faces = faces
  all_pending now d (e ∷ es) faces =
      all_pending now d es
        (if x.matches_data e.interest d then pending_of now e.in_records faces else faces)

  unfoldable pub on_data_unsolicited : FaceRef → Data N → Forwarder N C → Forwarder N C
  on_data_unsolicited ingress d f = record f {
    cs = if x.caches_unsolicited (x.faces ingress) then x.insert d true f.cs else f.cs;
    counters = record (f.counters) { unsolicited_data = f.counters.unsolicited_data + 1 };
  }

  -- The branches of one and of several matched entries.
  unfoldable pub answer_one : ℕ → FaceRef → Data N → Forwarder N C → Forwarder N C
  unfolding each_match satisfy_one
  answer_one now ingress d f =
      let (es, f') = each_match (satisfy_one now ingress d) d f.pit f in record f' { pit = es }

  unfoldable pub answer_all : ℕ → FaceRef → Data N → Forwarder N C → Forwarder N C
  unfolding each_match satisfy_next all_pending send_pending
  answer_all now ingress d f =
      let (es, f') = each_match (satisfy_next now ingress d) d f.pit f in
      send_pending ingress d (all_pending now d f.pit []) (record f' { pit = es })

  unfoldable pub on_incoming_data : ℕ → FaceRef → Data N → Forwarder N C → Forwarder N C
  unfolding answer_one answer_all count_matches on_data_unsolicited
  on_incoming_data now ingress d f =
      let counted = record f {
        counters = record (f.counters) { in_data = f.counters.in_data + 1 };
      } in
      let stored = record counted { cs = x.insert d false f.cs } in
      if violates_localhost x ingress d.name
      then counted
      else if count_matches d f.pit == 0
      then on_data_unsolicited ingress d counted
      else if count_matches d f.pit == 1
      then answer_one now ingress d stored
      else answer_all now ingress d stored
