-- ===== src/Forwarder/Scope.antt =====
-- Scope control of Data: nothing under /localhost leaves the host.
use nfd_out_of_the_box.Packet.{FaceRef, Data}
use nfd_out_of_the_box.Pit.{Entry, delete_in_record}
use nfd_out_of_the_box.Forwarder.{
  set_expiry_timer, Forwarder, Parts, Sent, data_on, interest_on, nack_on, on_outgoing_data,
  violates_localhost,
}
use nfd_out_of_the_box.Forwarder.Answers.{
  downstreams_of, all_pending, count_matches, on_data_unsolicited, answer_all, answer_one,
  is_same_link, satisfy, send_data_each, satisfy_one, satisfy_next, send_pending, each_match,
  on_incoming_data,
}
use nfd_out_of_the_box.Prelude.{ℕ, ◌+◌, ◌≡◌, inl, inr, false, List, [], ◌∷◌, ◌++◌, ◌==◌, Bool-cases}

module _ {N : Type 0} {C : Type 0} (x : Parts N C) where
  -- No Data under /localhost has been sent on a face that is not local.
  abbrev pub InScope : Sent N → Type 0
  InScope (interest_on g i) = Unit {0}
  InScope (data_on g d) = violates_localhost x g d.name ≡ false
  InScope (nack_on g n) = Unit {0}

  abbrev pub AllInScope : List (Sent N) → Type 0
  AllInScope [] = Unit {0}
  AllInScope (p ∷ ps) = InScope p × AllInScope ps

  AllInScope-snoc :
      (p : Sent N) (ps : List (Sent N)) → AllInScope ps → InScope p → AllInScope (ps ++ p ∷ [])
  AllInScope-snoc p [] all one = (one, tt)
  AllInScope-snoc p (q ∷ qs) all one = (all.0, AllInScope-snoc p qs all.1 one)

  on_outgoing_data-AllInScope :
      (d : Data N) (g : FaceRef) (f : Forwarder N C)
      → AllInScope f.sent
      → AllInScope (on_outgoing_data x d g f).sent
  unfolding on_outgoing_data
  on_outgoing_data-AllInScope d g f all = elim (Bool-cases ((x.faces g).id == x.invalid_face_id)) [
    | inl invalid ↦ rw (invalid, on_outgoing_data) all
    | inr valid ↦ elim (Bool-cases (violates_localhost x g d.name)) [
      | inl outside ↦ rw (valid, on_outgoing_data, outside) all
      | inr inside ↦
          rw (valid, on_outgoing_data, inside) (AllInScope-snoc (data_on g d) f.sent all inside)
    ]
  ]

  send_data_each-AllInScope :
      (d : Data N) (faces : List FaceRef) (e : Entry N) (f : Forwarder N C)
      → AllInScope f.sent
      → AllInScope (send_data_each x d faces (e, f)).1.sent
  unfolding send_data_each
  send_data_each-AllInScope d [] e f all = all
  send_data_each-AllInScope d (g ∷ gs) e f all =
      send_data_each-AllInScope d gs (delete_in_record g e) (on_outgoing_data x d g f)
        (on_outgoing_data-AllInScope d g f all)

  satisfy_one-AllInScope :
      (now : ℕ) (ingress : FaceRef) (d : Data N) (e : Entry N) (f : Forwarder N C)
      → AllInScope f.sent
      → AllInScope (satisfy_one x now ingress d e f).1.sent
  unfolding satisfy_one satisfy
  satisfy_one-AllInScope now ingress d e f all =
      let timed : Entry N = set_expiry_timer now 0 e in
      send_data_each-AllInScope d (downstreams_of x now ingress timed.in_records []) timed f all

  satisfy_next-AllInScope :
      (now : ℕ) (ingress : FaceRef) (d : Data N) (e : Entry N) (f : Forwarder N C)
      → AllInScope f.sent
      → AllInScope (satisfy_next x now ingress d e f).1.sent
  unfolding satisfy_next satisfy
  satisfy_next-AllInScope now ingress d e f all = all

  send_pending-AllInScope :
      (ingress : FaceRef) (d : Data N) (faces : List FaceRef) (f : Forwarder N C)
      → AllInScope f.sent
      → AllInScope (send_pending x ingress d faces f).sent
  unfolding send_pending
  send_pending-AllInScope ingress d [] f all = all
  send_pending-AllInScope ingress d (g ∷ gs) f all = elim (Bool-cases (is_same_link x ingress g)) [
    | inl same ↦ rw (same, send_pending) (send_pending-AllInScope ingress d gs f all)
    | inr other ↦
        rw (other, send_pending)
          (send_pending-AllInScope ingress d gs (on_outgoing_data x d g f)
            (on_outgoing_data-AllInScope d g f all))
  ]

  -- A step that keeps the scope keeps it over all matched entries.
  each_match-AllInScope :
      (step : Entry N → Forwarder N C → Entry N × Forwarder N C) (d : Data N) (es : List (Entry N))
      (f : Forwarder N C)
      → ((e : Entry N) (w : Forwarder N C) → AllInScope w.sent → AllInScope (step e w).1.sent)
      → AllInScope f.sent
      → AllInScope (each_match x step d es f).1.sent
  unfolding each_match
  each_match-AllInScope step d [] f keeps all = all
  each_match-AllInScope step d (e ∷ es) f keeps all =
      elim (Bool-cases (x.matches_data e.interest d)) [
        | inl hit ↦
            rw (hit, each_match)
              (each_match-AllInScope step d es (step e f).1 keeps (keeps e f all))
        | inr miss ↦ rw (miss, each_match) (each_match-AllInScope step d es f keeps all)
      ]

  -- Incoming Data, solicited or not and whatever the number of PIT entries it satisfies, keeps the
  -- scope: if no Data under /localhost has been sent on a face that is not local, none has after it.
  pub on_incoming_data-AllInScope :
      (now : ℕ) (ingress : FaceRef) (d : Data N) (f : Forwarder N C)
      → AllInScope f.sent
      → AllInScope (on_incoming_data x now ingress d f).sent
  unfolding on_incoming_data answer_one answer_all on_data_unsolicited
  on_incoming_data-AllInScope now ingress d f all =
      let stored : Forwarder N C = record f {
        counters = record (f.counters) { in_data = f.counters.in_data + 1 };
        cs = x.insert d false f.cs;
      } in
      elim (Bool-cases (violates_localhost x ingress d.name)) [
        | inl outside ↦ rw (outside, on_incoming_data) all
        | inr inside ↦ elim (Bool-cases (count_matches x d f.pit == 0)) [
          | inl none_found ↦ rw (inside, on_incoming_data, none_found) all
          | inr found ↦ elim (Bool-cases (count_matches x d f.pit == 1)) [
            | inl one ↦
                rw (inside, on_incoming_data, found, one)
                  (each_match-AllInScope (satisfy_one x now ingress d) d f.pit stored
                    (satisfy_one-AllInScope now ingress d) all)
            | inr several ↦
                rw (inside, on_incoming_data, found, several)
                  (send_pending-AllInScope ingress d (all_pending x now d f.pit [])
                    (record (each_match x (satisfy_next x now ingress d) d f.pit stored).1 {
                      pit = (each_match x (satisfy_next x now ingress d) d f.pit stored).0;
                    })
                    (each_match-AllInScope (satisfy_next x now ingress d) d f.pit stored
                      (satisfy_next-AllInScope now ingress d) all))
          ]
        ]
      ]
