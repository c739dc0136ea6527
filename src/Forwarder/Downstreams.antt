-- ===== src/Forwarder/Downstreams.antt =====
-- Which faces get the Data that satisfies several PIT entries, and what becomes of the entries.
use mathlib.Core.List.{append-nil, append_assoc}
use nfd_out_of_the_box.Packet.{FaceRef, Data}
use nfd_out_of_the_box.Pit.{clear_in_records, delete_out_record, Entry, InRecord, in_face}
use nfd_out_of_the_box.DeadNonceList.{contains}
use nfd_out_of_the_box.Fw.Algorithm.{any}
use nfd_out_of_the_box.Forwarder.{
  set_expiry_timer, violates_localhost, data_on, Forwarder, Parts, on_outgoing_data,
}
use nfd_out_of_the_box.Forwarder.Answers.{
  count_matches, answer_all, on_incoming_data, satisfy, satisfy_next, each_match, send_pending,
  is_same_link, all_pending, pending_of, set_insert,
}
use nfd_out_of_the_box.Prelude.{
  ℕ, ◌+◌, ◌<◌, ◌≡◌, refl, sym, ap, ◌∙◌, inl, inr, Bool, true, false, not, ◌&&◌, ◌||◌, List, [], ◌∷◌,
  ◌++◌, map, arith, ltb, ◌==◌, if◌then◌else◌, Bool-cases,
}

-- Each number is below the one after it, so none occurs twice.
abbrev pub IsAbove : ℕ → List ℕ → Type 0
IsAbove n [] = Unit {0}
IsAbove n (m ∷ ms) = n < m

abbrev pub IsAscending : List ℕ → Type 0
IsAscending [] = Unit {0}
IsAscending (n ∷ ns) = IsAbove n ns × IsAscending ns

contains-set_insert :
    (g h : ℕ) (ns : List ℕ) → contains g (set_insert h ns) ≡ h == g || contains g ns
unfolding contains set_insert
contains-set_insert g h [] = refl
contains-set_insert g h (n ∷ ns) = ground (arith, contains-set_insert g h ns)

IsAbove-set_insert : (n h : ℕ) (ns : List ℕ) → n < h → IsAbove n ns → IsAbove n (set_insert h ns)
unfolding set_insert
IsAbove-set_insert n h [] lt above = lt
IsAbove-set_insert n h (m ∷ ms) lt above = elim (Bool-cases (h == m)) [
  | inl same ↦ rw same above
  | inr other ↦ elim (Bool-cases (ltb h m)) [
    | inl below ↦ rw (other, below) lt
    | inr past ↦ rw (other, past) above
  ]
]

set_insert-IsAscending : (h : ℕ) (ns : List ℕ) → IsAscending ns → IsAscending (set_insert h ns)
unfolding set_insert
set_insert-IsAscending h [] up = (tt, tt)
set_insert-IsAscending h (n ∷ ns) up = elim (Bool-cases (h == n)) [
  | inl same ↦ rw same up
  | inr other ↦ elim (Bool-cases (ltb h n)) [
    | inl below ↦ rw (other, below) (ground arith, up)
    | inr past ↦
        rw (other, past)
          (IsAbove-set_insert n h ns (ground arith) up.0, set_insert-IsAscending h ns up.1)
  ]
]

abbrev pub select : (ℕ → Bool) → List ℕ → List ℕ
select p [] = []
select p (n ∷ ns) = if p n then n ∷ select p ns else select p ns

IsAbove-mono : (n m : ℕ) (ns : List ℕ) → n < m → IsAbove m ns → IsAbove n ns
IsAbove-mono n m [] lt above = tt
IsAbove-mono n m (k ∷ ks) lt above = omega arith

IsAbove-select :
    (p : ℕ → Bool) (n : ℕ) (ns : List ℕ) → IsAscending ns → IsAbove n ns → IsAbove n (select p ns)
IsAbove-select p n [] up above = tt
IsAbove-select p n (m ∷ ms) up above = elim (Bool-cases (p m)) [
  | inl kept ↦ rw kept above
  | inr gone ↦ rw gone (IsAbove-select p n ms up.1 (IsAbove-mono n m ms above up.0))
]

select-IsAscending : (p : ℕ → Bool) (ns : List ℕ) → IsAscending ns → IsAscending (select p ns)
select-IsAscending p [] up = tt
select-IsAscending p (n ∷ ns) up = elim (Bool-cases (p n)) [
  | inl kept ↦ rw kept (IsAbove-select p n ns up.1 up.0, select-IsAscending p ns up.1)
  | inr gone ↦ rw gone (select-IsAscending p ns up.1)
]

contains-select :
    (p : ℕ → Bool) (g : ℕ) (ns : List ℕ) → contains g (select p ns) ≡ p g && contains g ns
unfolding contains
contains-select p g [] = ground arith
contains-select p g (n ∷ ns) = elim (Bool-cases (n == g)) [
  | inl same ↦ let e : n ≡ g = ground arith in rw e (ground (arith, contains-select p g ns))
  | inr other ↦ ground (arith, contains-select p g ns)
]

or-contains_nil : (b : Bool) (g : ℕ) → b || contains g [] ≡ b
unfolding contains
or-contains_nil b g = ground arith

module _ {N : Type 0} {C : Type 0} (x : Parts N C) where
  -- An in-record of the face that has not expired.
  abbrev pub waits_in : ℕ → FaceRef → List (InRecord N) → Bool
  waits_in now g rs = any (λ r. in_face r == g && ltb now r.expiry) rs

  -- A matched entry with such an in-record.
  abbrev pub waits : ℕ → Data N → FaceRef → List (Entry N) → Bool
  waits now d g es = any (λ e. x.matches_data e.interest d && waits_in now g e.in_records) es

  contains-pending_of :
      (now g : ℕ) (rs : List (InRecord N)) (faces : List FaceRef)
      → contains g (pending_of x now rs faces) ≡ waits_in now g rs || contains g faces
  unfolding pending_of
  contains-pending_of now g [] faces = refl
  contains-pending_of now g (r ∷ rs) faces = ground (
    arith,
    contains-pending_of now g rs faces,
    contains-pending_of now g rs (set_insert r.face faces),
    contains-set_insert g r.face faces,
  )

  pending_of-IsAscending :
      (now : ℕ) (rs : List (InRecord N)) (faces : List FaceRef)
      → IsAscending faces
      → IsAscending (pending_of x now rs faces)
  unfolding pending_of
  pending_of-IsAscending now [] faces up = up
  pending_of-IsAscending now (r ∷ rs) faces up = elim (Bool-cases (ltb now r.expiry)) [
    | inl live ↦ rw live (
        pending_of-IsAscending now rs (set_insert r.face faces)
          (set_insert-IsAscending r.face faces up))
    | inr late ↦ rw late (pending_of-IsAscending now rs faces up)
  ]

  contains-all_pending :
      (now : ℕ) (d : Data N) (g : ℕ) (es : List (Entry N)) (faces : List FaceRef)
      → contains g (all_pending x now d es faces) ≡ waits now d g es || contains g faces
  unfolding all_pending
  contains-all_pending now d g [] faces = refl
  contains-all_pending now d g (e ∷ es) faces = ground (
    arith,
    contains-all_pending now d g es faces,
    contains-all_pending now d g es (pending_of x now e.in_records faces),
    contains-pending_of now g e.in_records faces,
  )

  all_pending-IsAscending :
      (now : ℕ) (d : Data N) (es : List (Entry N)) (faces : List FaceRef)
      → IsAscending faces
      → IsAscending (all_pending x now d es faces)
  unfolding all_pending
  all_pending-IsAscending now d [] faces up = up
  all_pending-IsAscending now d (e ∷ es) faces up =
      elim (Bool-cases (x.matches_data e.interest d)) [
        | inl hit ↦ rw hit (
            all_pending-IsAscending now d es (pending_of x now e.in_records faces)
              (pending_of-IsAscending now e.in_records faces up))
        | inr miss ↦ rw miss (all_pending-IsAscending now d es faces up)
      ]

  -- May the face get the Data?
  abbrev pub may_send : FaceRef → Data N → FaceRef → Bool
  may_send ingress d g =
      not (is_same_link x ingress g)
      && not ((x.faces g).id == x.invalid_face_id)
      && not (violates_localhost x g d.name)

  on_outgoing_data-sent :
      (ingress : FaceRef) (d : Data N) (g : FaceRef) (f : Forwarder N C)
      → is_same_link x ingress g ≡ false
      → (on_outgoing_data x d g f).sent
        ≡ (if may_send ingress d g then f.sent ++ data_on g d ∷ [] else f.sent)
  unfolding on_outgoing_data
  on_outgoing_data-sent ingress d g f other = ground arith

  send_pending-sent :
      (ingress : FaceRef) (d : Data N) (faces : List FaceRef) (f : Forwarder N C)
      → (send_pending x ingress d faces f).sent
        ≡ f.sent ++ map (λ g. data_on g d) (select (may_send ingress d) faces)
  unfolding send_pending
  send_pending-sent ingress d [] f = sym (append-nil f.sent)
  send_pending-sent ingress d (g ∷ gs) f = elim (Bool-cases (is_same_link x ingress g)) [
    | inl same ↦ rw (same, send_pending) (send_pending-sent ingress d gs f)
    | inr other ↦
        let step = on_outgoing_data-sent ingress d g f other in
        let rest = send_pending-sent ingress d gs (on_outgoing_data x d g f) in
        elim (Bool-cases (may_send ingress d g)) [
          | inl ok ↦
              let head : (on_outgoing_data x d g f).sent ≡ f.sent ++ data_on g d ∷ [] =
                rw ok at step in
              rw (ok, other, send_pending)
                (rest
                  ∙ ap (λ l. l ++ map (λ h. data_on h d) (select (may_send ingress d) gs)) head
                  ∙ append_assoc f.sent (data_on g d ∷ [])
                      (map (λ h. data_on h d) (select (may_send ingress d) gs)))
          | inr no_send ↦
              let head : (on_outgoing_data x d g f).sent ≡ f.sent = rw no_send at step in
              rw (no_send, other, send_pending)
                (rest ∙ ap (λ l. l ++ map (λ h. data_on h d) (select (may_send ingress d) gs)) head)
        ]
  ]

  send_pending-pit :
      (ingress : FaceRef) (d : Data N) (faces : List FaceRef) (f : Forwarder N C)
      → (send_pending x ingress d faces f).pit ≡ f.pit
  unfolding send_pending on_outgoing_data
  send_pending-pit ingress d [] f = refl
  send_pending-pit ingress d (g ∷ gs) f = ground (
    arith,
    send_pending-pit ingress d gs f,
    send_pending-pit ingress d gs (on_outgoing_data x d g f),
  )

  -- The entry that a Data leaves when it satisfies several.
  abbrev pub satisfied : ℕ → FaceRef → Data N → Entry N → Entry N
  satisfied now ingress d e =
      if x.matches_data e.interest d
      then delete_out_record ingress (
          clear_in_records (
            set_expiry_timer now 0
              (record e { is_satisfied = true; data_freshness_period = d.freshness_period })))
      else e

  each_match-satisfy_next :
      (now : ℕ) (ingress : FaceRef) (d : Data N) (es : List (Entry N)) (f : Forwarder N C)
      → ((each_match x (satisfy_next x now ingress d) d es f).0 ≡ map (satisfied now ingress d) es)
        × ((each_match x (satisfy_next x now ingress d) d es f).1.sent ≡ f.sent)
  unfolding each_match satisfy_next satisfy set_expiry_timer
  each_match-satisfy_next now ingress d [] f = (refl, refl)
  each_match-satisfy_next now ingress d (e ∷ es) f =
      elim (Bool-cases (x.matches_data e.interest d)) [
        | inl hit ↦
            let (table, quiet) =
              each_match-satisfy_next now ingress d es (satisfy_next x now ingress d e f).1 in
            rw (hit, table) (refl, quiet)
        | inr miss ↦
            let (table, quiet) = each_match-satisfy_next now ingress d es f in
            rw (miss, table) (refl, quiet)
      ]

  -- Data that satisfies more than one PIT entry, and does not violate the /localhost scope, goes
  -- once to each face on which a matched entry has an in-record that has not expired, save the
  -- faces of the ingress' own link, those without a valid identifier and those that the scope
  -- forbids; it goes to no other. Of the table only the matched entries change: they are satisfied,
  -- due at once, and have neither an in-record nor the out-record of the ingress.
  pub on_incoming_data-several :
      (now : ℕ) (ingress : FaceRef) (d : Data N) (g : FaceRef) (f : Forwarder N C)
      → violates_localhost x ingress d.name ≡ false
      → 1 < count_matches x d f.pit
      → (faces : List FaceRef) × ((on_incoming_data x now ingress d f).sent
          ≡ f.sent ++ map (λ h. data_on h d) faces)
        × IsAscending faces
        × (contains g faces ≡ may_send ingress d g && waits now d g f.pit)
        × ((on_incoming_data x now ingress d f).pit ≡ map (satisfied now ingress d) f.pit)
  unfolding on_incoming_data answer_all
  on_incoming_data-several now ingress d g f inside several =
      let stored : Forwarder N C = record f {
        counters = record (f.counters) { in_data = f.counters.in_data + 1 };
        cs = x.insert d false f.cs;
      } in
      let (table, quiet) = each_match-satisfy_next now ingress d f.pit stored in
      let none_left : (count_matches x d f.pit == 0) ≡ false = ground arith in
      let not_one : (count_matches x d f.pit == 1) ≡ false = ground arith in
      let pending : List FaceRef = all_pending x now d f.pit [] in
      (
        select (may_send ingress d) pending,
        rw (inside, none_left, not_one, send_pending-sent, quiet),
        select-IsAscending (may_send ingress d) pending (all_pending-IsAscending now d f.pit [] tt),
        contains-select (may_send ingress d) g pending
            ∙ ap (λ b. may_send ingress d g && b)
                (contains-all_pending now d g f.pit [] ∙ or-contains_nil (waits now d g f.pit) g),
        rw (inside, none_left, not_one, send_pending-pit, table),
      )
