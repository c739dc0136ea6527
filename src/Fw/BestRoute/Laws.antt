-- ===== src/Fw/BestRoute/Laws.antt =====
-- Where the best-route strategy forwards an Interest.
use mathlib.Core.List.{Memᴰ}
use nfd_out_of_the_box.Packet.{FaceRef, Face, Interest, no_route}
use nfd_out_of_the_box.Pit.{Entry, OutRecord, out_face, get_out_record}
use nfd_out_of_the_box.Pit.Records.{find_record}
use nfd_out_of_the_box.Fw.Algorithm.{ScopePrefix, NextHop, is_next_hop_eligible, time_max}
use nfd_out_of_the_box.Fw.Algorithm.Nonces.{AllRenewed}
use nfd_out_of_the_box.Fw.Algorithm.NextHops.{
  Eligible, HasRecords, NoneEligible, find_eligible_next_hop_with_earliest_out_record_lem,
}
use nfd_out_of_the_box.Fw.Retx.{
  RetxSuppressionExponential, RetxSuppressionResult, new, forward, suppress,
}
use nfd_out_of_the_box.Fw.Retx.Laws.{IsValid, InRange, Decides, decide_per_pit_entry_lem}
use nfd_out_of_the_box.Fw.BestRoute.{
  Action, send_interest, send_nack, reject_pending_interest, find_if, send_new, retransmit,
  dispatch, after_receive_interest,
}
use nfd_out_of_the_box.Prelude.{
  ℕ, ◌<◌, ◌≡◌, refl, ◌⊎◌, inl, inr, Bool, true, false, none, some, List, [], ◌∷◌, arith, ◌==◌,
  Bool-cases, Option-cases,
}

module _ {A : Type 0} (p : A → Bool) where
  abbrev NoneOf : List A → Type 0
  NoneOf [] = Unit {0}
  NoneOf (x ∷ xs) = (p x ≡ false) × NoneOf xs

  find_if-cases :
      (xs : List A)
      → ((find_if p xs ≡ none) × NoneOf xs)
        ⊎ ((x : A) × (find_if p xs ≡ some x) × Memᴰ x xs × (p x ≡ true))
  unfolding find_if
  find_if-cases [] = inl (refl, tt)
  find_if-cases (x ∷ xs) = elim (Bool-cases (p x)) [
    | inl hit ↦ inr (x, rw hit, Memᴰ.head refl, hit)
    | inr miss ↦ elim (find_if-cases xs) [
      | inl (gone, all) ↦ inl (rw miss gone, (miss, all))
      | inr (y, found, m, hit) ↦ inr (y, rw miss found, Memᴰ.tail m, hit)
    ]
  ]

find_record-renewed :
    (P : ℕ → Type 0) (f : FaceRef) (rs : List OutRecord) (r : OutRecord)
    → AllRenewed P rs
    → find_record out_face f rs ≡ some r
    → P r.last_renewed
unfolding find_record
find_record-renewed P f [] r all h = absurd (cc)
find_record-renewed P f (x ∷ rs) r all h = elim (Bool-cases (x.face == f)) [
  | inl here ↦ let e : x ≡ r = ground arith in rw (← e) (all.0)
  | inr other ↦ find_record-renewed P f rs r all.1 (ground arith)
]

module _ {N : Type 0} (s : ScopePrefix N) (faces : FaceRef → Face) (ingress : FaceRef)
    (i : Interest N) where
  -- What the strategy asks of the forwarder after the decision `res`: nothing for a suppressed
  -- Interest; one Interest to an eligible next hop otherwise, or where there is none, nothing for a
  -- retransmission, and a Nack to the downstream with the end of the pending Interest for a new one.
  pub data Routes (e : Entry N) (hs : List NextHop) (res : RetxSuppressionResult)
      (acts : List Action) : Type 0 where
    quiet : res ≡ suppress → acts ≡ [] → Routes e hs res acts
    idle : res ≡ forward → NoneEligible s faces ingress i e hs → acts ≡ [] → Routes e hs res acts
    sends :
        (h : NextHop)
        → (res ≡ new) ⊎ (res ≡ forward)
        → Memᴰ h hs
        → Eligible s faces ingress i e h
        → acts ≡ send_interest h.face ∷ []
        → Routes e hs res acts
    rejects :
        res ≡ new
        → NoneEligible s faces ingress i e hs
        → acts ≡ send_nack ingress no_route ∷ reject_pending_interest ∷ []
        → Routes e hs res acts

  unused-Eligible :
      (e : Entry N) (now : ℕ) (h : NextHop)
      → is_next_hop_eligible s faces ingress i e true now h ≡ true
      → Eligible s faces ingress i e h
  unfolding is_next_hop_eligible
  unused-Eligible e now h ok = ground arith

  NoneOf-NoneEligible :
      (e : Entry N) (hs : List NextHop)
      → NoneOf (is_next_hop_eligible s faces ingress i e false 0) hs
      → NoneEligible s faces ingress i e hs
  NoneOf-NoneEligible e [] all = tt
  NoneOf-NoneEligible e (h ∷ hs) all = (all.0, NoneOf-NoneEligible e hs all.1)

  used-has_record :
      (e : Entry N) (now : ℕ) (h : NextHop)
      → is_next_hop_eligible s faces ingress i e true now h ≡ false
      → Eligible s faces ingress i e h
      → (r : OutRecord) × (get_out_record h.face e ≡ some r)
  unfolding is_next_hop_eligible
  used-has_record e now h bad ok = elim (Option-cases (get_out_record h.face e)) [
    | inl gone ↦ absurd (ground arith)
    | inr found ↦ found
  ]

  -- Where no eligible next hop is unused, each has an out-record.
  none_unused-HasRecords :
      (e : Entry N) (now : ℕ) (hs : List NextHop)
      → AllRenewed (λ t. t < time_max) e.out_records
      → NoneOf (is_next_hop_eligible s faces ingress i e true now) hs
      → HasRecords s faces ingress i e hs
  none_unused-HasRecords e now [] times all = tt
  none_unused-HasRecords e now (h ∷ hs) times all = (
    elim (Bool-cases (is_next_hop_eligible s faces ingress i e false 0 h)) [
      | inr skip ↦ inl skip
      | inl ok ↦
          let (r, o) = used-has_record e now h all.0 ok in
          inr (
            r,
            o,
            find_record-renewed (λ t. t < time_max) h.face e.out_records r times
                (unfold get_out_record in o),
          )
    ],
    none_unused-HasRecords e now hs times all.1,
  )

  retransmit-Routes :
      (now : ℕ) (e : Entry N) (hs : List NextHop)
      → AllRenewed (λ t. t < time_max) e.out_records
      → (acts : List Action) × (retransmit s faces now ingress i e hs ≡ some acts)
        × Routes e hs forward acts
  unfolding retransmit
  retransmit-Routes now e hs times =
      elim (find_if-cases (is_next_hop_eligible s faces ingress i e true now) hs) [
        | inr (h, found, m, ok) ↦ (
          send_interest h.face ∷ [],
          rw (found, retransmit),
          sends h (inr refl) m (unused-Eligible e now h ok) refl,
        )
        | inl (gone, all) ↦
            elim (find_eligible_next_hop_with_earliest_out_record_lem s faces ingress i e hs
              (none_unused-HasRecords e now hs times all)) [
                | inl (none_found, nobody) ↦
                    ([], rw (gone, retransmit, none_found), idle refl nobody refl)
                | inr (h, r, found, m, ok, _, _) ↦ (
                  send_interest h.face ∷ [],
                  rw (gone, retransmit, found),
                  sends h (inr refl) m ok refl,
                )
              ]
      ]

  send_new-Routes :
      (e : Entry N) (hs : List NextHop)
      → Routes e hs new
          (send_new s faces ingress (find_if (is_next_hop_eligible s faces ingress i e false 0) hs))
  unfolding send_new
  send_new-Routes e hs =
      elim (find_if-cases (is_next_hop_eligible s faces ingress i e false 0) hs) [
        | inl (gone, all) ↦ rw gone (rejects refl (NoneOf-NoneEligible e hs all) refl)
        | inr (h, found, m, ok) ↦ rw found (sends h (inl refl) m ok refl)
      ]

  Decides-entry :
      (x : RetxSuppressionExponential) (now : ℕ) (e : Entry N) (res : RetxSuppressionResult)
      (e' : Entry N)
      → Decides x now e res e'
      → e' ≡ record e { suppression_interval = e'.suppression_interval }
  Decides-entry x now e res e' (inl (_, _, same)) = rw same
  Decides-entry x now e res e' (inr (last, t, _, _, eq, _, _)) = rw eq

  dispatch-Routes :
      (res : RetxSuppressionResult) (now : ℕ) (e : Entry N) (hs : List NextHop)
      → AllRenewed (λ t. t < time_max) e.out_records
      → (acts : List Action) × (dispatch s faces now ingress i hs (res, e) ≡ some acts)
        × Routes e hs res acts
  unfolding dispatch
  dispatch-Routes suppress now e hs times = ([], refl, quiet refl refl)
  dispatch-Routes new now e hs times = (_, refl, send_new-Routes e hs)
  dispatch-Routes forward now e hs times = retransmit-Routes now e hs times

  -- On an entry whose suppression interval is in range and whose out-records were renewed before
  -- the end of time, `afterReceiveInterest` always returns, with no failed assertion. It sends
  -- nothing for a suppressed retransmission. Otherwise it sends the Interest once, to an eligible
  -- next hop of the FIB entry, if there is one; if there is none, it does nothing for a
  -- retransmission, and for a new Interest it sends a Nack with reason NO_ROUTE to the ingress and
  -- rejects the pending Interest. Of the PIT entry it changes the suppression interval only, which
  -- stays in range.
  pub after_receive_interest_lem :
      (x : RetxSuppressionExponential) (now : ℕ) (hs : List NextHop) (e : Entry N)
      → IsValid x
      → InRange x e.suppression_interval
      → AllRenewed (λ t. t < time_max) e.out_records
      → (res : RetxSuppressionResult) × (e' : Entry N) × (acts : List Action)
        × (after_receive_interest s faces x now ingress i hs e ≡ some (e', acts))
        × Decides x now e res e'
        × Routes e' hs res acts
        × (e' ≡ record e { suppression_interval = e'.suppression_interval })
        × InRange x e'.suppression_interval
  unfolding after_receive_interest
  after_receive_interest_lem x now hs e v r times =
      let (res, e', runs, decides, range) = decide_per_pit_entry_lem x now e v r in
      let kept : e' ≡ record e { suppression_interval = e'.suppression_interval } =
        Decides-entry x now e res e' decides in
      let times' : AllRenewed (λ t. t < time_max) e'.out_records = rw kept times in
      let (acts, sent, routes) = dispatch-Routes res now e' hs times' in
      (res, e', acts, rw (runs, after_receive_interest, sent), decides, routes, kept, range)
