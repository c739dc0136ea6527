-- ===== src/Fw/NackTraits/Laws.antt =====
-- When `processNack` sends a Nack, to whom, and with which reason.
use nfd_out_of_the_box.Packet.{no_reason, FaceRef, NackReason}
use nfd_out_of_the_box.Pit.{Entry, OutRecord, InRecord, get_in_record}
use nfd_out_of_the_box.Fw.NackTraits.{
  NackAction, send_nack, send_nacks, wait, Scan, scan, scan_step, start, conclude, process_nack,
}
use nfd_out_of_the_box.Prelude.{
  ℕ, ◌+◌, ◌≤◌, ◌<◌, ◌≡◌, refl, ◌⊎◌, inl, inr, Bool, Option, none, some, List, [], ◌∷◌, arith, ltb,
  ◌==◌, Bool-cases, Option-cases, sym, ap, ◌∙◌,
}

-- The out-records without a Nack, counted.
abbrev pub count_not_nacked : List OutRecord → ℕ
count_not_nacked [] = 0
count_not_nacked (r ∷ rs) = (elim r.incoming_nack [ none ↦ 1 | some n ↦ 0 ]) + count_not_nacked rs

-- The face of the last of them.
abbrev pub last_not_nacked : List OutRecord → Option FaceRef
last_not_nacked [] = none
last_not_nacked (r ∷ rs) = elim (last_not_nacked rs) [
  | some f ↦ some f
  | none ↦ elim r.incoming_nack [ none ↦ some r.face | some n ↦ none ]
]

abbrev pub IfNacked : (NackReason → Type 0) → Option NackReason → Type 0
IfNacked P none = Unit {0}
IfNacked P (some n) = P n

abbrev pub AllNacks : (NackReason → Type 0) → List OutRecord → Type 0
AllNacks P [] = Unit {0}
AllNacks P (r ∷ rs) = IfNacked P r.incoming_nack × AllNacks P rs

-- One of the records has a Nack with the reason.
abbrev pub HasNack : NackReason → List OutRecord → Type 0
HasNack n [] = ⊥
HasNack n (r ∷ rs) = (r.incoming_nack ≡ some n) ⊎ HasNack n rs

module _ (is_less_severe : NackReason → NackReason → Bool) where
  scan_count :
      (rs : List OutRecord) (c : Scan)
      → (scan is_less_severe rs c).n_out_records_not_nacked
        ≡ c.n_out_records_not_nacked + count_not_nacked rs
  unfolding scan scan_step
  scan_count [] c = omega arith
  scan_count (r ∷ rs) c = ground (arith, scan_count rs (scan_step is_less_severe r c))

  abbrev or_some : Option FaceRef → Option FaceRef → Option FaceRef
  or_some (some f) d = some f
  or_some none d = d

  scan_last :
      (rs : List OutRecord) (c : Scan)
      → (scan is_less_severe rs c).last_face_not_nacked
        ≡ or_some (last_not_nacked rs) c.last_face_not_nacked
  unfolding scan scan_step
  scan_last [] c = refl
  scan_last (r ∷ rs) c = ground (arith, scan_last rs (scan_step is_less_severe r c))

  step_source :
      (r : OutRecord) (c : Scan)
      → (r.incoming_nack ≡ some (scan_step is_less_severe r c).least_severe_reason)
        ⊎ ((scan_step is_less_severe r c).least_severe_reason ≡ c.least_severe_reason)
  unfolding scan_step
  step_source r c = elim (Option-cases r.incoming_nack) [
    | inl e ↦ rw e (inr refl)
    | inr (n, e) ↦ elim (Bool-cases (is_less_severe n c.least_severe_reason)) [
      | inl less ↦ rw (e, less) (inl refl)
      | inr other ↦ rw (e, other) (inr refl)
    ]
  ]

  scan_source :
      (rs : List OutRecord) (c : Scan)
      → HasNack (scan is_less_severe rs c).least_severe_reason rs
        ⊎ ((scan is_less_severe rs c).least_severe_reason ≡ c.least_severe_reason)
  unfolding scan
  scan_source [] c = inr refl
  scan_source (r ∷ rs) c = elim (scan_source rs (scan_step is_less_severe r c)) [
    | inl later ↦ inl (inr later)
    | inr same ↦ elim (step_source r c) [
      | inl here ↦ inl (inl (here ∙ ap some (sym same)))
      | inr before ↦ inr (same ∙ before)
    ]
  ]

  -- A pick among the reasons compared by a rank, as lp::isLessSevere compares them.
  module _ (rank : NackReason → ℕ)
      (ranked : (a b : NackReason) → is_less_severe a b ≡ ltb (rank a) (rank b)) where
    AllNacks-mono :
        (a b : NackReason) (rs : List OutRecord)
        → rank a ≤ rank b
        → AllNacks (λ n. rank b ≤ rank n) rs
        → AllNacks (λ n. rank a ≤ rank n) rs
    AllNacks-mono a b [] le all = tt
    AllNacks-mono a b (r ∷ rs) le all = (head r.incoming_nack all.0, AllNacks-mono a b rs le all.1)
      where
        head :
            (o : Option NackReason)
            → IfNacked (λ n. rank b ≤ rank n) o
            → IfNacked (λ n. rank a ≤ rank n) o
        head none h = tt
        head (some n) h = omega arith

    step_reason :
        (r : OutRecord) (c : Scan)
        → (rank (scan_step is_less_severe r c).least_severe_reason ≤ rank c.least_severe_reason)
          × IfNacked
              (λ n. rank (scan_step is_less_severe r c).least_severe_reason ≤ rank n)
              r.incoming_nack
    unfolding scan_step
    step_reason r c = elim (Option-cases r.incoming_nack) [
      | inl e ↦ rw e (omega arith, tt)
      | inr (n, e) ↦ rw e (
        ground (arith, ranked n c.least_severe_reason),
        ground (arith, ranked n c.least_severe_reason),
      )
    ]

    scan_reason :
        (rs : List OutRecord) (c : Scan)
        → (rank (scan is_less_severe rs c).least_severe_reason ≤ rank c.least_severe_reason)
          × AllNacks (λ n. rank (scan is_less_severe rs c).least_severe_reason ≤ rank n) rs
    unfolding scan
    scan_reason [] c = (omega arith, tt)
    scan_reason (r ∷ rs) c =
        let (le, all) = scan_reason rs (scan_step is_less_severe r c) in
        let (below, here) = step_reason r c in
        (
          omega arith,
          (
            (AllNacks-mono
                (scan is_less_severe rs (scan_step is_less_severe r c)).least_severe_reason
                (scan_step is_less_severe r c).least_severe_reason (r ∷ []) le (here, tt)).0,
            all,
          ),
        )

    -- What `processNack` does with the reason `n`.
    abbrev pub Outcome : {N : Type 0} → Entry N → NackReason → NackAction → Type 0
    Outcome {N} e n action =
        ((count_not_nacked e.out_records ≡ 0) × (action ≡ send_nacks n))
        ⊎ ((f : FaceRef) × (r : InRecord N) × (count_not_nacked e.out_records ≡ 1)
            × (last_not_nacked e.out_records ≡ some f)
            × (get_in_record f e ≡ some r)
            × (action ≡ send_nack f n))
        ⊎ ((f : FaceRef) × (count_not_nacked e.out_records ≡ 1)
            × (last_not_nacked e.out_records ≡ some f)
            × (get_in_record f e ≡ none)
            × (action ≡ wait))
        ⊎ ((1 < count_not_nacked e.out_records) × (action ≡ wait))

    one_left :
        (rs : List OutRecord)
        → count_not_nacked rs ≡ 1
        → (f : FaceRef) × (last_not_nacked rs ≡ some f)
    one_left [] h = absurd (omega arith)
    one_left (r ∷ rs) h = elim (Option-cases (last_not_nacked rs)) [
      | inr (f, found) ↦ (f, rw found)
      | inl gone ↦ elim (Option-cases r.incoming_nack) [
        | inl e ↦ (r.face, rw (gone, e))
        | inr (n, e) ↦ let (f, found) = one_left rs (omega (arith, (rw e at h))) in absurd (cc)
      ]
    ]

    -- `processNack` sends Nacks to all downstreams when no out-record is without a Nack. When one is
    -- without, be it the only out-record or not, it sends a Nack to the face of that record
    -- alone if the face is a downstream, and waits otherwise; with more than one it waits. The reason that
    -- it sends is that of a Nack on an out-record, or the reason NONE that it starts from, and none of
    -- these is less severe, by any rank that isLessSevere compares.
    pub process_nack_lem :
        {N : Type 0} (e : Entry N)
        → (n : NackReason) × (HasNack n e.out_records ⊎ (n ≡ no_reason))
          × (rank n ≤ rank no_reason)
          × AllNacks (λ m. rank n ≤ rank m) e.out_records
          × Outcome e n (process_nack is_less_severe e)
    unfolding process_nack start conclude
    process_nack_lem e =
        let count = scan_count e.out_records start in
        let last = scan_last e.out_records start in
        let reason = scan_reason e.out_records start in
        let least : NackReason = (scan is_less_severe e.out_records start).least_severe_reason in
        (
          least,
          scan_source e.out_records start,
          reason.0,
          reason.1,
          elim (Bool-cases (count_not_nacked e.out_records == 1)) [
            | inl one ↦
                let is_one : count_not_nacked e.out_records ≡ 1 = ground arith in
                let (f, found) = one_left e.out_records is_one in
                elim (Option-cases (get_in_record f e)) [
                  | inl absent ↦ inr (inr (inl (f, is_one, found, absent, ground arith)))
                  | inr (r, there) ↦ inr (inl (f, r, is_one, found, there, ground arith))
                ]
            | inr other ↦ elim (Bool-cases (ltb 0 (count_not_nacked e.out_records))) [
              | inl more ↦ inr (inr (inr (ground arith, ground arith)))
              | inr idle ↦ inl (ground arith, ground arith)
            ]
          ],
        )
