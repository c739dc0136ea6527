-- ===== src/Fw/Algorithm/NextHops.antt =====
-- Which next hops `isNextHopEligible` lets through, and the pick of
-- `findEligibleNextHopWithEarliestOutRecord`.
use mathlib.Core.List.{Memᴰ}
use nfd_out_of_the_box.Packet.{FaceRef, Face, Interest, local, ad_hoc}
use nfd_out_of_the_box.Pit.{Entry, OutRecord, get_out_record}
use nfd_out_of_the_box.Fw.Algorithm.{
  ScopePrefix, NextHop, would_violate_scope, is_next_hop_eligible, earliest, time_max,
  find_eligible_next_hop_with_earliest_out_record,
}
use nfd_out_of_the_box.Prelude.{
  ℕ, ◌≤◌, ◌<◌, ◌≡◌, refl, ◌≢◌, ◌⊎◌, inl, inr, Bool, true, false, Option, none, some, List, [], ◌∷◌,
  arith, ltb, Bool-cases, Option-cases,
}

-- An out-record, if there is one, that was not renewed before `t`.
abbrev pub Since : ℕ → Option OutRecord → Type 0
Since t none = Unit {0}
Since t (some r) = t ≤ r.last_renewed

Since-mono : (t u : ℕ) (o : Option OutRecord) → t ≤ u → Since u o → Since t o
Since-mono t u none le since = tt
Since-mono t u (some r) le since = omega arith

module _ {N : Type 0} (s : ScopePrefix N) (faces : FaceRef → Face) (in_f : FaceRef)
    (i : Interest N) where
  -- An eligible next hop does not send the Interest back: its face has another identifier than the
  -- incoming face, or is ad hoc. It takes no Interest under /localhost to a face that is not
  -- local, and one under /localhop only from a local face. With `want_unused` the face has no
  -- out-record that is still unexpired.
  pub is_next_hop_eligible_guards :
      (e : Entry N) (want_unused : Bool) (now : ℕ) (h : NextHop)
      → is_next_hop_eligible s faces in_f i e want_unused now h ≡ true
      → (((faces h.face).id ≢ (faces in_f).id) ⊎ ((faces h.face).link_type ≡ ad_hoc))
        × ((s.localhost i.name ≡ false) ⊎ ((faces h.face).scope ≡ local))
        × ((s.localhop i.name ≡ false)
            ⊎ ((faces h.face).scope ≡ local)
            ⊎ ((faces in_f).scope ≡ local))
        × ((want_unused ≡ false)
            ⊎ (get_out_record h.face e ≡ none)
            ⊎ ((r : OutRecord) × (get_out_record h.face e ≡ some r) × (r.expiry ≤ now)))
  unfolding is_next_hop_eligible would_violate_scope
  is_next_hop_eligible_guards e want_unused now h ok =
      (ground arith, ground arith, ground arith, unused)
    where
      unused :
          (want_unused ≡ false)
          ⊎ (get_out_record h.face e ≡ none)
          ⊎ ((r : OutRecord) × (get_out_record h.face e ≡ some r) × (r.expiry ≤ now))
      unused = elim (Option-cases (get_out_record h.face e)) [
        | inl gone ↦ inr (inl gone)
        | inr (r, o) ↦ elim (Bool-cases want_unused) [
          | inr any ↦ inl any
          | inl w ↦ inr (inr (r, o, ground arith))
        ]
      ]

  module _ (e : Entry N) where
    abbrev pub Eligible : NextHop → Type 0
    Eligible h = is_next_hop_eligible s faces in_f i e false 0 h ≡ true

    abbrev pub Ineligible : NextHop → Type 0
    Ineligible h = is_next_hop_eligible s faces in_f i e false 0 h ≡ false

    -- No eligible next hop of the list was renewed before `t`.
    abbrev pub AllSince : ℕ → List NextHop → Type 0
    AllSince t [] = Unit {0}
    AllSince t (h ∷ hs) = (Ineligible h ⊎ Since t (get_out_record h.face e)) × AllSince t hs

    -- The note of `findEligibleNextHopWithEarliestOutRecord`: each eligible next hop has an
    -- out-record, renewed before the end of time.
    abbrev pub HasRecords : List NextHop → Type 0
    HasRecords [] = Unit {0}
    HasRecords (h ∷ hs) =
        (Ineligible h
          ⊎ ((r : OutRecord) × (get_out_record h.face e ≡ some r) × (r.last_renewed < time_max)))
        × HasRecords hs

    pub data Pick (found : Option NextHop) (renewed : ℕ) (hs : List NextHop) (res : Option NextHop)
        : Type 0 where
      keep : res ≡ found → AllSince renewed hs → Pick found renewed hs res
      take :
          (h : NextHop) (r : OutRecord)
          → Memᴰ h hs
          → Eligible h
          → get_out_record h.face e ≡ some r
          → r.last_renewed < renewed
          → AllSince r.last_renewed hs
          → res ≡ some h
          → Pick found renewed hs res

    abbrev HeadSince : ℕ → NextHop → Type 0
    HeadSince t h = Ineligible h ⊎ Since t (get_out_record h.face e)

    HeadSince-mono : (t u : ℕ) (h : NextHop) → t ≤ u → HeadSince u h → HeadSince t h
    HeadSince-mono t u h le (inl skip) = inl skip
    HeadSince-mono t u h le (inr since) = inr (Since-mono t u (get_out_record h.face e) le since)

    HeadSince-some :
        (t : ℕ) (h : NextHop) (r : OutRecord)
        → get_out_record h.face e ≡ some r
        → t ≤ r.last_renewed
        → HeadSince t h
    HeadSince-some t h r o le = inr (rw o le)

    AllSince-mono : (t u : ℕ) (hs : List NextHop) → t ≤ u → AllSince u hs → AllSince t hs
    AllSince-mono t u [] le a = tt
    AllSince-mono t u (h ∷ hs) le a = (HeadSince-mono t u h le a.0, AllSince-mono t u hs le a.1)

    Pick-skip :
        (h : NextHop) (found : Option NextHop) (renewed : ℕ) (hs : List NextHop)
        (res : Option NextHop)
        → HeadSince renewed h
        → Pick found renewed hs res
        → Pick found renewed (h ∷ hs) res
    Pick-skip h found renewed hs res head (keep eq a) = keep eq (head, a)
    Pick-skip h found renewed hs res head (take h' r' m ok o lt a eq) =
        take h' r' (Memᴰ.tail m) ok o lt
          (HeadSince-mono r'.last_renewed renewed h (omega arith) head, a) eq

    Pick-take :
        (h : NextHop) (r : OutRecord) (found : Option NextHop) (renewed : ℕ) (hs : List NextHop)
        (res : Option NextHop)
        → Eligible h
        → get_out_record h.face e ≡ some r
        → r.last_renewed < renewed
        → Pick (some h) r.last_renewed hs res
        → Pick found renewed (h ∷ hs) res
    Pick-take h r found renewed hs res ok o lt (keep eq a) =
        take h r (Memᴰ.head refl) ok o lt (HeadSince-some r.last_renewed h r o (omega arith), a) eq
    Pick-take h r found renewed hs res ok o lt (take h' r' m ok' o' lt' a eq) =
        take h' r' (Memᴰ.tail m) ok' o' (omega arith)
          (HeadSince-some r'.last_renewed h r o (omega arith), a) eq

    record_of :
        (h : NextHop)
        → Ineligible h
          ⊎ ((r : OutRecord) × (get_out_record h.face e ≡ some r) × (r.last_renewed < time_max))
        → Eligible h
        → (r : OutRecord) × (get_out_record h.face e ≡ some r) × (r.last_renewed < time_max)
    record_of h (inl skip) ok = absurd (cc)
    record_of h (inr found) ok = found

    earliest-Pick :
        (hs : List NextHop) (found : Option NextHop) (renewed : ℕ)
        → HasRecords hs
        → (res : Option NextHop) × (earliest s faces in_f i e found renewed hs ≡ some res)
          × Pick found renewed hs res
    unfolding earliest
    earliest-Pick [] found renewed all = (found, refl, keep refl tt)
    earliest-Pick (h ∷ hs) found renewed all =
        let (res, runs, pick) = earliest-Pick hs found renewed all.1 in
        elim (Bool-cases (is_next_hop_eligible s faces in_f i e false 0 h)) [
          | inr skip ↦ (res, rw skip runs, Pick-skip h found renewed hs res (inl skip) pick)
          | inl ok ↦
              let (r, o, _) = record_of h all.0 ok in
              elim (Bool-cases (ltb r.last_renewed renewed)) [
                | inl lt ↦
                    let (res', runs', pick') = earliest-Pick hs (some h) r.last_renewed all.1 in
                    (
                      res',
                      rw (ok, o, lt) runs',
                      Pick-take h r found renewed hs res' ok o (ground arith) pick',
                    )
                | inr ge ↦ (
                  res,
                  rw (ok, o, ge) runs,
                  Pick-skip h found renewed hs res (HeadSince-some renewed h r o (ground arith))
                      pick,
                )
              ]
        ]

    abbrev pub NoneEligible : List NextHop → Type 0
    NoneEligible [] = Unit {0}
    NoneEligible (h ∷ hs) = Ineligible h × NoneEligible hs

    none_eligible : (hs : List NextHop) → HasRecords hs → AllSince time_max hs → NoneEligible hs
    none_eligible [] all a = tt
    none_eligible (h ∷ hs) all a = (head all.0 a.0, none_eligible hs all.1 a.1)
      where
        head :
            Ineligible h
              ⊎ ((r : OutRecord) × (get_out_record h.face e ≡ some r) × (r.last_renewed < time_max))
            → HeadSince time_max h
            → Ineligible h
        head (inl skip) since = skip
        head (inr found) (inl skip) = skip
        head (inr (r, o, lt)) (inr since) =
            let le : time_max ≤ r.last_renewed = rw o at since in absurd (omega arith)

    -- Where each eligible next hop has an out-record, renewed before the greatest time of the clock, the
    -- search ends without a failed assertion: either no next hop is eligible and it finds none, or it finds an eligible next hop of the
    -- list such that no eligible one has an out-record renewed before.
    pub find_eligible_next_hop_with_earliest_out_record_lem :
        (hs : List NextHop)
        → HasRecords hs
        → ((find_eligible_next_hop_with_earliest_out_record s faces in_f i e hs ≡ some none)
            × NoneEligible hs)
          ⊎ ((h : NextHop) × (r : OutRecord) × (find_eligible_next_hop_with_earliest_out_record s
                  faces in_f i e hs
                ≡ some (some h))
              × Memᴰ h hs
              × Eligible h
              × (get_out_record h.face e ≡ some r)
              × AllSince r.last_renewed hs)
    unfolding find_eligible_next_hop_with_earliest_out_record
    find_eligible_next_hop_with_earliest_out_record_lem hs all =
        go (earliest-Pick hs none time_max all)
      where
        go :
            (res : Option NextHop) × (earliest s faces in_f i e none time_max hs ≡ some res)
              × Pick none time_max hs res
            → ((earliest s faces in_f i e none time_max hs ≡ some none) × NoneEligible hs)
              ⊎ ((h : NextHop) × (r : OutRecord) × (earliest s faces in_f i e none time_max hs
                    ≡ some (some h))
                  × Memᴰ h hs
                  × Eligible h
                  × (get_out_record h.face e ≡ some r)
                  × AllSince r.last_renewed hs)
        go (res, runs, keep eq a) = inl (cc, none_eligible hs all a)
        go (res, runs, take h r m ok o lt a eq) = inr (h, r, cc, m, ok, o, a)
