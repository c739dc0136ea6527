-- ===== src/Fw/Algorithm.antt =====
-- daemon/fw/algorithm.cpp. `faces` reads the attributes of the face at an address; the scope
-- prefixes of scope-prefix.cpp come with ndn-cxx's Name::isPrefixOf as parameters.
pub mod Nonces
pub mod NextHops
use nfd_out_of_the_box.Prelude.{
  ℕ, ◌-◌, ◌^◌, Bool, true, false, not, ◌&&◌, ◌||◌, Option, none, some, List, [], ◌∷◌, ltb, leb,
  ◌==◌, if◌then◌else◌,
}
use nfd_out_of_the_box.Packet.{FaceRef, Face, Interest, NackReason, FaceScope, is_local, is_ad_hoc}
use nfd_out_of_the_box.Pit.{Entry, InRecord, OutRecord, in_face, get_out_record}

-- `localhost` and `localhop` are LOCALHOST.isPrefixOf and LOCALHOP.isPrefixOf.
pub record ScopePrefix (N : Type 0) : Type 0 where
  pub localhost : N → Bool
  pub localhop : N → Bool

pub record NextHop : Type 0 where
  pub face : FaceRef
  pub cost : ℕ

-- The OR'ed DuplicateNonceWhere, a field for each bit.
pub record DuplicateNonce : Type 0 where
  pub in_same : Bool
  pub in_other : Bool
  pub out_same : Bool
  pub out_other : Bool

abbrev pub duplicate_nonce_none : DuplicateNonce
duplicate_nonce_none = record {
  in_same = false;
  in_other = false;
  out_same = false;
  out_other = false;
}

-- `dnw != DUPLICATE_NONCE_NONE`
unfoldable pub is_duplicate : DuplicateNonce → Bool
is_duplicate d = d.in_same || d.in_other || d.out_same || d.out_other

abbrev pub any : {A : Type 0} → (A → Bool) → List A → Bool
any p [] = false
any p (x ∷ xs) = p x || any p xs

-- The largest count of a signed 64-bit clock.
abbrev pub time_max : ℕ
time_max = 2 ^ 63 - 1

module _ {N : Type 0} where
  unfoldable pub would_violate_scope :
      ScopePrefix N → (FaceRef → Face) → FaceRef → Interest N → FaceRef → Bool
  would_violate_scope s faces in_f i out_f =
      if is_local (faces out_f).scope
      then false
      else if s.localhost i.name
      then true
      else if s.localhop i.name
      then not (is_local (faces in_f).scope)
      else false

  unfoldable pub can_forward_to_legacy : ℕ → Entry N → FaceRef → Bool
  can_forward_to_legacy now e f =
      if any (λ r. r.face == f && leb now r.expiry) e.out_records
      then false
      else if not (any (λ r. not (in_face r == f) && leb now r.expiry) e.in_records)
      then false
      else true

  -- The first loop of `findDuplicateNonce`.
  mark_in : ℕ → FaceRef → DuplicateNonce → List (InRecord N) → DuplicateNonce
  mark_in nonce f d [] = d
  mark_in nonce f d (r ∷ rs) =
      mark_in nonce f
        (if r.last_nonce == nonce
          then (if r.face == f then record d { in_same = true } else record d { in_other = true })
          else d)
        rs

-- The second loop.
mark_out : ℕ → FaceRef → DuplicateNonce → List OutRecord → DuplicateNonce
mark_out nonce f d [] = d
mark_out nonce f d (r ∷ rs) =
    mark_out nonce f
      (if r.last_nonce == nonce
        then (if r.face == f then record d { out_same = true } else record d { out_other = true })
        else d)
      rs

abbrev pub is_nacked : OutRecord → Bool
is_nacked r = elim r.incoming_nack [ none ↦ false | some n ↦ true ]

-- The test of `hasPendingOutRecords` on one record.
abbrev pub is_pending : ℕ → OutRecord → Bool
is_pending now r = leb now r.expiry && not (is_nacked r)

-- The out-record test of `isNextHopEligible`, for `wantUnused`.
is_used : ℕ → Option OutRecord → Bool
is_used now none = false
is_used now (some r) = ltb now r.expiry

-- std::max_element over `getLastRenewed`: the first largest; `none` for the end iterator.
max_renewed : Option ℕ → List OutRecord → Option ℕ
max_renewed best [] = best
max_renewed none (r ∷ rs) = max_renewed (some r.last_renewed) rs
max_renewed (some b) (r ∷ rs) =
    max_renewed (some (if ltb b r.last_renewed then r.last_renewed else b)) rs

module _ {N : Type 0} where
  unfoldable pub find_duplicate_nonce : Entry N → ℕ → FaceRef → DuplicateNonce
  unfolding mark_in mark_out
  find_duplicate_nonce e nonce f =
      mark_out nonce f (mark_in nonce f duplicate_nonce_none e.in_records) e.out_records

  unfoldable pub has_pending_out_records : ℕ → Entry N → Bool
  has_pending_out_records now e = any (is_pending now) e.out_records

  unfoldable pub get_last_outgoing : Entry N → Option ℕ
  unfolding max_renewed
  get_last_outgoing e = max_renewed none e.out_records

module _ {N : Type 0} (s : ScopePrefix N) (faces : FaceRef → Face) (in_f : FaceRef)
    (i : Interest N) where
  unfoldable pub is_next_hop_eligible : Entry N → Bool → ℕ → NextHop → Bool
  unfolding is_used
  is_next_hop_eligible e want_unused now h =
      if (faces h.face).id == (faces in_f).id && not (is_ad_hoc (faces h.face).link_type)
        || would_violate_scope s faces in_f i h.face
      then false
      else if want_unused && is_used now (get_out_record h.face e)
      then false
      else true

  -- The loop of `findEligibleNextHopWithEarliestOutRecord`; the outer `none` is the failed
  -- assertion that the out-record exists.
  earliest : Entry N → Option NextHop → ℕ → List NextHop → Option (Option NextHop)
  earliest e found renewed [] = some found
  earliest e found renewed (h ∷ hs) =
      let next = earliest e found renewed hs in
      if not (is_next_hop_eligible e false 0 h) then next else elim (get_out_record h.face e) [
        | none ↦ none
        | some r ↦
            if ltb r.last_renewed renewed then earliest e (some h) r.last_renewed hs else next
      ]

  unfoldable pub find_eligible_next_hop_with_earliest_out_record :
      Entry N → List NextHop → Option (Option NextHop)
  unfolding earliest
  find_eligible_next_hop_with_earliest_out_record e hs = earliest e none time_max hs
