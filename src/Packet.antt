-- ===== src/Packet.antt =====
-- The parts of ndn-cxx packets and of faces that daemon/fw and daemon/table read.
-- `N` stands for ndn::Name. A `Face&` is the address of the face, and what the code reads
-- through it is a `Face` record. Times are nanoseconds of the steady clock.
use nfd_out_of_the_box.Prelude.{ℕ, ◌*◌, Bool, Option, not, List}

abbrev pub FaceRef : Type 0
FaceRef = ℕ

pub data FaceScope : Type 0 where
  local non_local : FaceScope

pub data LinkType : Type 0 where
  point_to_point multi_access ad_hoc : LinkType

pub record Face : Type 0 where
  pub id : ℕ
  pub scope : FaceScope
  pub link_type : LinkType

abbrev pub is_local : FaceScope → Bool
is_local local = Bool.true
is_local non_local = Bool.false

abbrev pub is_point_to_point : LinkType → Bool
is_point_to_point point_to_point = Bool.true
is_point_to_point _ = Bool.false

abbrev pub is_ad_hoc : LinkType → Bool
is_ad_hoc ad_hoc = Bool.true
is_ad_hoc _ = Bool.false

abbrev pub milliseconds : ℕ → ℕ
milliseconds t = t * 1000000

-- `lifetime` in milliseconds, as in the packet; `next_hop_face_id` is the NextHopFaceId tag.
pub record Interest (N : Type 0) : Type 0 where
  pub name : N
  pub can_be_prefix : Bool
  pub must_be_fresh : Bool
  pub nonce : ℕ
  pub lifetime : ℕ
  pub hop_limit : Option ℕ
  pub has_forwarding_hint : Bool
  pub next_hop_face_id : Option ℕ

-- lp::NackReason, with `none` written `no_reason`.
pub data NackReason : Type 0 where
  no_reason congestion duplicate no_route : NackReason

pub record Nack (N : Type 0) : Type 0 where
  pub interest : Interest N
  pub reason : NackReason

-- `freshness_period` in milliseconds; `content` stands for what the forwarder does not read.
pub record Data (N : Type 0) : Type 0 where
  pub name : N
  pub freshness_period : ℕ
  pub content : List ℕ

-- `==` on bool
abbrev pub bool_eq : Bool → Bool → Bool
bool_eq Bool.true b = b
bool_eq Bool.false b = not b
