-- ===== src/Core/Types.antt =====
-- internal/core/types.go and constants.go. A [32]byte or [64]byte array is the list of its bytes;
-- a time.Time is the number of nanoseconds of the Unix clock.
use cdml.Common.{ℕ, ◌*◌, Bool, List, Bytes, Bytes-discrete, replicate, ite, true, false, ltb}

abbrev pub PubKey : Type 0
PubKey = Bytes

abbrev pub Hash32 : Type 0
Hash32 = Bytes

abbrev pub Signature : Type 0
Signature = Bytes

abbrev pub Amount : Type 0
Amount = ℕ

-- the zero value of Hash32 and of PubKey
abbrev pub zero_hash : Hash32
zero_hash = replicate 32 0

-- Hash32.IsZero
unfoldable pub is_zero : Hash32 → Bool
unfolding Bytes-discrete
is_zero h = ite (Bytes-discrete h zero_hash) true false

pub data TxStatus : Type 0 where
  pending confirmed rejected : TxStatus

pub record WitnessSignature : Type 0 where
  pub witness_pub_key : PubKey
  pub dag_tip_at_sign : Hash32
  pub nonce_lock_seen : Bool
  pub sig : Signature

pub record Transaction : Type 0 where
  pub hash : Hash32
  pub sequence : ℕ  -- uint64
  pub nonce : ℕ  -- uint64
  pub from : PubKey
  pub to : PubKey
  pub amount : Amount
  pub sender_sig : Signature
  pub parent_hashes : List Hash32
  pub witness_sigs : List WitnessSignature
  pub created_at : ℕ
  pub status : TxStatus

pub record Witness : Type 0 where
  pub pub_key : PubKey
  pub addr : Bytes
  pub added_at : ℕ

pub record Snapshot : Type 0 where
  pub pub_key : PubKey
  pub sequence : ℕ
  pub balance : Amount
  pub dag_tips : List Hash32
  pub created_at : ℕ
  pub expires_at : ℕ

-- Snapshot.IsExpired at the instant `now`
unfoldable pub is_expired : ℕ → Snapshot → Bool
is_expired now s = ltb s.expires_at now

-- the packet types and their wire codes
pub data PacketType : Type 0 where
  ping pong tx_verify tx_witness_sig tx_confirmed nonce_lock handshake : PacketType

unfoldable pub packet_code : PacketType → ℕ
packet_code ping = 1
packet_code pong = 2
packet_code tx_verify = 10
packet_code tx_witness_sig = 11
packet_code tx_confirmed = 12
packet_code nonce_lock = 13
packet_code handshake = 20

abbrev pub max_amount : Amount
max_amount = 9_000_000_000_000_000

abbrev pub max_peers : ℕ
max_peers = 50

abbrev pub second : ℕ
second = 1_000_000_000

abbrev pub handshake_timeout : ℕ
handshake_timeout = 5 * second

abbrev pub ping_interval : ℕ
ping_interval = 30 * second
