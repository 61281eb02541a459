-- ===== src/Protocol/Header.antt =====
-- The 12-byte header of protocol/message.go: a `Header` is a `[12]byte`, and a byte is a number
-- below 256. A shift to the left on a byte is taken modulo 256, as Go's conversion to `byte` does.
pub mod Bits
pub mod Fields
pub mod View
use a_simple_rpc.Prelude.{
  ℕ, ◌+◌, ◌*◌, ◌/◌, ◌%◌, ◌^◌, ◌≡◌, Bool, ◌==◌, if◌then◌else◌, get_or, set, take, drop, length, All,
  replicate,
}
use a_simple_rpc.Prelude.Bytes.{Bytes, IsByte, put_be, get_be, copy_at}
use Prim.Native.Nat.{bit_and, bit_or}

abbrev pub Header : Type 0
Header = Bytes

abbrev pub magic_number : ℕ
magic_number = 0x08

-- MessageType
abbrev pub request : ℕ
request = 0

abbrev pub response : ℕ
response = 1

-- MessageStatusType
abbrev pub normal : ℕ
normal = 0

abbrev pub error : ℕ
error = 1

-- SerializeType
abbrev pub serialize_none : ℕ
serialize_none = 0

abbrev pub json : ℕ
json = 1

abbrev pub proto_buffer : ℕ
proto_buffer = 2

-- What the type `[12]byte` says.
pub record IsHeader (h : Header) : Type 0 where
  pub size : length h ≡ 12
  pub bytes : All IsByte h

-- `h[i]`
abbrev pub byte : Header → ℕ → ℕ
byte h i = get_or h i 0

-- The array that `NewMessage` fills in: all zero but for the magic number.
unfoldable pub new_header : Header
new_header = set (replicate 12 0) 0 magic_number

unfoldable pub check_magic_number : Header → Bool
check_magic_number h = byte h 0 == magic_number

unfoldable pub version : Header → ℕ
version h = byte h 1

unfoldable pub set_version : Header → ℕ → Header
set_version h v = set h 1 v

unfoldable pub message_type : Header → ℕ
message_type h = bit_and (byte h 2) 0x80 / 2 ^ 7

unfoldable pub set_message_type : Header → ℕ → Header
set_message_type h mt = set h 2 (bit_or (byte h 2) (mt * 2 ^ 7 % 256))

unfoldable pub is_heartbeat : Header → Bool
is_heartbeat h = bit_and (byte h 2) 0x40 == 0x40

-- `x &^ m` on bytes is `x & (255 - m)`.
unfoldable pub set_heartbeat : Header → Bool → Header
set_heartbeat h hb =
    if hb then set h 2 (bit_or (byte h 2) 0x40) else set h 2 (bit_and (byte h 2) 0xbf)

unfoldable pub is_oneway : Header → Bool
is_oneway h = bit_and (byte h 2) 0x20 == 0x20

unfoldable pub set_oneway : Header → Bool → Header
set_oneway h oneway =
    if oneway then set h 2 (bit_or (byte h 2) 0x20) else set h 2 (bit_and (byte h 2) 0xdf)

unfoldable pub message_status_type : Header → ℕ
message_status_type h = bit_and (byte h 2) 0x03

unfoldable pub set_message_status_type : Header → ℕ → Header
set_message_status_type h mt = set h 2 (bit_or (bit_and (byte h 2) 0xfc) (bit_and mt 0x03))

unfoldable pub serialize_type : Header → ℕ
serialize_type h = bit_and (byte h 3) 0xf0 / 2 ^ 4

unfoldable pub set_serialize_type : Header → ℕ → Header
set_serialize_type h st = set h 3 (bit_or (bit_and (byte h 3) 0x0f) (st * 2 ^ 4 % 256))

unfoldable pub seq : Header → ℕ
seq h = get_be (take 8 (drop 4 h))

unfoldable pub set_seq : Header → ℕ → Header
set_seq h s = copy_at 4 (put_be 8 s) h
