-- ===== src/Protocol/Header/Fields.antt =====
-- A header as the fields that its accessors read, its setters, and what a write of one byte does to the
-- fields.
use a_simple_rpc.Prelude.{
  ℕ, zero, suc, ◌/◌, ◌%◌, ◌^◌, ◌<◌, ◌≡◌, refl, Bool, ◌==◌, if◌then◌else◌, arith, [], ◌∷◌, set,
  length, length-set, All,
}
use a_simple_rpc.Prelude.Bytes.{Bytes, IsByte}
use a_simple_rpc.Protocol.Header.{
  Header, IsHeader, byte, version, set_version, message_type, set_message_type, is_heartbeat,
  set_heartbeat, is_oneway, set_oneway, message_status_type, set_message_status_type,
  serialize_type, set_serialize_type, seq, set_seq,
}
use a_simple_rpc.Protocol.Header.Bits.{FlagBits}
use Prim.Native.Nat.{bit_and}

pub record View : Type 0 where
  pub magic : ℕ
  pub version_ : ℕ
  pub type_ : ℕ
  pub heartbeat : Bool
  pub oneway : Bool
  pub status : ℕ
  pub serialize : ℕ
  pub seq_ : ℕ

unfoldable pub view : Header → View
view h = record {
  magic = byte h 0;
  version_ = version h;
  type_ = message_type h;
  heartbeat = is_heartbeat h;
  oneway = is_oneway h;
  status = message_status_type h;
  serialize = serialize_type h;
  seq_ = seq h;
}

-- The setters of the header.
pub data Setter : Type 0 where
  to_version to_type to_status to_serialize to_seq : ℕ → Setter
  to_heartbeat to_oneway : Bool → Setter

unfoldable pub apply : Setter → Header → Header
apply (to_version v) h = set_version h v
apply (to_type mt) h = set_message_type h mt
apply (to_status mt) h = set_message_status_type h mt
apply (to_serialize st) h = set_serialize_type h st
apply (to_seq s) h = set_seq h s
apply (to_heartbeat hb) h = set_heartbeat h hb
apply (to_oneway ow) h = set_oneway h ow

-- What the setter's argument type says.
abbrev pub InRange : Setter → Type 0
InRange (to_version v) = v < 256
InRange (to_type mt) = mt < 256
InRange (to_status mt) = mt < 256
InRange (to_serialize st) = st < 256
InRange (to_seq s) = s < 2 ^ 64
InRange (to_heartbeat hb) = Unit {0}
InRange (to_oneway ow) = Unit {0}

-- The type bit can be set and not cleared; a status keeps two bits and a serialization four.
unfoldable pub apply_view : Setter → View → View
apply_view (to_version v) w = record w { version_ = v }
apply_view (to_type mt) w = record w { type_ = if mt % 2 == 1 then 1 else w.type_ }
apply_view (to_status mt) w = record w { status = mt % 4 }
apply_view (to_serialize st) w = record w { serialize = st % 16 }
apply_view (to_seq s) w = record w { seq_ = s }
apply_view (to_heartbeat hb) w = record w { heartbeat = hb }
apply_view (to_oneway ow) w = record w { oneway = ow }

pub set_byte-IsHeader : (h : Header) (i v : ℕ) → IsHeader h → v < 256 → IsHeader (set h i v)
set_byte-IsHeader h i v ok lt = record {
  size = omega (arith, length-set h i v, ok.size);
  bytes = go h i ok.bytes;
}
  where
    go : (xs : Bytes) (i : ℕ) → All IsByte xs → All IsByte (set xs i v)
    go [] i b = tt
    go (x ∷ xs) zero b = (lt, b.1)
    go (x ∷ xs) (suc i) b = (b.0, go xs i b.1)

pub byte-lt : (h : Bytes) (i : ℕ) → All IsByte h → byte h i < 256
byte-lt [] i b = omega arith
byte-lt (x ∷ xs) zero b = b.0
byte-lt (x ∷ xs) (suc i) b = byte-lt xs i b.1

-- A write to one byte, seen by the accessors.
pub view-set_version :
    (h : Header) (v : ℕ) → length h ≡ 12 → view (set h 1 v) ≡ record (view h) { version_ = v }
unfolding view version message_type is_heartbeat is_oneway message_status_type serialize_type seq
view-set_version [] v e = absurd (omega arith)
view-set_version (a ∷ []) v e = absurd (omega arith)
view-set_version (a ∷ b ∷ t) v e = refl

unfoldable pub flags_view : ℕ → View → View
flags_view v w = record w {
  type_ = bit_and v 0x80 / 2 ^ 7;
  heartbeat = bit_and v 0x40 == 0x40;
  oneway = bit_and v 0x20 == 0x20;
  status = bit_and v 0x03;
}

pub view-set_flags : (h : Header) (v : ℕ) → length h ≡ 12 → view (set h 2 v) ≡ flags_view v (view h)
unfolding view version message_type is_heartbeat is_oneway message_status_type serialize_type seq
    flags_view
view-set_flags [] v e = absurd (omega arith)
view-set_flags (a ∷ []) v e = absurd (omega arith)
view-set_flags (a ∷ b ∷ []) v e = absurd (omega arith)
view-set_flags (a ∷ b ∷ c ∷ t) v e = refl

pub view-set_serialize :
    (h : Header) (v : ℕ)
    → length h ≡ 12
    → view (set h 3 v) ≡ record (view h) { serialize = bit_and v 0xf0 / 2 ^ 4 }
unfolding view version message_type is_heartbeat is_oneway message_status_type serialize_type seq
view-set_serialize [] v e = absurd (omega arith)
view-set_serialize (a ∷ []) v e = absurd (omega arith)
view-set_serialize (a ∷ b ∷ []) v e = absurd (omega arith)
view-set_serialize (a ∷ b ∷ c ∷ []) v e = absurd (omega arith)
view-set_serialize (a ∷ b ∷ c ∷ d ∷ t) v e = refl

pub flags_view-FlagBits :
    (w : View) {v t hb ow st : ℕ}
    → FlagBits v t hb ow st
    → flags_view v w
      ≡ record w { type_ = t / 2 ^ 7; heartbeat = hb == 0x40; oneway = ow == 0x20; status = st }
unfolding flags_view
flags_view-FlagBits w f = ground arith
