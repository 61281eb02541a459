-- ===== src/Protocol/Header/Bits.antt =====
-- The masks of the flag byte and of the serialization byte, checked over all bytes.
use a_simple_rpc.Prelude.{ℕ, ◌*◌, ◌/◌, ◌%◌, ◌^◌, ◌<◌, ◌≡◌, refl, Bool, true, ◌&&◌, ◌==◌, ltb, arith}
use a_simple_rpc.Prelude.Table.{all_below, all_below_sound}
use Prim.Native.Nat.{bit_and, bit_or}

-- What one flag byte says: the type bit, the heartbeat bit, the one-way bit and the status.
pub record FlagBits (b t hb ow st : ℕ) : Type 0 where
  pub type_bit : bit_and b 0x80 ≡ t
  pub heartbeat_bit : bit_and b 0x40 ≡ hb
  pub oneway_bit : bit_and b 0x20 ≡ ow
  pub status_bits : bit_and b 0x03 ≡ st
  pub bounded : b < 256

abbrev flags_are : ℕ → ℕ → ℕ → ℕ → ℕ → Bool
flags_are b t hb ow st =
    bit_and b 0x80 == t
    && (bit_and b 0x40 == hb && (bit_and b 0x20 == ow && (bit_and b 0x03 == st && ltb b 256)))

flags_are→FlagBits : (b t hb ow st : ℕ) → flags_are b t hb ow st ≡ true → FlagBits b t hb ow st
flags_are→FlagBits b t hb ow st h = ground arith

flags_table :
    (f t hb ow st : ℕ → ℕ)
    → all_below 256 (λ b. flags_are (f b) (t b) (hb b) (ow b) (st b)) ≡ true
    → (b : ℕ) → b < 256
    → FlagBits (f b) (t b) (hb b) (ow b) (st b)
flags_table f t hb ow st h b lt =
    flags_are→FlagBits _ _ _ _ _
      (all_below_sound 256 (λ b. flags_are (f b) (t b) (hb b) (ow b) (st b)) h b lt)

pub or_type :
    (b : ℕ)
    → b < 256
    → FlagBits (bit_or b 0x80) 0x80 (bit_and b 0x40) (bit_and b 0x20) (bit_and b 0x03)
unfolding all_below
or_type = flags_table _ _ _ _ _ refl

pub or_zero :
    (b : ℕ)
    → b < 256
    → FlagBits (bit_or b 0) (bit_and b 0x80) (bit_and b 0x40) (bit_and b 0x20) (bit_and b 0x03)
unfolding all_below
or_zero = flags_table _ _ _ _ _ refl

pub or_heartbeat :
    (b : ℕ)
    → b < 256
    → FlagBits (bit_or b 0x40) (bit_and b 0x80) 0x40 (bit_and b 0x20) (bit_and b 0x03)
unfolding all_below
or_heartbeat = flags_table _ _ _ _ _ refl

pub clear_heartbeat :
    (b : ℕ)
    → b < 256
    → FlagBits (bit_and b 0xbf) (bit_and b 0x80) 0 (bit_and b 0x20) (bit_and b 0x03)
unfolding all_below
clear_heartbeat = flags_table _ _ _ _ _ refl

pub or_oneway :
    (b : ℕ)
    → b < 256
    → FlagBits (bit_or b 0x20) (bit_and b 0x80) (bit_and b 0x40) 0x20 (bit_and b 0x03)
unfolding all_below
or_oneway = flags_table _ _ _ _ _ refl

pub clear_oneway :
    (b : ℕ)
    → b < 256
    → FlagBits (bit_and b 0xdf) (bit_and b 0x80) (bit_and b 0x40) 0 (bit_and b 0x03)
unfolding all_below
clear_oneway = flags_table _ _ _ _ _ refl

abbrev with_status : ℕ → ℕ → ℕ
with_status b st = bit_or (bit_and b 0xfc) st

status_table :
    all_below 4 (λ st.
      all_below 256
        (λ b. flags_are (with_status b st) (bit_and b 0x80) (bit_and b 0x40) (bit_and b 0x20) st))
    ≡ true
unfolding all_below
status_table = refl

pub put_status :
    (b st : ℕ)
    → b < 256
    → st < 4
    → FlagBits (with_status b st) (bit_and b 0x80) (bit_and b 0x40) (bit_and b 0x20) st
put_status b st h k =
    flags_table (λ b. with_status b st) (λ b. bit_and b 0x80) (λ b. bit_and b 0x40)
      (λ b. bit_and b 0x20) (λ _. st) (all_below_sound 4 _ status_table st k) b h

abbrev with_serialize : ℕ → ℕ → ℕ
with_serialize b s = bit_or (bit_and b 0x0f) (s * 2 ^ 4)

abbrev serialize_is : ℕ → ℕ → Bool
serialize_is s b = bit_and (with_serialize b s) 0xf0 / 2 ^ 4 == s && ltb (with_serialize b s) 256

serialize_is→eq :
    (s b : ℕ)
    → serialize_is s b ≡ true
    → (bit_and (with_serialize b s) 0xf0 / 2 ^ 4 ≡ s) × (with_serialize b s < 256)
serialize_is→eq s b h = ground arith

serialize_table : all_below 16 (λ s. all_below 256 (serialize_is s)) ≡ true
unfolding all_below
serialize_table = refl

pub put_serialize :
    (b s : ℕ)
    → b < 256
    → s < 16
    → (bit_and (with_serialize b s) 0xf0 / 2 ^ 4 ≡ s) × (with_serialize b s < 256)
put_serialize b s h k =
    serialize_is→eq s b
      (all_below_sound 256 (serialize_is s) (all_below_sound 16 _ serialize_table s k) b h)

low_two_table : all_below 256 (λ m. bit_and m 0x03 == m % 4) ≡ true
unfolding all_below
low_two_table = refl

pub low_two : (m : ℕ) → m < 256 → bit_and m 0x03 ≡ m % 4
low_two m h = ground (arith, all_below_sound 256 (λ m. bit_and m 0x03 == m % 4) low_two_table m h)
