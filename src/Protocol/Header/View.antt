-- ===== src/Protocol/Header/View.antt =====
-- Each setter of a header is an update of one field.
use a_simple_rpc.Prelude.{
  ℕ, suc, ◌+◌, ◌*◌, ◌%◌, ◌^◌, ◌<◌, ◌≡◌, ◌∙◌, Bool, true, false, ◌==◌, arith, [], ◌∷◌, set, length,
  All, inl, inr, Bool-cases, take_all, drop_all, append-nil, ◌-◌,
}
use a_simple_rpc.Prelude.Bytes.{
  Bytes, IsByte, put_be, copy_at, length-put_be, put_be-IsByte, get_be-put_be,
}
use a_simple_rpc.Protocol.Header.{
  Header, IsHeader, byte, version, set_version, message_type, set_message_type, is_heartbeat,
  set_heartbeat, is_oneway, set_oneway, message_status_type, set_message_status_type,
  serialize_type, set_serialize_type, seq, set_seq,
}
use a_simple_rpc.Protocol.Header.Bits.{
  FlagBits, or_type, or_zero, or_heartbeat, clear_heartbeat, or_oneway, clear_oneway, put_status,
  put_serialize, low_two,
}
use Prim.Native.Nat.{bit_or}
pub use a_simple_rpc.Protocol.Header.Fields.{
  View, Setter, to_version, to_type, to_status, to_serialize, to_seq, to_heartbeat, to_oneway,
  InRange,
}
unfoldable pub use a_simple_rpc.Protocol.Header.Fields.{view, apply, apply_view}
use a_simple_rpc.Protocol.Header.Fields.{
  set_byte-IsHeader, byte-lt, view-set_version, view-set_flags, view-set_serialize,
  flags_view-FlagBits,
}

module _ (h : Header) (ok : IsHeader h) where
  flags_byte-lt : byte h 2 < 256
  flags_byte-lt = byte-lt h 2 ok.bytes

  view-set_type :
      (mt : ℕ) → mt < 256 → view (set_message_type h mt) ≡ apply_view (to_type mt) (view h)
  unfolding set_message_type apply_view view message_type is_heartbeat is_oneway message_status_type
  view-set_type mt lt =
      view-set_flags h (bit_or (byte h 2) (mt * 2 ^ 7 % 256)) ok.size
      ∙ elim (Bool-cases (mt % 2 == 1)) [
        | inl odd ↦
            let e : mt * 2 ^ 7 % 256 ≡ 0x80 = ground arith in
            rw (e, odd) (flags_view-FlagBits (view h) (or_type (byte h 2) flags_byte-lt))
        | inr even ↦
            let e : mt * 2 ^ 7 % 256 ≡ 0 = ground arith in
            rw (e, even) (flags_view-FlagBits (view h) (or_zero (byte h 2) flags_byte-lt))
      ]

  view-set_heartbeat :
      (hb : Bool) → view (set_heartbeat h hb) ≡ apply_view (to_heartbeat hb) (view h)
  unfolding set_heartbeat apply_view view message_type is_heartbeat is_oneway message_status_type
  view-set_heartbeat true =
      view-set_flags h _ ok.size
      ∙ flags_view-FlagBits (view h) (or_heartbeat (byte h 2) flags_byte-lt)
  view-set_heartbeat false =
      view-set_flags h _ ok.size
      ∙ flags_view-FlagBits (view h) (clear_heartbeat (byte h 2) flags_byte-lt)

  view-set_oneway : (ow : Bool) → view (set_oneway h ow) ≡ apply_view (to_oneway ow) (view h)
  unfolding set_oneway apply_view view message_type is_heartbeat is_oneway message_status_type
  view-set_oneway true =
      view-set_flags h _ ok.size ∙ flags_view-FlagBits (view h) (or_oneway (byte h 2) flags_byte-lt)
  view-set_oneway false =
      view-set_flags h _ ok.size
      ∙ flags_view-FlagBits (view h) (clear_oneway (byte h 2) flags_byte-lt)

  view-set_status :
      (mt : ℕ) → mt < 256 → view (set_message_status_type h mt) ≡ apply_view (to_status mt) (view h)
  unfolding set_message_status_type apply_view view message_type is_heartbeat is_oneway
      message_status_type
  view-set_status mt lt =
      view-set_flags h _ ok.size
      ∙ rw (low_two mt lt) (
          flags_view-FlagBits (view h) (put_status (byte h 2) (mt % 4) flags_byte-lt (omega arith)))

  view-set_serialize_type :
      (st : ℕ) → st < 256 → view (set_serialize_type h st) ≡ apply_view (to_serialize st) (view h)
  unfolding set_serialize_type apply_view
  view-set_serialize_type st lt =
      let e : st * 2 ^ 4 % 256 ≡ st % 16 * 2 ^ 4 = omega arith in
      let p = put_serialize (byte h 3) (st % 16) (byte-lt h 3 ok.bytes) (omega arith) in
      view-set_serialize h _ ok.size ∙ rw (e, p.0)

-- `set_seq` writes bytes 4 to 11 and nothing else.
set_seq_lem :
    (a b c d : ℕ) (t : Bytes) (s : ℕ)
    → length t ≡ 8
    → set_seq (a ∷ b ∷ c ∷ d ∷ t) s ≡ a ∷ b ∷ c ∷ d ∷ put_be 8 s
unfolding set_seq copy_at
set_seq_lem a b c d t s e =
    let room : suc (suc (suc (suc (length t)))) - 4 ≡ 8 = omega arith in
    let end : 4 + length (put_be 8 s) ≡ 12 = omega (arith, length-put_be 8 s) in
    rw (
      room,
      end,
      take_all 8 (put_be 8 s) (omega (arith, length-put_be 8 s)),
      drop_all 8 t (omega arith),
      append-nil,
    )

view-set_seq :
    (h : Header) (s : ℕ)
    → length h ≡ 12
    → s < 2 ^ 64
    → view (set_seq h s) ≡ apply_view (to_seq s) (view h)
unfolding apply_view view version message_type is_heartbeat is_oneway message_status_type
    serialize_type seq
view-set_seq [] s e lt = absurd (omega arith)
view-set_seq (a ∷ []) s e lt = absurd (omega arith)
view-set_seq (a ∷ b ∷ []) s e lt = absurd (omega arith)
view-set_seq (a ∷ b ∷ c ∷ []) s e lt = absurd (omega arith)
view-set_seq (a ∷ b ∷ c ∷ d ∷ t) s e lt = rw (
  set_seq_lem a b c d t s (omega arith),
  take_all 8 (put_be 8 s) (omega (arith, length-put_be 8 s)),
  get_be-put_be 8 s lt,
)

first_four :
    (a b c d : ℕ) (t : Bytes)
    → All IsByte (a ∷ b ∷ c ∷ d ∷ t)
    → IsByte a × IsByte b × IsByte c × IsByte d × All IsByte t
first_four a b c d t (ha, (hb, (hc, (hd, ht)))) = (ha, hb, hc, hd, ht)

set_seq-IsHeader : (h : Header) (s : ℕ) → IsHeader h → IsHeader (set_seq h s)
set_seq-IsHeader [] s ok = absurd (omega (arith, ok.size))
set_seq-IsHeader (a ∷ []) s ok = absurd (omega (arith, ok.size))
set_seq-IsHeader (a ∷ b ∷ []) s ok = absurd (omega (arith, ok.size))
set_seq-IsHeader (a ∷ b ∷ c ∷ []) s ok = absurd (omega (arith, ok.size))
set_seq-IsHeader (a ∷ b ∷ c ∷ d ∷ t) s ok =
    rw (set_seq_lem a b c d t s (omega (arith, ok.size))) (record {
      size = omega (arith, length-put_be 8 s);
      bytes =
          let (ha, hb, hc, hd, _) = first_four a b c d t ok.bytes in
          (ha, (hb, (hc, (hd, put_be-IsByte 8 s))));
    })

set_flags-IsHeader :
    (h : Header) {v t hb ow st : ℕ} → IsHeader h → FlagBits v t hb ow st → IsHeader (set h 2 v)
set_flags-IsHeader h {v} ok f = set_byte-IsHeader h 2 v ok f.bounded

apply-IsHeader : (s : Setter) (h : Header) → IsHeader h → InRange s → IsHeader (apply s h)
unfolding apply set_version set_message_type set_heartbeat set_oneway set_message_status_type
    set_serialize_type
apply-IsHeader (to_version v) h ok r = set_byte-IsHeader h 1 v ok r
apply-IsHeader (to_type mt) h ok r = elim (Bool-cases (mt % 2 == 1)) [
  | inl odd ↦
      let e : mt * 2 ^ 7 % 256 ≡ 0x80 = ground arith in
      rw e (set_flags-IsHeader h ok (or_type (byte h 2) (flags_byte-lt h ok)))
  | inr even ↦
      let e : mt * 2 ^ 7 % 256 ≡ 0 = ground arith in
      rw e (set_flags-IsHeader h ok (or_zero (byte h 2) (flags_byte-lt h ok)))
]
apply-IsHeader (to_status mt) h ok r =
    rw (low_two mt r)
      (set_flags-IsHeader h ok (put_status (byte h 2) (mt % 4) (flags_byte-lt h ok) (omega arith)))
apply-IsHeader (to_serialize st) h ok r =
    let e : st * 2 ^ 4 % 256 ≡ st % 16 * 2 ^ 4 = omega arith in
    let p = put_serialize (byte h 3) (st % 16) (byte-lt h 3 ok.bytes) (omega arith) in
    rw e (set_byte-IsHeader h 3 _ ok p.1)
apply-IsHeader (to_seq s) h ok r = set_seq-IsHeader h s ok
apply-IsHeader (to_heartbeat true) h ok r =
    set_flags-IsHeader h ok (or_heartbeat (byte h 2) (flags_byte-lt h ok))
apply-IsHeader (to_heartbeat false) h ok r =
    set_flags-IsHeader h ok (clear_heartbeat (byte h 2) (flags_byte-lt h ok))
apply-IsHeader (to_oneway true) h ok r =
    set_flags-IsHeader h ok (or_oneway (byte h 2) (flags_byte-lt h ok))
apply-IsHeader (to_oneway false) h ok r =
    set_flags-IsHeader h ok (clear_oneway (byte h 2) (flags_byte-lt h ok))

view-setter :
    (s : Setter) (h : Header) → IsHeader h → InRange s → view (apply s h) ≡ apply_view s (view h)
unfolding apply set_version apply_view
view-setter (to_version v) h ok r = view-set_version h v ok.size
view-setter (to_type mt) h ok r = view-set_type h ok mt r
view-setter (to_status mt) h ok r = view-set_status h ok mt r
view-setter (to_serialize st) h ok r = view-set_serialize_type h ok st r
view-setter (to_seq s) h ok r = view-set_seq h s ok.size r
view-setter (to_heartbeat hb) h ok r = view-set_heartbeat h ok hb
view-setter (to_oneway ow) h ok r = view-set_oneway h ok ow

-- Each setter of a 12-byte header, given an argument of its type, leaves a 12-byte header in which
-- the accessors read the new value of that field and the old value of every other: the type bit is
-- set by an odd type and is never cleared, a status keeps its two low bits, a serialization type
-- its four low bits.
pub view-apply :
    (s : Setter) (h : Header)
    → IsHeader h
    → InRange s
    → IsHeader (apply s h) × (view (apply s h) ≡ apply_view s (view h))
view-apply s h ok r = (apply-IsHeader s h ok r, view-setter s h ok r)
