-- ===== src/Codecs/RoundTrip.antt =====
-- What is encoded under a serialization type is decoded under it.
use a_simple_rpc.Prelude.{
  ℕ, ◌≡◌, ◌==◌, refl, true, Option, none, some, arith, ==_iff, nat_eq, inl, inr, Bool-cases,
}
use a_simple_rpc.Prelude.Bytes.{Bytes}
use a_simple_rpc.Prelude.Maps.{lookup}
use a_simple_rpc.Outcome.{Err, ok}
use a_simple_rpc.Protocol.Header.{json, proto_buffer}
use a_simple_rpc.Share.{has_codec}
use a_simple_rpc.Codecs.{
  Libraries, Coder, settled, pb_encode, pb_decode, pb_codec, json_codec, codecs, encode_on,
  decode_on, marshal_on,
}

-- What the libraries document of the values that they keep whole: a blank value of the same type,
-- decoded from the encoding of such a value, is that value. `IsBlank` is for a value fresh from
-- `reflect.New` or behind `Reset`; only `pb` resets the value itself. The generated code of `gogo`
-- gives a type both of its methods.
pub record Keeps {V : Type 0} (l : Libraries V) (IsBlank IsWhole : V → Type 0) : Type 0 where
  pub both : (t : ℕ) → l.is_marshaler t ≡ l.is_unmarshaler t
  pub gogo_law :
      (v w : V) (bytes : Bytes)
      → IsWhole v
      → IsBlank w
      → l.type_of w ≡ l.type_of v
      → l.gogo_marshal v ≡ (bytes, none)
      → l.gogo_unmarshal bytes w ≡ (v, none)
  pub pb_law :
      (v w : V) (bytes : Bytes)
      → IsWhole v
      → l.type_of w ≡ l.type_of v
      → l.pb_marshal v ≡ (bytes, none)
      → l.pb_unmarshal bytes w ≡ (v, none)
  pub json_law :
      (v w : V) (bytes : Bytes)
      → IsWhole v
      → IsBlank w
      → l.type_of w ≡ l.type_of v
      → l.json_marshal v ≡ (bytes, none)
      → l.json_decode true bytes w ≡ (v, none)

module _ {V : Type 0} (l : Libraries V) (IsBlank IsWhole : V → Type 0)
    (keeps : Keeps l IsBlank IsWhole) (v w : V) (bytes : Bytes) (whole : IsWhole v)
    (blank : IsBlank w) (same : l.type_of w ≡ l.type_of v) where
  pb-decode-encode : pb_encode l v ≡ (bytes, none) → pb_decode l bytes w ≡ (v, none)
  unfolding pb_encode pb_decode
  pb-decode-encode = elim (Bool-cases (l.is_unmarshaler (l.type_of v))) [
    | inl gogo ↦
        rw (same, keeps.both (l.type_of v), gogo) (keeps.gogo_law v w bytes whole blank same)
    | inr other ↦ elim (Bool-cases (l.is_message (l.type_of v))) [
      | inl message ↦
          rw (same, keeps.both (l.type_of v), other, message) (keeps.pb_law v w bytes whole same)
      | inr neither ↦ rw (same, keeps.both (l.type_of v), other, neither) λ e. absurd (cc e)
    ]
  ]

settled-ok : (p : Bytes × Option Err) (bytes : Bytes) → settled p ≡ ok bytes → p ≡ (bytes, none)
unfolding settled
settled-ok (bs, none) bytes e = cc e
settled-ok (bs, some x) bytes e = absurd (cc e)

-- The codec of a serialization type that has one keeps a value whole, for the client and for the
-- server.
pub record Kept {V : Type 0} (l : Libraries V) (IsBlank IsWhole : V → Type 0) (st : ℕ)
    : Type 0 where
  pub coder : Coder V
  pub found : lookup st (codecs l) ≡ some coder
  pub law :
      (v w : V) (bytes : Bytes)
      → IsWhole v
      → IsBlank w
      → l.type_of w ≡ l.type_of v
      → coder.encode_value v ≡ (bytes, none)
      → coder.decode_into bytes w ≡ (v, none)

module _ {V : Type 0} (l : Libraries V) (IsBlank IsWhole : V → Type 0)
    (keeps : Keeps l IsBlank IsWhole) (st : ℕ) where
  pub has_codec-Kept : has_codec st ≡ true → Kept l IsBlank IsWhole st
  unfolding has_codec codecs lookup json_codec pb_codec
  has_codec-Kept known = elim (Bool-cases (st == json)) [
    | inl is_json ↦ record {
      coder = json_codec l;
      found = rw ((==_iff st json).0 is_json) refl;
      law = keeps.json_law;
    }
    | inr other ↦
        let is_pb : st ≡ proto_buffer = ground (arith, known, other, ==_iff st proto_buffer) in
        record {
          coder = pb_codec l;
          found = rw is_pb refl;
          law = λ v w bytes whole blank same.
              pb-decode-encode l IsBlank IsWhole keeps v w bytes whole blank same;
        }
  ]

  module _ (known : has_codec st ≡ true) (v w : V) (bytes : Bytes) (whole : IsWhole v)
      (blank : IsBlank w) (same : l.type_of w ≡ l.type_of v) where
    -- For a serialization type that has a codec: what the server encodes of a whole value, decoded into a
    -- blank value of the same type, is that value, without an error.
    pub decode_on-encode_on :
        encode_on l (lookup st (codecs l)) v ≡ ok bytes
        → decode_on l (lookup st (codecs l)) bytes w ≡ (v, none)
    unfolding encode_on decode_on
    decode_on-encode_on =
        let k = has_codec-Kept known in
        rw k.found λ e. k.law v w bytes whole blank same (settled-ok _ bytes e)

    -- The same for what the client encodes.
    pub decode_on-marshal_on :
        marshal_on l (lookup st (codecs l)) v ≡ (bytes, none)
        → decode_on l (lookup st (codecs l)) bytes w ≡ (v, none)
    unfolding marshal_on decode_on
    decode_on-marshal_on =
        let k = has_codec-Kept known in rw k.found λ e. k.law v w bytes whole blank same e
