-- ===== src/Codecs.antt =====
-- codec/codec.go and the table `Codecs` of share/share.go. The two protobuf libraries and
-- encoding/json are a `Libraries`: a type assertion to one of their interfaces depends on the dynamic
-- type of the value only.
pub mod RoundTrip
use a_simple_rpc.Prelude.{ℕ, Bool, true, [], ◌∷◌, ◌++◌, Option, none, some, if◌then◌else◌, nat_eq}
use a_simple_rpc.Prelude.Bytes.{Bytes, Text, codes}
use a_simple_rpc.Prelude.Maps.{Map, lookup}
use a_simple_rpc.Outcome.{Err, external, unsupported_codec, Outcome, ok, fail, panic}
use a_simple_rpc.Protocol.Header.{json, proto_buffer}
use a_simple_rpc.Client.Call.{Codec}
use a_simple_rpc.Server.Handler.{Backend}

-- Dynamic types are numbers, and `type_text` is what `%T` prints. `gogo` is the library
-- github.com/gogo/protobuf, `pb` is google.golang.org/protobuf; `json_decode` decodes with numbers
-- kept as `json.Number` where its first argument says so.
pub record Libraries (V : Type 0) : Type 0 where
  pub type_of : V → ℕ
  pub type_text : ℕ → Text
  pub is_marshaler : ℕ → Bool
  pub is_unmarshaler : ℕ → Bool
  pub is_message : ℕ → Bool
  pub gogo_marshal : V → Bytes × Option Err
  pub gogo_unmarshal : Bytes → V → V × Option Err
  pub pb_marshal : V → Bytes × Option Err
  pub pb_unmarshal : Bytes → V → V × Option Err
  pub json_marshal : V → Bytes × Option Err
  pub json_decode : Bool → Bytes → V → V × Option Err
  pub error_text : Err → Text

-- The interface `Codec`. A value is decoded into another one, which is changed in place.
pub record Coder (V : Type 0) : Type 0 where
  pub encode_value : V → Bytes × Option Err
  pub decode_into : Bytes → V → V × Option Err

-- The error of a call into the codec that has succeeded or not.
unfoldable pub settled : Bytes × Option Err → Outcome Bytes
settled (bytes, none) = ok bytes
settled (bytes, some e) = fail e

module _ {V : Type 0} (l : Libraries V) where
  -- `PBCodec.Encode`
  unfoldable pub pb_encode : V → Bytes × Option Err
  pb_encode v =
      if l.is_marshaler (l.type_of v)
      then l.gogo_marshal v
      else if l.is_message (l.type_of v)
      then l.pb_marshal v
      else (
        [],
        some (
            external
              (l.type_text (l.type_of v) ++ codes " is not a proto.Marshaler or pb.Message")),
      )

  -- `PBCodec.Decode`
  unfoldable pub pb_decode : Bytes → V → V × Option Err
  pb_decode bytes v =
      if l.is_unmarshaler (l.type_of v)
      then l.gogo_unmarshal bytes v
      else if l.is_message (l.type_of v)
      then l.pb_unmarshal bytes v
      else (
        v,
        some (
            external
              (l.type_text (l.type_of v) ++ codes " is not a proto.Unmarshaler  or pb.Message")),
      )

  unfoldable pub pb_codec : Coder V
  pb_codec = record { encode_value = pb_encode; decode_into = pb_decode }

  -- `JSONCodec`
  unfoldable pub json_codec : Coder V
  json_codec = record { encode_value = l.json_marshal; decode_into = l.json_decode true }

  -- `Codecs`
  unfoldable pub codecs : Map ℕ (Coder V)
  codecs = (json, json_codec) ∷ (proto_buffer, pb_codec) ∷ []

  -- The server's calls: on no codec they panic.
  unfoldable pub encode_on : Option (Coder V) → V → Outcome Bytes
  encode_on none v = panic
  encode_on (some c) v = settled (c.encode_value v)

  -- A request without a codec is refused before its payload is decoded.
  unfoldable pub decode_on : Option (Coder V) → Bytes → V → V × Option Err
  decode_on none bytes v = (v, some unsupported_codec)
  decode_on (some c) bytes v = c.decode_into bytes v

  -- A call without a codec fails before its arguments are encoded.
  unfoldable pub marshal_on : Option (Coder V) → V → Bytes × Option Err
  marshal_on none v = ([], some unsupported_codec)
  marshal_on (some c) v = c.encode_value v

  -- A server with these codecs, and a client with them.
  unfoldable pub with_codecs : Backend V → Backend V
  with_codecs b = record b {
    decode = λ st. decode_on (lookup st codecs);
    encode_value = λ st. encode_on (lookup st codecs);
    error_text = l.error_text;
  }

  unfoldable pub client_codec : Codec V
  client_codec = record {
    marshal = λ st. marshal_on (lookup st codecs);
    unmarshal = λ st. decode_on (lookup st codecs);
    error_text = l.error_text;
  }
