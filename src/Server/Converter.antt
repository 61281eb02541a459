-- ===== src/Server/Converter.antt =====
-- server/converter.go: an HTTP request as a message. An HTTP header is a map from the names of the
-- constants, of which no two are the same to net/http, to its first value. The parsers of strconv and
-- net/url are arguments.
pub mod Drafts
pub mod Fields
use a_simple_rpc.Prelude.{
  ℕ, ◌-◌, ◌%◌, Bool, true, false, not, List, [], ◌∷◌, Option, none, some, if◌then◌else◌, bytes_eq,
  text_eq,
}
use a_simple_rpc.Prelude.Int.{ℤ, pos, negsuc}
use a_simple_rpc.Prelude.Bytes.{Bytes, Text, codes}
use a_simple_rpc.Prelude.Maps.{Map, lookup, insert}
use a_simple_rpc.Outcome.{Err, Outcome, ok, fail, panic, stuck}
use a_simple_rpc.Protocol.Header.{
  request, set_message_type, set_seq, set_heartbeat, set_oneway, set_serialize_type,
}
use a_simple_rpc.Protocol.Message.{Message, new_message}

abbrev pub HttpHeader : Type 0
HttpHeader = Map Text Text

unfoldable pub x_version : Text
x_version = codes "X-SIMPLE-Version"

unfoldable pub x_heartbeat : Text
x_heartbeat = codes "X-SIMPLE-Heartbeat"

unfoldable pub x_oneway : Text
x_oneway = codes "X-SIMPLE-Oneway"

unfoldable pub x_message_status_type : Text
x_message_status_type = codes "X-SIMPLE-MessageStatusType"

unfoldable pub x_serialize_type : Text
x_serialize_type = codes "X-SIMPLE-SerializeType"

unfoldable pub x_message_id : Text
x_message_id = codes "X-SIMPLE-MessageID"

unfoldable pub x_service_path : Text
x_service_path = codes "X-SIMPLE-ServicePath"

unfoldable pub x_service_method : Text
x_service_method = codes "X-SIMPLE-ServiceMethod"

unfoldable pub x_meta : Text
x_meta = codes "X-SIMPLE-Meta"

unfoldable pub x_error_message : Text
x_error_message = codes "X-SIMPLE-ErrorMessage"

-- `Header.Get`: empty where there is none.
abbrev pub or_empty : Option Text → Text
or_empty none = []
or_empty (some v) = v

abbrev pub header_get : Text → HttpHeader → Text
header_get k h = or_empty (lookup k h)

abbrev pub is_empty : Text → Bool
is_empty [] = true
is_empty (c ∷ cs) = false

-- `strconv.ParseUint(_, 10, 64)`, `strconv.Atoi` with the number it returns beside its error, and
-- `url.ParseQuery`.
pub record Parsers : Type 0 where
  pub parse_uint : Text → Outcome ℕ
  pub atoi : Text → ℤ × Option Err
  pub parse_query : Text → Outcome (Map Text (List Text))

-- `SerializeType(st)`: a byte.
abbrev pub to_byte : ℤ → ℕ
to_byte (pos n) = n % 256
to_byte (negsuc n) = 255 - n % 256

unfoldable pub and_then : {A B : Type 0} → Outcome A → (A → Outcome B) → Outcome B
and_then (ok a) f = f a
and_then (fail e) f = fail e
and_then panic f = panic
and_then stuck f = stuck

-- The first value of each name.
unfoldable pub first_values : Map Text (List Text) → Map Text Text → Map Text Text
first_values [] mt = mt
first_values ((k, []) ∷ md) mt = first_values md mt
first_values ((k, v ∷ vs) ∷ md) mt = first_values md (insert k v mt)

unfoldable pub with_seq : Message → Outcome ℕ → Outcome Message
with_seq m (ok id) = ok (record m { header = set_seq m.header id })
with_seq m (fail e) = fail e
with_seq m panic = panic
with_seq m stuck = stuck

unfoldable pub with_type : Message → ℤ × Option Err → Outcome Message
with_type m (st, none) = ok (record m { header = set_serialize_type m.header (to_byte st) })
with_type m (st, some e) = fail e

unfoldable pub with_metadata : Message → Outcome (Map Text (List Text)) → Outcome Message
with_metadata m (ok md) = ok (record m { metadata = first_values md [] })
with_metadata m (fail e) = fail e
with_metadata m panic = panic
with_metadata m stuck = stuck

-- One optional field of the header: `set` where it is not empty.
abbrev pub when_given : Text → (Text → Message → Outcome Message) → Message → Outcome Message
when_given v set m = if is_empty v then ok m else set v m

-- `HttpRequest2RpcxRequest`
unfoldable pub http_request_to_message : Parsers → HttpHeader → Bytes → Outcome Message
http_request_to_message p h payload =
    let m = record new_message { header = set_message_type new_message.header request } in
    and_then (when_given (header_get x_message_id h) (λ v m. with_seq m (p.parse_uint v)) m) λ m.
      and_then
        (when_given (header_get x_heartbeat h)
          (λ v m. ok (record m { header = set_heartbeat m.header true })) m)
        λ m.
          and_then
            (when_given (header_get x_oneway h)
              (λ v m. ok (record m { header = set_oneway m.header true })) m)
            λ m.
              and_then
                (when_given (header_get x_serialize_type h) (λ v m. with_type m (p.atoi v)) m)
                λ m.
                  and_then
                    (when_given (header_get x_meta h) (λ v m. with_metadata m (p.parse_query v)) m)
                    λ m. ok (record m {
                      service_path = header_get x_service_path h;
                      service_method = header_get x_service_method h;
                      payload = payload;
                    })
