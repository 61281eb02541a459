-- ===== src/Tests/Gateways.antt =====
-- server/gateway.go and server/converter.go on concrete HTTP requests.
use a_simple_rpc.Prelude.{ℕ, ◌≡◌, refl, [], ◌∷◌, none, arith, text_eq, bytes_eq}
use a_simple_rpc.Prelude.Int.{pos}
use a_simple_rpc.Prelude.Bytes.{codes}
use a_simple_rpc.Prelude.Maps.{lookup}
use a_simple_rpc.Outcome.{ok}
use a_simple_rpc.Protocol.Message.{Message}
use a_simple_rpc.Server.Converter.{
  HttpHeader, Parsers, http_request_to_message, x_message_id, x_serialize_type, x_meta,
}
use a_simple_rpc.Server.Converter.Drafts.{absent, given}
use a_simple_rpc.Server.Converter.Fields.{Converted, http_request_to_message-Converted}
use a_simple_rpc.Server.Gateway.{Web, HttpRequest, handle_gateway_request}
use a_simple_rpc.Server.Gateway.Replies.{Answered}
use a_simple_rpc.Server.Gateway.Traces.{Replies, Fault}
use a_simple_rpc.Server.Gateway.Answers.{handle_gateway_request-Answered}
use a_simple_rpc.Tests.Requests.{services, pools, backend}

-- Every number is seven, and every query has one name with two values.
abbrev parsers : Parsers
parsers = record {
  parse_uint = λ v. ok 7;
  atoi = λ v. (pos 1, none);
  parse_query = λ v. ok ((codes "user", codes "ann" ∷ codes "bob" ∷ []) ∷ []);
}

abbrev web : Web ℕ
web = record {
  backend = backend (ok none);
  parsers = parsers;
  to_camel = λ t. t;
  json_unmarshal = λ bytes v. (v, none);
  json_marshal = λ v. ok (v ∷ []);
  values_encode = λ m. [];
}

abbrev asking : HttpHeader
asking =
    (codes "X-SIMPLE-MessageID", codes "7")
    ∷ (codes "X-SIMPLE-SerializeType", codes "1")
    ∷ (codes "X-SIMPLE-Oneway", codes "0")
    ∷ []

http_request_to_message-Converted_example :
    (m : Message) × (http_request_to_message parsers asking (4 ∷ []) ≡ ok m)
    × Converted asking (4 ∷ []) 7 (pos 1) [] m
http_request_to_message-Converted_example =
    http_request_to_message-Converted parsers asking (4 ∷ []) 7 (pos 1) []
      (λ v n e. ground (arith, e)) (unfold x_message_id lookup bytes_eq in given 7 refl refl)
      (unfold x_serialize_type lookup bytes_eq in given (pos 1) refl refl)
      (unfold x_meta lookup bytes_eq in absent refl)

abbrev mul_page : HttpRequest
mul_page = record { path = codes "/Arith/Mul"; header = asking; body = ok (2 ∷ []) }

handle_gateway_request-Answered_example :
    Answered web
      (Replies web services mul_page pools)
      (Fault web services mul_page pools)
      (handle_gateway_request web services mul_page pools)
handle_gateway_request-Answered_example =
    handle_gateway_request-Answered web services mul_page pools (unfold bytes_eq in refl)
