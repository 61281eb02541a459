-- ===== src/Server/Gateway.antt =====
-- server/gateway.go: HTTP requests, answered by the handler of the RPC requests. The packages strcase,
-- encoding/json and net/url are arguments; a panic ends the request in net/http.
pub mod Headers
pub mod Replies
pub mod Traces
pub mod Pages
pub mod Answers
pub mod Paths
use a_simple_rpc.Prelude.{
  ℕ, ◌%◌, Bool, true, false, not, ◌||◌, List, [], ◌∷◌, ◌++◌, Option, none, some, if◌then◌else◌,
  ◌==◌, bytes_eq, text_eq, ltb, length,
}
use a_simple_rpc.Prelude.Bytes.{Bytes, Text, codes}
use a_simple_rpc.Prelude.Maps.{Map, lookup, insert}
use a_simple_rpc.Outcome.{Err, external, Outcome, ok, fail, panic, stuck}
use a_simple_rpc.Share.{has_codec}
use a_simple_rpc.Protocol.Message.{Message}
use a_simple_rpc.Server.Pool.{Values, Pools, get, put}
use a_simple_rpc.Server.Handler.{MethodType, Service, Backend, get_service, handle_request}
use a_simple_rpc.Server.Converter.{
  HttpHeader, x_version, x_message_status_type, x_serialize_type, x_message_id, x_service_path,
  x_service_method, x_meta, x_error_message, header_get, is_empty, to_byte, Parsers,
  http_request_to_message,
}

-- `http.Request`: `URL.Path`, the header, and what reading the body gives.
pub record HttpRequest : Type 0 where
  pub path : Text
  pub header : HttpHeader
  pub body : Outcome Bytes

-- What the handler has written: `code` is 200 where `WriteHeader` was not called.
pub record HttpResponse : Type 0 where
  pub code : ℕ
  pub header : HttpHeader
  pub body : Bytes

pub record Web (V : Type 0) : Type 0 where
  pub backend : Backend V
  pub parsers : Parsers
  pub to_camel : Text → Text
  pub json_unmarshal : Bytes → V → V × Option Err
  pub json_marshal : V → Outcome Bytes
  pub values_encode : Map Text Text → Text

-- `strings.Split(_, "/")`
abbrev pub cons_head : ℕ → List Text → List Text
cons_head c [] = (c ∷ []) ∷ []
cons_head c (t ∷ ts) = (c ∷ t) ∷ ts

unfoldable pub split_slash : Text → List Text
split_slash [] = [] ∷ []
split_slash (c ∷ cs) = if c == 47 then [] ∷ split_slash cs else cons_head c (split_slash cs)

-- The response, or a panic, and the pools.
abbrev pub Replied : Type 0 → Type 0
Replied V = Outcome HttpResponse × Pools V

-- What the checks of the request's header find: the header of the request and of the response, and
-- the last error.
pub record Checked : Type 0 where
  pub request : HttpHeader
  pub response : HttpHeader
  pub error : Option Err

abbrev pub text_error : Text → Err
text_error t = external t

-- One required name: both headers get it.
unfoldable pub check_name : Text → Text → Text → Checked → Checked
check_name key name message k =
    if is_empty name
    then record k { error = some (text_error message) }
    else record k { request = insert key name k.request; response = insert key name k.response }

unfoldable pub check_type : Text → Checked → Checked
check_type st k =
    if is_empty st
    then record k { error = some (text_error (codes "empty serialize type")) }
    else record k { response = insert x_serialize_type st k.response }

-- The values that are handed on in the response's header.
unfoldable pub hand_on : Checked → Checked
hand_on k = record k {
  response = insert (codes "Content-Type") (codes "application/json") (
      insert x_message_id (header_get x_message_id k.request)
        (insert x_version (header_get x_version k.request) k.response));
}

unfoldable pub check_header : Text → Text → HttpHeader → Checked
check_header service_path service_method h =
    let start : Checked = record { request = h; response = []; error = none } in
    let k =
      check_name x_service_method service_method (codes "empty servicemethod")
        (check_name x_service_path service_path (codes "empty servicepath") start) in
    hand_on (check_type (header_get x_serialize_type k.request) k)

module _ {V : Type 0} (w : Web V) where
  -- `writeErrHeader`
  unfoldable pub write_err_header : HttpHeader → ℕ → Err → HttpResponse
  write_err_header wh code e = record {
    code = code;
    header =
        insert x_error_message (w.backend.error_text e)
          (insert x_message_status_type (codes "Error") wh);
    body = [];
  }

  abbrev pub refuse : HttpHeader → ℕ → Err → Pools V → Replied V
  refuse wh code e ps = (ok (write_err_header wh code e), ps)

  abbrev pub get_then : Outcome (V × Pools V) → Pools V → (V → Pools V → Replied V) → Replied V
  get_then (ok (x, ps')) ps k = k x ps'
  get_then _ ps k = (panic, ps)

  abbrev pub put_then : Outcome (Pools V) → Pools V → (Pools V → Replied V) → Replied V
  put_then (ok ps') ps k = k ps'
  put_then _ ps k = (panic, ps)

  -- Behind `json.Marshal` of the reply: the reply goes back to its pool on either way.
  unfoldable pub marshaled :
      HttpHeader → MethodType → Message → V → Outcome Bytes → Pools V → Replied V
  marshaled wh mt res reply (ok body) ps =
      put_then (put w.backend.values mt.reply_type reply ps) ps λ ps'. (
        ok (record {
          code = 200;
          header = insert x_meta (w.values_encode res.metadata) wh;
          body = body;
        }),
        ps',
      )
  marshaled wh mt res reply (fail e) ps =
      put_then (put w.backend.values mt.reply_type reply ps) ps λ ps'. refuse wh 500 e ps'
  marshaled wh mt res reply _ ps = (panic, ps)

  -- Behind `codec.Decode` of the response's payload.
  unfoldable pub decoded : HttpHeader → MethodType → Message → V × Option Err → Pools V → Replied V
  decoded wh mt res (reply, none) ps = marshaled wh mt res reply (w.json_marshal reply) ps
  decoded wh mt res (reply, some e) ps =
      put_then (put w.backend.values mt.reply_type reply ps) ps λ ps'. refuse wh 500 e ps'

  -- Behind `handleRequest`.
  unfoldable pub handled :
      HttpHeader → MethodType → ℕ → V → Outcome (Message × Option Err) × Pools V → Replied V
  handled wh mt st argv (ok (res, none), ps) =
      put_then (put w.backend.values mt.arg_type argv ps) ps λ ps'.
        get_then (get w.backend.values (w.backend.pick mt.reply_type) mt.reply_type ps') ps'
          λ replyv ps''. decoded wh mt res (w.backend.decode st res.payload replyv) ps''
  handled wh mt st argv (ok (res, some e), ps) = refuse wh 500 e ps
  handled wh mt st argv (_, ps) = (panic, ps)

  -- Behind `HttpRequest2RpcxRequest`.
  unfoldable pub converted :
      Map Text Service → HttpHeader → MethodType → ℕ → V → Outcome Message → Pools V → Replied V
  converted services wh mt st argv (ok req) ps =
      handled wh mt st argv (handle_request w.backend services req ps)
  converted services wh mt st argv (fail e) ps = refuse wh 403 e ps
  converted services wh mt st argv _ ps = (panic, ps)

  -- Behind `codec.Encode` of the argument.
  unfoldable pub encoded :
      Map Text Service → Checked → MethodType → ℕ → V → Outcome Bytes → Pools V → Replied V
  encoded services k mt st argv (ok payload) ps =
      converted services k.response mt st argv (http_request_to_message w.parsers k.request payload)
        ps
  encoded services k mt st argv (fail e) ps = refuse k.response 403 e ps
  encoded services k mt st argv _ ps = (panic, ps)

  -- Behind `json.Unmarshal`: the error of `Atoi` is dropped, and a call on a codec that is not there
  -- panics.
  unfoldable pub unmarshaled :
      Map Text Service → Checked → MethodType → V × Option Err → Pools V → Replied V
  unmarshaled services k mt (argv, some e) ps = refuse k.response 403 e ps
  unmarshaled services k mt (argv, none) ps =
      let st = to_byte (w.parsers.atoi (header_get x_serialize_type k.request)).0 in
      if has_codec st
      then encoded services k mt st argv (w.backend.encode_value st argv) ps
      else (panic, ps)

  -- Behind `io.ReadAll`.
  unfoldable pub body_read :
      Map Text Service → Checked → MethodType → V → Outcome Bytes → Pools V → Replied V
  body_read services k mt argv (ok body) ps =
      unmarshaled services k mt (w.json_unmarshal body argv) ps
  body_read services k mt argv (fail e) ps = refuse k.response 403 e ps
  body_read services k mt argv _ ps = (panic, ps)

  unfoldable pub with_method :
      Map Text Service → Checked → Outcome Bytes → Text → Option MethodType → Pools V → Replied V
  with_method services k body name none ps =
      refuse k.response 403 (text_error (codes "can't find method " ++ name)) ps
  with_method services k body name (some mt) ps =
      get_then (get w.backend.values (w.backend.pick mt.arg_type) mt.arg_type ps) ps
        λ argv ps'. body_read services k mt argv body ps'

  unfoldable pub with_service :
      Map Text Service → Checked → Outcome Bytes → Text → Outcome Service → Pools V → Replied V
  with_service services k body name (ok svc) ps =
      with_method services k body name (lookup name svc.method_map) ps
  with_service services k body name (fail e) ps = refuse k.response 403 e ps
  with_service services k body name _ ps = (panic, ps)

  unfoldable pub with_header :
      Map Text Service → Checked → Outcome Bytes → Text → Text → Pools V → Replied V
  with_header services k body path name ps = elim k.error [
    | none ↦ with_service services k body name (get_service services path) ps
    | some e ↦ refuse k.response 403 e ps
  ]

  -- Behind `strings.Split`: `paths[1]` and `paths[2]` panic where the path is shorter.
  unfoldable pub with_paths : Map Text Service → HttpRequest → List Text → Pools V → Replied V
  with_paths services r (t0 ∷ t1 ∷ t2 ∷ []) ps =
      with_header services (check_header (w.to_camel t1) (w.to_camel t2) r.header) r.body
        (w.to_camel t1) (w.to_camel t2) ps
  with_paths services r (t0 ∷ t1 ∷ t2 ∷ t3 ∷ ts) ps =
      refuse [] 403 (text_error (codes "path must be consist of service and method name")) ps
  with_paths services r _ ps = (panic, ps)

  -- `handleGatewayRequest`
  unfoldable pub handle_gateway_request : Map Text Service → HttpRequest → Pools V → Replied V
  handle_gateway_request services r ps =
      if bytes_eq r.path (codes "/health")
      then (ok (record { code = 200; header = []; body = [] }), ps)
      else with_paths services r (split_slash r.path) ps
