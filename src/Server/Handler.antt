-- ===== src/Server/Handler.antt =====
-- server/service.go, and `getService`, `handleError`, `handleRequest`, `processOneRequest` and
-- `sendResponse` of server/server.go. The codecs, the registered methods and `sync.Pool` are a
-- `Backend`; a panic that no function recovers leaves the rest of the handler undone.
pub mod Responses
pub mod Writes
pub mod Delivery
use a_simple_rpc.Prelude.{
  ℕ, ◌+◌, Bool, true, false, not, ◌||◌, List, [], ◌∷◌, ◌++◌, Option, none, some, ◌==◌,
  if◌then◌else◌, text_eq, nat_eq,
}
use a_simple_rpc.Prelude.Bytes.{Bytes, Text, codes}
use a_simple_rpc.Prelude.Maps.{Map, lookup, insert}
use a_simple_rpc.Outcome.{Err, no_service, no_method, no_codec, Outcome, ok, fail, panic, stuck}
use a_simple_rpc.Protocol.Header.{
  json, proto_buffer, response, error, set_message_type, set_message_status_type, is_heartbeat,
  is_oneway, serialize_type,
}
use a_simple_rpc.Protocol.Message.{Message, clone, encode}
use a_simple_rpc.Share.{has_codec, service_error_key}
use a_simple_rpc.Server.Pool.{Values, Pools, get, put}

-- `methodType`: the types are numbers; `is_pointer` is `ArgType.Kind() == reflect.Pointer`.
pub record MethodType : Type 0 where
  pub arg_type : ℕ
  pub reply_type : ℕ
  pub is_pointer : Bool

pub record Service : Type 0 where
  pub name : Text
  pub method_map : Map Text MethodType

-- How a method of a service ends: with what it returns, or with a panic. The reply, and the arguments
-- where it has a pointer to them, are as it leaves them.
pub record Invoked (V : Type 0) : Type 0 where
  pub args : V
  pub reply : V
  pub result : Outcome (Option Err)

pub record Backend (V : Type 0) : Type 0 where
  pub values : Values V
  pub pick : ℕ → ℕ
  pub decode : ℕ → Bytes → V → V × Option Err
  pub encode_value : ℕ → V → Outcome Bytes
  pub deref : V → V
  pub invoke : Text → Text → V → V → Invoked V
  pub error_text : Err → Text

-- `service.call`: its deferred function swallows a panic of the method, and the result is then nil.
unfoldable pub recovered : Outcome (Option Err) → Option Err
recovered (ok e) = e
recovered _ = none

-- A response and an error, as `handleRequest` returns them, and the pools.
abbrev pub Handled : Type 0 → Type 0
Handled V = Outcome (Message × Option Err) × Pools V

unfoldable pub get_service : Map Text Service → Text → Outcome Service
get_service services path = elim (lookup path services) [
  | none ↦ fail (no_service path)
  | some s ↦ ok s
]

-- The response before anything is filled in: the request's header and names, marked a response.
abbrev pub blank_response : Message → Message
blank_response req = record (clone req) { header = set_message_type (clone req).header response }

-- What is written to the connection: a response, if the handler returned one; nothing after a panic,
-- which the deferred function of `processOneRequest` swallows.
abbrev pub written : Bool → Outcome (Message × Option Err) → List Bytes
written oneway (ok (res, e)) = if oneway then [] else encode res ∷ []
written oneway _ = []

module _ {V : Type 0} where
  -- A `Put` whose pool is nil panics.
  abbrev pub after_put : Outcome (Pools V) → Pools V → (Pools V → Handled V) → Handled V
  after_put (ok ps') ps k = k ps'
  after_put _ ps k = (panic, ps)

  abbrev pub after_get : Outcome (V × Pools V) → Pools V → (V → Pools V → Handled V) → Handled V
  after_get (ok (x, ps')) ps k = k x ps'
  after_get _ ps k = (panic, ps)

module _ {V : Type 0} (b : Backend V) where
  -- `handleError`: `err.Error()` on a nil error panics.
  unfoldable pub handle_error : Message → Option Err → Outcome (Message × Option Err)
  handle_error res none = panic
  handle_error res (some e) = ok (
    record res {
      header = set_message_status_type res.header error;
      metadata = insert service_error_key (b.error_text e) res.metadata;
    },
    some e,
  )

  -- The service returned an error: its reply is encoded into the same variable `err`, which a
  -- successful `Encode` leaves nil, and `handleError` is called with that variable.
  unfoldable pub answer_error : Message → MethodType → V → Outcome Bytes → Pools V → Handled V
  answer_error res mt reply (ok bytes) ps =
      after_put (put b.values mt.reply_type reply ps) ps
        λ ps'. (handle_error (record res { payload = bytes }) none, ps')
  answer_error res mt reply (fail e) ps =
      after_put (put b.values mt.reply_type reply ps) ps λ ps'. (handle_error res (some e), ps')
  answer_error res mt reply _ ps = (panic, ps)

  -- The service returned nil, and the request waits for a response.
  unfoldable pub answer_reply : Message → MethodType → V → Outcome Bytes → Pools V → Handled V
  answer_reply res mt reply (ok bytes) ps =
      after_put (put b.values mt.reply_type reply ps) ps
        λ ps'. (ok (record res { payload = bytes }, none), ps')
  answer_reply res mt reply (fail e) ps =
      after_put (put b.values mt.reply_type reply ps) ps λ ps'. (handle_error res (some e), ps')
  answer_reply res mt reply _ ps = (panic, ps)

  unfoldable pub answer : Message → Message → MethodType → V → Option Err → Pools V → Handled V
  answer req res mt reply (some e) ps =
      answer_error res mt reply (b.encode_value (serialize_type req.header) reply) ps
  answer req res mt reply none ps =
      if is_oneway req.header
      then (after_put (put b.values mt.reply_type reply ps) ps λ ps'. (ok (res, none), ps'))
      else answer_reply res mt reply (b.encode_value (serialize_type req.header) reply) ps

  -- `svc.call`, and the argument goes back into its pool.
  unfoldable pub invoke_method : Message → Message → MethodType → V → V → Pools V → Handled V
  invoke_method req res mt argv replyv ps =
      let arg = if mt.is_pointer then argv else b.deref argv in
      let r = b.invoke req.service_path req.service_method arg replyv in
      let back = if mt.is_pointer then r.args else argv in
      after_put (put b.values mt.arg_type back ps) ps
        λ ps'. answer req res mt r.reply (recovered r.result) ps'

  -- `codec.Decode(req.Payload, argv)` and its error.
  unfoldable pub decode_args : Message → Message → MethodType → V × Option Err → Pools V → Handled V
  decode_args req res mt (argv, some e) ps = (handle_error res (some e), ps)
  decode_args req res mt (argv, none) ps =
      after_get (get b.values (b.pick mt.reply_type) mt.reply_type ps) ps
        λ replyv ps'. invoke_method req res mt argv replyv ps'

  unfoldable pub handle_method : Message → Message → Option MethodType → Pools V → Handled V
  handle_method req res none ps = (handle_error res (some (no_method req.service_method)), ps)
  handle_method req res (some mt) ps =
      after_get (get b.values (b.pick mt.arg_type) mt.arg_type ps) ps λ argv ps'.
        let st = serialize_type req.header in
        if has_codec st
        then decode_args req res mt (b.decode st req.payload argv) ps'
        else (handle_error res (some (no_codec st)), ps')

  unfoldable pub handle_service : Message → Message → Outcome Service → Pools V → Handled V
  handle_service req res (ok svc) ps =
      handle_method req res (lookup req.service_method svc.method_map) ps
  handle_service req res (fail e) ps = (handle_error res (some e), ps)
  handle_service req res _ ps = (panic, ps)

  -- `handleRequest`
  unfoldable pub handle_request : Map Text Service → Message → Pools V → Handled V
  handle_request services req ps =
      handle_service req (blank_response req) (get_service services req.service_path) ps

  -- `processOneRequest`: the bytes written and the pools.
  unfoldable pub process_one_request : Map Text Service → Message → Pools V → List Bytes × Pools V
  process_one_request services req ps =
      if is_heartbeat req.header
      then (encode (record req { header = set_message_type req.header response }) ∷ [], ps)
      else let (o, ps') = handle_request services req ps in (written (is_oneway req.header) o, ps')
