-- ===== src/Server/Gateway/Traces.antt =====
-- The calls of `handleGatewayRequest` on the way to its reply, and where they may panic.
use a_simple_rpc.Prelude.{ℕ, ◌≤◌, ◌≡◌, false, true, [], ◌∷◌, Option, none, some, text_eq, length}
use a_simple_rpc.Prelude.Bytes.{Bytes, Text}
use a_simple_rpc.Prelude.Maps.{Map, lookup}
use a_simple_rpc.Outcome.{Err, Outcome, ok}
use a_simple_rpc.Share.{has_codec}
use a_simple_rpc.Protocol.Message.{Message}
use a_simple_rpc.Server.Pool.{Pools, get, put}
use a_simple_rpc.Server.Handler.{MethodType, Service, get_service, handle_request}
use a_simple_rpc.Server.Converter.{
  x_meta, x_serialize_type, header_get, to_byte, http_request_to_message,
}
use a_simple_rpc.Server.Gateway.{HttpRequest, HttpResponse, Web, split_slash, Checked, check_header}
use a_simple_rpc.Server.Gateway.Headers.{IsClean}
use a_simple_rpc.Server.Gateway.Replies.{Crashed, Broken}

-- A request for the service `path` and its method `name`.
module _ {V : Type 0} (w : Web V) (services : Map Text Service) (r : HttpRequest)
    (path name : Text) where
  abbrev pub checked : Checked
  checked = check_header path name r.header

  -- The serialization that the header of the request asks for.
  abbrev pub asked_type : ℕ
  asked_type = to_byte (w.parsers.atoi (header_get x_serialize_type checked.request)).0

  -- The handler of the RPC requests returned a response without an error; its payload is decoded
  -- without an error, and what it decodes to is written as JSON.
  pub record Handled (mt : MethodType) (argv : V) (o : Outcome (Message × Option Err) × Pools V)
      (page : HttpResponse) : Type 0 where
    pub response : Message
    pub after : Pools V
    pub put_back : Pools V
    pub blank : V
    pub left : Pools V
    pub reply : V
    pub returned : o ≡ (ok (response, none), after)
    pub argument_back : put w.backend.values mt.arg_type argv after ≡ ok put_back
    pub reply_taken :
        get w.backend.values (w.backend.pick mt.reply_type) mt.reply_type put_back
        ≡ ok (blank, left)
    pub decodes : w.backend.decode asked_type response.payload blank ≡ (reply, none)
    pub code : page.code ≡ 200
    pub json : w.json_marshal reply ≡ ok page.body
    pub metadata : lookup x_meta page.header ≡ some (w.values_encode response.metadata)
    pub clean : IsClean page.header

  -- The argument is encoded, and the HTTP request with this payload converted for the handler.
  pub record Called (mt : MethodType) (argv : V) (ps : Pools V) (page : HttpResponse) : Type 0 where
    pub payload : Bytes
    pub req : Message
    pub known : has_codec asked_type ≡ true
    pub encodes : w.backend.encode_value asked_type argv ≡ ok payload
    pub converts : http_request_to_message w.parsers checked.request payload ≡ ok req
    pub handled : Handled mt argv (handle_request w.backend services req ps) page

  -- The header is complete, the service and the method are found, and the body is a JSON argument.
  pub record Found (ps : Pools V) (page : HttpResponse) : Type 0 where
    pub svc : Service
    pub mt : MethodType
    pub blank : V
    pub rest : Pools V
    pub body : Bytes
    pub argv : V
    pub complete : checked.error ≡ none
    pub service : get_service services path ≡ ok svc
    pub method : lookup name svc.method_map ≡ some mt
    pub taken : get w.backend.values (w.backend.pick mt.arg_type) mt.arg_type ps ≡ ok (blank, rest)
    pub reads : r.body ≡ ok body
    pub parses : w.json_unmarshal body blank ≡ (argv, none)
    pub called : Called mt argv rest page

  -- The causes of a panic, each behind the calls that come before it. The reply cannot be written, or
  -- not be put back.
  pub data WritePanics (mt : MethodType) (x : V) (ps : Pools V) : Type 0 where
    at_json : Crashed (w.json_marshal x) → WritePanics mt x ps
    reply_back : Broken (put w.backend.values mt.reply_type x ps) → WritePanics mt x ps

  -- The handler, or what follows its response.
  pub data HandlePanics (mt : MethodType) (argv : V) (o : Outcome (Message × Option Err) × Pools V)
      : Type 0 where
    at_handler : Broken o.0 → HandlePanics mt argv o
    argument_back :
        (res : Message) (after : Pools V)
        → o ≡ (ok (res, none), after)
        → Broken (put w.backend.values mt.arg_type argv after)
        → HandlePanics mt argv o
    reply_taken :
        (res : Message) (after back : Pools V)
        → o ≡ (ok (res, none), after)
        → put w.backend.values mt.arg_type argv after ≡ ok back
        → Broken (get w.backend.values (w.backend.pick mt.reply_type) mt.reply_type back)
        → HandlePanics mt argv o
    writing :
        (res : Message) (after back : Pools V) (blank : V) (left : Pools V)
        → o ≡ (ok (res, none), after)
        → put w.backend.values mt.arg_type argv after ≡ ok back
        → get w.backend.values (w.backend.pick mt.reply_type) mt.reply_type back ≡ ok (blank, left)
        → WritePanics mt (w.backend.decode asked_type res.payload blank).0 left
        → HandlePanics mt argv o

  -- There is no codec for the serialization, or what follows panics.
  pub data CallPanics (mt : MethodType) (argv : V) (ps : Pools V) : Type 0 where
    no_codec : has_codec asked_type ≡ false → CallPanics mt argv ps
    at_encode : Crashed (w.backend.encode_value asked_type argv) → CallPanics mt argv ps
    at_convert :
        (payload : Bytes)
        → w.backend.encode_value asked_type argv ≡ ok payload
        → Crashed (http_request_to_message w.parsers checked.request payload)
        → CallPanics mt argv ps
    handling :
        (payload : Bytes) (req : Message)
        → w.backend.encode_value asked_type argv ≡ ok payload
        → http_request_to_message w.parsers checked.request payload ≡ ok req
        → HandlePanics mt argv (handle_request w.backend services req ps)
        → CallPanics mt argv ps

  pub data Panics (ps : Pools V) : Type 0 where
    at_service : Crashed (get_service services path) → Panics ps
    at_get :
        (svc : Service) (mt : MethodType)
        → get_service services path ≡ ok svc
        → lookup name svc.method_map ≡ some mt
        → Broken (get w.backend.values (w.backend.pick mt.arg_type) mt.arg_type ps)
        → Panics ps
    at_body : Crashed r.body → Panics ps
    calling :
        (svc : Service) (mt : MethodType) (blank : V) (rest : Pools V) (body : Bytes) (argv : V)
        → get_service services path ≡ ok svc
        → lookup name svc.method_map ≡ some mt
        → get w.backend.values (w.backend.pick mt.arg_type) mt.arg_type ps ≡ ok (blank, rest)
        → r.body ≡ ok body
        → w.json_unmarshal body blank ≡ (argv, none)
        → CallPanics mt argv rest
        → Panics ps

module _ {V : Type 0} (w : Web V) (services : Map Text Service) (r : HttpRequest) where
  -- The path has a service and a method, and these are found and called.
  pub record Replies (ps : Pools V) (page : HttpResponse) : Type 0 where
    pub first : Text
    pub second : Text
    pub third : Text
    pub parts : split_slash r.path ≡ first ∷ second ∷ third ∷ []
    pub found : Found w services r (w.to_camel second) (w.to_camel third) ps page

  pub data Fault (ps : Pools V) : Type 0 where
    short_path : length (split_slash r.path) ≤ 2 → Fault ps
    deeper :
        (first second third : Text)
        → split_slash r.path ≡ first ∷ second ∷ third ∷ []
        → Panics w services r (w.to_camel second) (w.to_camel third) ps
        → Fault ps
