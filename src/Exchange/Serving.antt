-- ===== src/Exchange/Serving.antt =====
-- What the server does with the message of a call, with the codecs of codec/codec.go.
use a_simple_rpc.Prelude.{
  ℕ, ◌+◌, ◌^◌, ◌<◌, ◌≡◌, ap, ◌∙◌, true, false, [], ◌∷◌, none, some, if◌then◌else◌, arith, inl,
  length, ltb, nat_eq, text_eq,
}
use a_simple_rpc.Prelude.Bytes.{Bytes, Text}
use a_simple_rpc.Prelude.Maps.{Map, lookup}
use a_simple_rpc.Outcome.{ok}
use a_simple_rpc.Share.{has_codec}
use a_simple_rpc.Protocol.Header.{serialize_type, is_heartbeat, is_oneway}
use a_simple_rpc.Protocol.Header.View.{View, view}
use a_simple_rpc.Protocol.Metadata.{encode_metadata}
use a_simple_rpc.Protocol.Message.{Message, new_message, clone, encode, total_length}
use a_simple_rpc.Client.Call.{Call, is_heartbeat_call}
use a_simple_rpc.Client.Connection.Sending.{Asks}
use a_simple_rpc.Server.Pool.{Pools, get, put}
use a_simple_rpc.Server.Handler.{
  MethodType, Service, Backend, Invoked, blank_response, handle_request, process_one_request,
}
use a_simple_rpc.Server.Handler.Writes.{Called, process-answers, handle_request-answers}
use a_simple_rpc.Codecs.{Libraries, codecs, encode_on, marshal_on, with_codecs}
use a_simple_rpc.Codecs.RoundTrip.{Keeps, decode_on-marshal_on}

module _ {V : Type 0} where
  -- A server that has the method of a call: its pools give a blank argument of the type of the call's
  -- and a reply, and take both back. The method is called with the caller's argument, or what it
  -- points to, and returns nil; its reply is encoded.
  pub record CanServe (l : Libraries V) (IsBlank IsWhole : V → Type 0) (b : Backend V)
      (services : Map Text Service) (ps : Pools V) (st : ℕ) (call : Call V) : Type 0 where
    pub svc : Service
    pub mt : MethodType
    pub argv0 : V
    pub replyv : V
    pub ps1 : Pools V
    pub ps2 : Pools V
    pub ps3 : Pools V
    pub ps4 : Pools V
    pub bytes : Bytes
    pub invoked : Invoked V
    pub service_is : lookup call.service_path services ≡ some svc
    pub method_is : lookup call.service_method svc.method_map ≡ some mt
    pub argument : get b.values (b.pick mt.arg_type) mt.arg_type ps ≡ ok (argv0, ps1)
    pub blank : IsBlank argv0
    pub same_type : l.type_of argv0 ≡ l.type_of call.args
    pub whole : IsWhole call.args
    pub reply : get b.values (b.pick mt.reply_type) mt.reply_type ps1 ≡ ok (replyv, ps2)
    pub invoked_is :
        b.invoke call.service_path call.service_method
          (if mt.is_pointer then call.args else b.deref call.args)
          replyv
        ≡ invoked
    pub succeeds : invoked.result ≡ ok none
    pub returned :
        put b.values mt.arg_type (if mt.is_pointer then invoked.args else call.args) ps2 ≡ ok ps3
    pub kept : put b.values mt.reply_type invoked.reply ps3 ≡ ok ps4
    pub encoded : encode_on l (lookup st (codecs l)) invoked.reply ≡ ok bytes
    pub filled : ltb 0 (length bytes) ≡ true
    pub short : 16 + (length call.service_path + length call.service_method + length bytes) < 2 ^ 32

  module _ (l : Libraries V) (IsBlank IsWhole : V → Type 0) (keeps : Keeps l IsBlank IsWhole)
      (b : Backend V) (services : Map Text Service) (ps : Pools V) (st s : ℕ) (call : Call V)
      (payload : Bytes) (serves : CanServe l IsBlank IsWhole b services ps st call)
      (known : has_codec st ≡ true) (named : is_heartbeat_call call ≡ false)
      (encoded : marshal_on l (lookup st (codecs l)) call.args ≡ (payload, none)) (m : Message)
      (asks : Asks call st s payload m) where
    asks-heartbeat : is_heartbeat m.header ≡ false
    unfolding view
    asks-heartbeat = ap (λ (w : View). w.heartbeat) asks.header_view ∙ named

    asks-oneway : is_oneway m.header ≡ false
    unfolding view
    asks-oneway = ap (λ (w : View). w.oneway) asks.header_view

    asks-serialize : serialize_type m.header ≡ st
    unfolding view
    asks-serialize = ap (λ (w : View). w.serialize) asks.header_view

    serves-Called : Called (with_codecs l b) services m ps
    unfolding with_codecs
    serves-Called = record {
      svc = serves.svc;
      mt = serves.mt;
      argv0 = serves.argv0;
      argv = call.args;
      replyv = serves.replyv;
      ps1 = serves.ps1;
      ps2 = serves.ps2;
      ps3 = serves.ps3;
      service_is = rw asks.path serves.service_is;
      method_is = rw asks.method serves.method_is;
      codec_is = rw asks-serialize known;
      argument = serves.argument;
      decoded =
          rw (asks-serialize, asks.payload_)
            (decode_on-marshal_on l IsBlank IsWhole keeps st known call.args serves.argv0 payload
              serves.whole serves.blank serves.same_type encoded);
      reply = serves.reply;
      invoked = serves.invoked;
      invoked_is = rw (asks.path, asks.method) serves.invoked_is;
      returned = serves.returned;
    }

    -- The handler's answer to the message of the call, what is written for it, and that its length fits
    -- into its field.
    pub asks-Served :
        let res : Message = record (blank_response m) { payload = serves.bytes } in
        (handle_request (with_codecs l b) services m ps ≡ (ok (res, none), serves.ps4))
        × (process_one_request (with_codecs l b) services m ps ≡ (encode res ∷ [], serves.ps4))
        × (total_length res < 2 ^ 32)
    unfolding with_codecs serves-Called clone new_message encode_metadata
    asks-Served =
        let enc : encode_on l (lookup (serialize_type m.header) (codecs l)) serves.invoked.reply
            ≡ ok serves.bytes =
          rw asks-serialize serves.encoded in
        let short = serves.short in
        (
          handle_request-answers (with_codecs l b) services m ps serves-Called serves.bytes
              serves.ps4 asks-oneway (inl serves.succeeds) enc serves.kept,
          process-answers (with_codecs l b) services m ps serves-Called serves.bytes serves.ps4
              asks-heartbeat asks-oneway (inl serves.succeeds) enc serves.kept,
          rw (asks.path, asks.method) (omega arith),
        )
