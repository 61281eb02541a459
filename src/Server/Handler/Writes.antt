-- ===== src/Server/Handler/Writes.antt =====
-- What `processOneRequest` writes to the connection.
use a_simple_rpc.Prelude.{
  ℕ, ◌≡◌, ◌≤◌, ◌⊎◌, refl, Bool, true, false, [], ◌∷◌, Option, none, some, if◌then◌else◌, arith,
  text_eq, nat_eq, length, Bool-cases, inl, inr,
}
use a_simple_rpc.Prelude.Bytes.{Bytes, Text}
use a_simple_rpc.Prelude.Maps.{Map, lookup}
use a_simple_rpc.Outcome.{Err, Outcome, ok, fail, panic, stuck}
use a_simple_rpc.Protocol.Header.{is_heartbeat, is_oneway, serialize_type}
use a_simple_rpc.Protocol.Message.{Message, encode}
use a_simple_rpc.Server.Pool.{Pools, get, put}
use a_simple_rpc.Share.{has_codec}
use a_simple_rpc.Server.Handler.{
  MethodType, Service, Backend, Invoked, recovered, get_service, handle_error, after_put,
  answer_error, answer_reply, answer, invoke_method, decode_args, handle_method, handle_service,
  blank_response, handle_request, written, process_one_request,
}

-- The number of messages written for a request, by its heartbeat and its one-way flag.
abbrev pub Writes : Bool → Bool → ℕ → Type 0
Writes true oneway n = n ≡ 1
Writes false true n = n ≡ 0
Writes false false n = n ≤ 1

written-Writes :
    (oneway : Bool) (o : Outcome (Message × Option Err))
    → Writes false oneway (length (written oneway o))
written-Writes true (ok (res, e)) = refl
written-Writes false (ok (res, e)) = omega arith
written-Writes true (fail e) = refl
written-Writes false (fail e) = omega arith
written-Writes true panic = refl
written-Writes false panic = omega arith
written-Writes true stuck = refl
written-Writes false stuck = omega arith

module _ {V : Type 0} (b : Backend V) (services : Map Text Service) (req : Message)
    (ps : Pools V) where
  -- `handleRequest` gets as far as the call of a registered method: the service and the method are
  -- known, the pools give an argument and a reply and take the argument back, the codec is known and
  -- decodes the payload.
  pub record Called : Type 0 where
    pub svc : Service
    pub mt : MethodType
    pub argv0 : V
    pub argv : V
    pub replyv : V
    pub ps1 : Pools V
    pub ps2 : Pools V
    pub ps3 : Pools V
    pub service_is : lookup req.service_path services ≡ some svc
    pub method_is : lookup req.service_method svc.method_map ≡ some mt
    pub codec_is : has_codec (serialize_type req.header) ≡ true
    pub argument : get b.values (b.pick mt.arg_type) mt.arg_type ps ≡ ok (argv0, ps1)
    pub decoded : b.decode (serialize_type req.header) req.payload argv0 ≡ (argv, none)
    pub reply : get b.values (b.pick mt.reply_type) mt.reply_type ps1 ≡ ok (replyv, ps2)
    pub invoked : Invoked V
    pub invoked_is :
        b.invoke req.service_path req.service_method
          (if mt.is_pointer then argv else b.deref argv)
          replyv
        ≡ invoked
    pub returned :
        put b.values mt.arg_type (if mt.is_pointer then invoked.args else argv) ps2 ≡ ok ps3

  handle_request-Called :
      (c : Called)
      → handle_request b services req ps
        ≡ answer b req (blank_response req) c.mt c.invoked.reply (recovered c.invoked.result) c.ps3
  unfolding handle_request handle_service get_service handle_method decode_args invoke_method
  handle_request-Called c = rw (
    c.service_is, get_service, c.method_is, c.argument, c.codec_is, c.decoded, c.reply,
    c.invoked_is, c.returned,
  )

  -- The method's error is lost: if the service returns an error and its reply can be encoded, the
  -- handler panics on `err.Error()` of a nil error, and nothing is written to the connection, so the
  -- client is left without an answer.
  pub process-swallows :
      (c : Called) (e : Err) (bytes : Bytes)
      → is_heartbeat req.header ≡ false
      → c.invoked.result ≡ ok (some e)
      → b.encode_value (serialize_type req.header) c.invoked.reply ≡ ok bytes
      → (process_one_request b services req ps).0 ≡ []
  unfolding process_one_request answer answer_error handle_error recovered
  process-swallows c e bytes beat failed enc =
      rw (beat, handle_request-Called c, failed, enc)
        (panics (put b.values c.mt.reply_type c.invoked.reply c.ps3))
    where
      panics :
          (o : Outcome (Pools V))
          → written (is_oneway req.header) (after_put o c.ps3 (λ ps'. (panic, ps'))).0 ≡ []
      panics (ok qs) = refl
      panics (fail x) = refl
      panics panic = refl
      panics stuck = refl

  no_error :
      (c : Called)
      → (c.invoked.result ≡ ok none) ⊎ (c.invoked.result ≡ panic)
      → recovered c.invoked.result ≡ none
  unfolding recovered
  no_error c (inl e) = rw e
  no_error c (inr e) = rw e

  pub handle_request-answers :
      (c : Called) (bytes : Bytes) (ps4 : Pools V)
      → is_oneway req.header ≡ false
      → (c.invoked.result ≡ ok none) ⊎ (c.invoked.result ≡ panic)
      → b.encode_value (serialize_type req.header) c.invoked.reply ≡ ok bytes
      → put b.values c.mt.reply_type c.invoked.reply c.ps3 ≡ ok ps4
      → handle_request b services req ps
        ≡ (ok (record (blank_response req) { payload = bytes }, none), ps4)
  unfolding answer answer_reply
  handle_request-answers c bytes ps4 two returned enc kept =
      rw (handle_request-Called c, no_error c returned, two, enc, kept)

  -- A method that returns nil, or that panics, is answered alike: for a request that is neither a
  -- heartbeat nor one-way, whose reply can be encoded and goes back into its pool, exactly one message
  -- is written: the blank response with the encoded reply as its payload.
  pub process-answers :
      (c : Called) (bytes : Bytes) (ps4 : Pools V)
      → is_heartbeat req.header ≡ false
      → is_oneway req.header ≡ false
      → (c.invoked.result ≡ ok none) ⊎ (c.invoked.result ≡ panic)
      → b.encode_value (serialize_type req.header) c.invoked.reply ≡ ok bytes
      → put b.values c.mt.reply_type c.invoked.reply c.ps3 ≡ ok ps4
      → process_one_request b services req ps
        ≡ (encode (record (blank_response req) { payload = bytes }) ∷ [], ps4)
  unfolding process_one_request
  process-answers c bytes ps4 beat two returned enc kept =
      rw (beat, handle_request-answers c bytes ps4 two returned enc kept, two)

  -- How many messages a request is answered with: a heartbeat with exactly one, also where it is marked
  -- one-way; any other one-way request with none, and every other with at most one.
  pub process-Writes :
      Writes
        (is_heartbeat req.header)
        (is_oneway req.header)
        (length (process_one_request b services req ps).0)
  unfolding process_one_request
  process-Writes = elim (Bool-cases (is_heartbeat req.header)) [
    | inl beat ↦ rw beat refl
    | inr other ↦
        rw other (written-Writes (is_oneway req.header) (handle_request b services req ps).0)
  ]
