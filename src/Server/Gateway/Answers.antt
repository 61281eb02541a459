-- ===== src/Server/Gateway/Answers.antt =====
-- What the gateway answers, on every branch.
use a_simple_rpc.Prelude.{
  ℕ, ◌≡◌, inl, refl, Bool, true, false, List, [], ◌∷◌, Option, none, some, if◌then◌else◌, bytes_eq,
  text_eq, arith,
}
use a_simple_rpc.Prelude.Bytes.{Bytes, Text, codes}
use a_simple_rpc.Prelude.Maps.{Map, lookup}
use a_simple_rpc.Outcome.{Err, Outcome, ok, fail, panic, stuck}
use a_simple_rpc.Share.{has_codec}
use a_simple_rpc.Protocol.Message.{Message}
use a_simple_rpc.Server.Pool.{Pools, get}
use a_simple_rpc.Server.Handler.{MethodType, Service, get_service, handle_request}
use a_simple_rpc.Server.Converter.{HttpHeader, http_request_to_message}
use a_simple_rpc.Server.Gateway.{
  HttpRequest, HttpResponse, Web, split_slash, Checked, refuse, converted, encoded, unmarshaled,
  body_read, with_method, with_service, with_header, with_paths, handle_gateway_request,
}
use a_simple_rpc.Server.Gateway.Replies.{
  Answered, panics, map-Answered, refuse-Answered, get_then-Answered, Crashed,
}
use a_simple_rpc.Server.Gateway.Traces.{
  checked, Handled, Called, Found, CallPanics, Panics, calling, handling, no_codec, at_service,
  at_get, at_body, at_encode, at_convert, Replies, Fault, short_path, deeper,
}
use a_simple_rpc.Server.Gateway.Pages.{wh, st, handled-Ends}

module _ {V : Type 0} (w : Web V) (services : Map Text Service) (r : HttpRequest)
    (path name : Text) where
  -- What is read off the header of the request.
  abbrev seen : Checked
  seen = checked w services r path name

  abbrev head : HttpHeader
  head = wh w services r path name

  abbrev type_asked : ℕ
  type_asked = st w services r path name

  record Converted (mt : MethodType) (argv : V) (o : Outcome Message) (ps : Pools V)
      (page : HttpResponse) : Type 0 where
    req : Message
    converts : o ≡ ok req
    handled : Handled w services r path name mt argv (handle_request w.backend services req ps) page

  converted-Ends :
      (mt : MethodType) (argv : V) (payload : Bytes) (o : Outcome Message) (ps : Pools V)
      → w.backend.encode_value type_asked argv ≡ ok payload
      → http_request_to_message w.parsers seen.request payload ≡ o
      → Answered w
          (Converted mt argv o ps)
          (CallPanics w services r path name mt argv ps)
          (converted w services head mt type_asked argv o ps)
  unfolding converted
  converted-Ends mt argv payload (ok req) ps enc e =
      map-Answered w (λ p h. record { req = req; converts = refl; handled = h })
        (handling payload req enc e) (handled-Ends w services r path name mt argv req ps _ refl)
  converted-Ends mt argv payload (fail x) ps enc e = refuse-Answered w head 403 x ps (inl refl)
  converted-Ends mt argv payload panic ps enc e = panics ps (at_convert payload enc (rw e tt))
  converted-Ends mt argv payload stuck ps enc e = panics ps (at_convert payload enc (rw e tt))

  encoded-Ends :
      (mt : MethodType) (argv : V) (o : Outcome Bytes) (ps : Pools V)
      → has_codec type_asked ≡ true
      → w.backend.encode_value type_asked argv ≡ o
      → Answered w
          (Called w services r path name mt argv ps)
          (CallPanics w services r path name mt argv ps)
          (encoded w services seen mt type_asked argv o ps)
  unfolding encoded
  encoded-Ends mt argv (ok payload) ps known e =
      map-Answered w
        (λ p h. record {
          payload = payload;
          req = h.req;
          known = known;
          encodes = e;
          converts = h.converts;
          handled = h.handled;
        })
        (λ n. n) (converted-Ends mt argv payload _ ps e refl)
  encoded-Ends mt argv (fail x) ps known e = refuse-Answered w head 403 x ps (inl refl)
  encoded-Ends mt argv panic ps known e = panics ps (at_encode (rw e tt))
  encoded-Ends mt argv stuck ps known e = panics ps (at_encode (rw e tt))

  record Parsed (mt : MethodType) (d : V × Option Err) (ps : Pools V) (page : HttpResponse)
      : Type 0 where
    argv : V
    parses : d ≡ (argv, none)
    called : Called w services r path name mt argv ps page

  record ParsePanics (mt : MethodType) (d : V × Option Err) (ps : Pools V) : Type 0 where
    argv : V
    parses : d ≡ (argv, none)
    call : CallPanics w services r path name mt argv ps

  unmarshaled-Ends :
      (mt : MethodType) (d : V × Option Err) (ps : Pools V)
      → Answered w (Parsed mt d ps) (ParsePanics mt d ps) (unmarshaled w services seen mt d ps)
  unfolding unmarshaled
  unmarshaled-Ends mt (argv, some e) ps = refuse-Answered w head 403 e ps (inl refl)
  unmarshaled-Ends mt (argv, none) ps = go (has_codec type_asked) refl
    where
      go :
          (b : Bool)
          → has_codec type_asked ≡ b
          → Answered w (Parsed mt (argv, none) ps) (ParsePanics mt (argv, none) ps) (
              if b
              then encoded w services seen mt type_asked argv
                  (w.backend.encode_value type_asked argv)
                  ps
              else (panic, ps))
      go true e =
          map-Answered w (λ p h. record { argv = argv; parses = refl; called = h })
            (λ n. record { argv = argv; parses = refl; call = n })
            (encoded-Ends mt argv _ ps e refl)
      go false e = panics ps (record { argv = argv; parses = refl; call = no_codec e })

  record Read (mt : MethodType) (blank : V) (o : Outcome Bytes) (ps : Pools V) (page : HttpResponse)
      : Type 0 where
    body : Bytes
    reads : o ≡ ok body
    parsed : Parsed mt (w.json_unmarshal body blank) ps page

  data ReadPanics (mt : MethodType) (blank : V) (o : Outcome Bytes) (ps : Pools V) : Type 0 where
    in_body : Crashed o → ReadPanics mt blank o ps
    behind :
        (body : Bytes)
        → o ≡ ok body
        → ParsePanics mt (w.json_unmarshal body blank) ps
        → ReadPanics mt blank o ps

  body_read-Ends :
      (mt : MethodType) (blank : V) (o : Outcome Bytes) (ps : Pools V)
      → Answered w
          (Read mt blank o ps)
          (ReadPanics mt blank o ps)
          (body_read w services seen mt blank o ps)
  unfolding body_read
  body_read-Ends mt blank (ok body) ps =
      map-Answered w (λ p h. record { body = body; reads = refl; parsed = h }) (behind body refl)
        (unmarshaled-Ends mt (w.json_unmarshal body blank) ps)
  body_read-Ends mt blank (fail x) ps = refuse-Answered w head 403 x ps (inl refl)
  body_read-Ends mt blank panic ps = panics ps (in_body tt)
  body_read-Ends mt blank stuck ps = panics ps (in_body tt)

  from_read :
      (svc : Service) (mt : MethodType) (blank : V) (ps rest : Pools V)
      → get_service services path ≡ ok svc
      → lookup name svc.method_map ≡ some mt
      → get w.backend.values (w.backend.pick mt.arg_type) mt.arg_type ps ≡ ok (blank, rest)
      → ReadPanics mt blank r.body rest
      → Panics w services r path name ps
  from_read svc mt blank ps rest service method taken (in_body h) = at_body h
  from_read svc mt blank ps rest service method taken (behind body reads h) =
      calling svc mt blank rest body h.argv service method taken reads h.parses h.call

  with_method-Ends :
      (svc : Service) (o : Option MethodType) (ps : Pools V)
      → seen.error ≡ none
      → get_service services path ≡ ok svc
      → lookup name svc.method_map ≡ o
      → Answered w
          (Found w services r path name ps)
          (Panics w services r path name ps)
          (with_method w services seen r.body name o ps)
  unfolding with_method
  with_method-Ends svc none ps complete service e = refuse-Answered w head 403 _ ps (inl refl)
  with_method-Ends svc (some mt) ps complete service e =
      get_then-Answered w (get w.backend.values (w.backend.pick mt.arg_type) mt.arg_type ps) ps _
        (λ blank ps' taken.
          map-Answered w
            (λ p h. record {
              svc = svc;
              mt = mt;
              blank = blank;
              rest = ps';
              body = h.body;
              argv = h.parsed.argv;
              complete = complete;
              service = service;
              method = e;
              taken = taken;
              reads = h.reads;
              parses = h.parsed.parses;
              called = h.parsed.called;
            })
            (from_read svc mt blank ps ps' service e taken) (body_read-Ends mt blank r.body ps'))
        (at_get svc mt service e)

  with_service-Ends :
      (o : Outcome Service) (ps : Pools V)
      → seen.error ≡ none
      → get_service services path ≡ o
      → Answered w
          (Found w services r path name ps)
          (Panics w services r path name ps)
          (with_service w services seen r.body name o ps)
  unfolding with_service
  with_service-Ends (ok svc) ps complete e = with_method-Ends svc _ ps complete e refl
  with_service-Ends (fail x) ps complete e = refuse-Answered w head 403 x ps (inl refl)
  with_service-Ends panic ps complete e = panics ps (at_service (rw e tt))
  with_service-Ends stuck ps complete e = panics ps (at_service (rw e tt))

  pub with_header-Ends :
      (ps : Pools V)
      → Answered w
          (Found w services r path name ps)
          (Panics w services r path name ps)
          (with_header w services seen r.body path name ps)
  unfolding with_header
  with_header-Ends ps = go seen.error refl
    where
      go :
          (o : Option Err)
          → seen.error ≡ o
          → Answered w
              (Found w services r path name ps)
              (Panics w services r path name ps)
              (elim o [
                | none ↦ with_service w services seen r.body name (get_service services path) ps
                | some e ↦ refuse w head 403 e ps
              ])
      go none e = with_service-Ends _ ps e refl
      go (some x) e = refuse-Answered w head 403 x ps (inl refl)

module _ {V : Type 0} (w : Web V) (services : Map Text Service) where
  with_paths-Answered :
      (r : HttpRequest) (paths : List Text) (ps : Pools V)
      → split_slash r.path ≡ paths
      → Answered w
          (Replies w services r ps)
          (Fault w services r ps)
          (with_paths w services r paths ps)
  unfolding with_paths
  with_paths-Answered r [] ps e = panics ps (short_path (rw e (omega arith)))
  with_paths-Answered r (t0 ∷ []) ps e = panics ps (short_path (rw e (omega arith)))
  with_paths-Answered r (t0 ∷ t1 ∷ []) ps e = panics ps (short_path (rw e (omega arith)))
  with_paths-Answered r (t0 ∷ t1 ∷ t2 ∷ []) ps e =
      map-Answered w (λ p h. record { first = t0; second = t1; third = t2; parts = e; found = h })
        (deeper t0 t1 t2 e) (with_header-Ends w services r (w.to_camel t1) (w.to_camel t2) ps)
  with_paths-Answered r (t0 ∷ t1 ∷ t2 ∷ t3 ∷ ts) ps e = refuse-Answered w _ 403 _ ps (inl refl)

  -- Every HTTP request but the health check ends in one of three ways. Its answer has code 200 and no
  -- error header; then the path names a service and a method that there are, the body is a JSON
  -- argument, which was encoded in the serialization of the header and converted with that header into
  -- the request for which the handler of the RPC requests has returned a response without an error; the
  -- payload of this response was decoded without an error, what it decodes to, written as JSON, is the
  -- body of the answer, and its metadata is in the header. Or the answer has code 403 or 500, an empty
  -- body, and the status and the text of an error in its header. Or the gateway panics; then the path
  -- has fewer than three parts, or there is no codec for the serialization of the header, or one of the
  -- functions that are called on the way, with just these arguments, has not returned, or a pool has not
  -- given or taken its object.
  pub handle_gateway_request-Answered :
      (r : HttpRequest) (ps : Pools V)
      → bytes_eq r.path (codes "/health") ≡ false
      → Answered w
          (Replies w services r ps)
          (Fault w services r ps)
          (handle_gateway_request w services r ps)
  unfolding handle_gateway_request
  handle_gateway_request-Answered r ps health =
      rw health (with_paths-Answered r (split_slash r.path) ps refl)
