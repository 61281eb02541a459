-- ===== src/Server/Gateway/Pages.antt =====
-- From the response of the handler of the RPC requests to the answer in JSON.
use a_simple_rpc.Prelude.{ℕ, ◌≡◌, inr, refl, Option, none, some, bytes_eq, bytes_eq_refl, text_eq}
use a_simple_rpc.Prelude.Bytes.{Bytes, Text}
use a_simple_rpc.Prelude.Maps.{Map, lookup, lookup-insert}
use a_simple_rpc.Outcome.{Err, Outcome, ok, fail, panic, stuck}
use a_simple_rpc.Protocol.Message.{Message}
use a_simple_rpc.Server.Pool.{Pools, get, put}
use a_simple_rpc.Server.Handler.{MethodType, Service, handle_request}
use a_simple_rpc.Server.Converter.{HttpHeader, x_meta, x_error_message, x_message_status_type}
use a_simple_rpc.Server.Gateway.{HttpRequest, HttpResponse, Web, marshaled, decoded, handled}
use a_simple_rpc.Server.Gateway.Headers.{IsClean, insert-IsClean, check_header-IsClean}
use a_simple_rpc.Server.Gateway.Replies.{
  Answered, replies, panics, map-Answered, refuse-Answered, put_then-Answered, get_then-Answered,
}
use a_simple_rpc.Server.Gateway.Traces.{
  checked, asked_type, Handled, WritePanics, HandlePanics, at_json, reply_back, at_handler,
  argument_back, reply_taken, writing,
}

module _ {V : Type 0} (w : Web V) (services : Map Text Service) (r : HttpRequest)
    (path name : Text) where
  abbrev pub wh : HttpHeader
  wh = (checked w services r path name).response

  pub clean : IsClean wh
  clean = check_header-IsClean path name r.header

  abbrev pub st : ℕ
  st = asked_type w services r path name

  -- The answer to a reply that was written as JSON.
  record Page (res : Message) (x : V) (page : HttpResponse) : Type 0 where
    code : page.code ≡ 200
    json : w.json_marshal x ≡ ok page.body
    metadata : lookup x_meta page.header ≡ some (w.values_encode res.metadata)
    clean_page : IsClean page.header

  marshaled-Ends :
      (mt : MethodType) (res : Message) (x : V) (o : Outcome Bytes) (ps : Pools V)
      → w.json_marshal x ≡ o
      → Answered w
          (Page res x)
          (WritePanics w services r path name mt x ps)
          (marshaled w wh mt res x o ps)
  unfolding marshaled
  marshaled-Ends mt res x (ok body) ps e =
      put_then-Answered w (put w.backend.values mt.reply_type x ps) ps _
        (λ ps' eq. replies _ ps' (record {
          code = refl;
          json = e;
          metadata =
              rw
                (
                  lookup-insert x_meta x_meta (w.values_encode res.metadata) wh,
                  bytes_eq_refl x_meta,
                )
                refl;
          clean_page =
              insert-IsClean x_meta (w.values_encode res.metadata) wh
                (unfold x_meta x_error_message bytes_eq in refl)
                (unfold x_meta x_message_status_type bytes_eq in refl) clean;
        }))
        reply_back
  marshaled-Ends mt res x (fail y) ps e =
      put_then-Answered w (put w.backend.values mt.reply_type x ps) ps _
        (λ ps' eq. refuse-Answered w wh 500 y ps' (inr refl)) reply_back
  marshaled-Ends mt res x panic ps e = panics ps (at_json (rw e tt))
  marshaled-Ends mt res x stuck ps e = panics ps (at_json (rw e tt))

  -- The reply that was decoded without an error is the one that is written.
  record Decoded (res : Message) (d : V × Option Err) (page : HttpResponse) : Type 0 where
    reply : V
    decodes : d ≡ (reply, none)
    written : Page res reply page

  decoded-Ends :
      (mt : MethodType) (res : Message) (d : V × Option Err) (ps : Pools V)
      → Answered w
          (Decoded res d)
          (WritePanics w services r path name mt d.0 ps)
          (decoded w wh mt res d ps)
  unfolding decoded
  decoded-Ends mt res (x, none) ps =
      map-Answered w (λ p h. record { reply = x; decodes = refl; written = h }) (λ n. n)
        (marshaled-Ends mt res x (w.json_marshal x) ps refl)
  decoded-Ends mt res (x, some y) ps =
      put_then-Answered w (put w.backend.values mt.reply_type x ps) ps _
        (λ ps' eq. refuse-Answered w wh 500 y ps' (inr refl)) reply_back

  pub handled-Ends :
      (mt : MethodType) (argv : V) (req : Message) (before : Pools V)
      (o : Outcome (Message × Option Err) × Pools V)
      → handle_request w.backend services req before ≡ o
      → Answered w
          (Handled w services r path name mt argv o)
          (HandlePanics w services r path name mt argv o)
          (handled w wh mt st argv o)
  unfolding handled
  handled-Ends mt argv req before (ok (res, none), ps) e =
      put_then-Answered w (put w.backend.values mt.arg_type argv ps) ps _
        (λ ps' back.
          get_then-Answered w
            (get w.backend.values (w.backend.pick mt.reply_type) mt.reply_type ps') ps' _
            (λ blank ps'' taken.
              map-Answered w
                (λ p h. record {
                  response = res;
                  after = ps;
                  put_back = ps';
                  blank = blank;
                  left = ps'';
                  reply = h.reply;
                  returned = refl;
                  argument_back = back;
                  reply_taken = taken;
                  decodes = h.decodes;
                  code = h.written.code;
                  json = h.written.json;
                  metadata = h.written.metadata;
                  clean = h.written.clean_page;
                })
                (writing res ps ps' blank ps'' refl back taken)
                (decoded-Ends mt res (w.backend.decode st res.payload blank) ps''))
            (reply_taken res ps ps' refl back))
        (argument_back res ps refl)
  handled-Ends mt argv req before (ok (res, some x), ps) e =
      refuse-Answered w wh 500 x ps (inr refl)
  handled-Ends mt argv req before (fail x, ps) e = panics ps (at_handler tt)
  handled-Ends mt argv req before (panic, ps) e = panics ps (at_handler tt)
  handled-Ends mt argv req before (stuck, ps) e = panics ps (at_handler tt)
