-- ===== src/Server/Handler/Responses.antt =====
-- What `handleRequest` answers, on every branch that answers.
use a_simple_rpc.Prelude.{
  ℕ, ◌≡◌, refl, ◌∙◌, Bool, true, false, [], ◌∷◌, Option, none, some, if◌then◌else◌, arith, text_eq,
  nat_eq, Bool-cases, inl, inr,
}
use a_simple_rpc.Prelude.Bytes.{Bytes, Text}
use a_simple_rpc.Prelude.Maps.{Map, insert}
use a_simple_rpc.Outcome.{Err, no_codec, Outcome, ok, fail, panic, stuck}
use a_simple_rpc.Protocol.Header.{IsHeader, response, error, is_oneway, serialize_type}
use a_simple_rpc.Protocol.Header.View.{view, view-apply, to_type, to_status, apply, apply_view}
use a_simple_rpc.Protocol.Message.{Message, clone, new_message}
use a_simple_rpc.Server.Pool.{Pools, put}
use a_simple_rpc.Share.{has_codec, service_error_key}
use a_simple_rpc.Server.Handler.{
  MethodType, Service, Backend, Handled, handle_error, after_put, answer_error, answer_reply,
  answer, invoke_method, after_get, decode_args, handle_method, handle_service, blank_response,
  handle_request,
}

-- The metadata of a response: the text of the error, if there is one.
abbrev pub error_metadata : {V : Type 0} → Backend V → Option Err → Map Text Text
error_metadata b none = []
error_metadata b (some e) = (service_error_key, b.error_text e) ∷ []

abbrev pub status_for : Option Err → ℕ → ℕ
status_for none old = old
status_for (some e) old = error

-- `res` answers `req` with error `e`: the names of the request; its header, marked a response and,
-- with an error, marked as such; no metadata but the error's text.
pub record IsResponse {V : Type 0} (b : Backend V) (req res : Message) (e : Option Err)
    : Type 0 where
  pub same_path : res.service_path ≡ req.service_path
  pub same_method : res.service_method ≡ req.service_method
  pub whole_header : IsHeader res.header
  pub header_view : view res.header ≡ record (view req.header) {
    type_ = response;
    status = status_for e (view req.header).status;
  }
  pub metadata_is : res.metadata ≡ error_metadata b e

abbrev pub Good : {V : Type 0} → Backend V → Message → Outcome (Message × Option Err) → Type 0
Good b req (ok (res, e)) = IsResponse b req res e
Good b req _ = Unit {0}

module _ {V : Type 0} (b : Backend V) (req : Message) (whole : IsHeader req.header) where
  blank-IsResponse : IsResponse b req (blank_response req) none
  unfolding clone new_message apply apply_view
  blank-IsResponse =
      let (whole', seen) = view-apply (to_type response) req.header whole (omega arith) in
      record {
        same_path = refl;
        same_method = refl;
        whole_header = whole';
        header_view = seen;
        metadata_is = refl;
      }

  handle_error-Good :
      (res : Message) (e : Option Err)
      → IsResponse b req res none
      → Good b req (handle_error b res e)
  unfolding handle_error apply apply_view insert
  handle_error-Good res none r = tt
  handle_error-Good res (some e) r =
      let (whole', seen) = view-apply (to_status error) res.header r.whole_header (omega arith) in
      record {
        same_path = r.same_path;
        same_method = r.same_method;
        whole_header = whole';
        header_view = seen ∙ rw (r.header_view);
        metadata_is = rw (r.metadata_is);
      }

  payload-IsResponse :
      (res : Message) (bytes : Bytes)
      → IsResponse b req res none
      → IsResponse b req (record res { payload = bytes }) none
  payload-IsResponse res bytes r = record {
    same_path = r.same_path;
    same_method = r.same_method;
    whole_header = r.whole_header;
    header_view = r.header_view;
    metadata_is = r.metadata_is;
  }

  after_put-Good :
      (o : Outcome (Pools V)) (ps : Pools V) (k : Pools V → Handled V)
      → ((qs : Pools V) → Good b req (k qs).0)
      → Good b req (after_put o ps k).0
  after_put-Good (ok qs) ps k h = h qs
  after_put-Good (fail e) ps k h = tt
  after_put-Good panic ps k h = tt
  after_put-Good stuck ps k h = tt

  after_get-Good :
      (o : Outcome (V × Pools V)) (ps : Pools V) (k : V → Pools V → Handled V)
      → ((x : V) (qs : Pools V) → Good b req (k x qs).0)
      → Good b req (after_get o ps k).0
  after_get-Good (ok (x, qs)) ps k h = h x qs
  after_get-Good (fail e) ps k h = tt
  after_get-Good panic ps k h = tt
  after_get-Good stuck ps k h = tt

  module _ (res : Message) (r : IsResponse b req res none) (mt : MethodType) where
    answer_error-Good :
        (reply : V) (o : Outcome Bytes) (ps : Pools V)
        → Good b req (answer_error b res mt reply o ps).0
    unfolding answer_error
    answer_error-Good reply (ok bytes) ps = after_put-Good _ ps _ λ qs.
        handle_error-Good (record res { payload = bytes }) none (payload-IsResponse res bytes r)
    answer_error-Good reply (fail e) ps =
        after_put-Good _ ps _ λ qs. handle_error-Good res (some e) r
    answer_error-Good reply panic ps = tt
    answer_error-Good reply stuck ps = tt

    answer_reply-Good :
        (reply : V) (o : Outcome Bytes) (ps : Pools V)
        → Good b req (answer_reply b res mt reply o ps).0
    unfolding answer_reply
    answer_reply-Good reply (ok bytes) ps =
        after_put-Good (put b.values mt.reply_type reply ps) ps
          (λ qs. (ok (record res { payload = bytes }, none), qs))
          (λ qs. payload-IsResponse res bytes r)
    answer_reply-Good reply (fail e) ps =
        after_put-Good _ ps _ λ qs. handle_error-Good res (some e) r
    answer_reply-Good reply panic ps = tt
    answer_reply-Good reply stuck ps = tt

    answer-Good :
        (reply : V) (e : Option Err) (ps : Pools V) → Good b req (answer b req res mt reply e ps).0
    unfolding answer
    answer-Good reply (some e) ps = answer_error-Good reply _ ps
    answer-Good reply none ps = elim (Bool-cases (is_oneway req.header)) [
      | inl one ↦ rw one (
          after_put-Good (put b.values mt.reply_type reply ps) ps (λ qs. (ok (res, none), qs))
            (λ qs. r))
      | inr two ↦ rw two (answer_reply-Good reply _ ps)
    ]

    invoke_method-Good :
        (argv replyv : V) (ps : Pools V) → Good b req (invoke_method b req res mt argv replyv ps).0
    unfolding invoke_method
    invoke_method-Good argv replyv ps = after_put-Good _ ps _ λ qs. answer-Good _ _ qs

    decode_args-Good :
        (d : V × Option Err) (ps : Pools V) → Good b req (decode_args b req res mt d ps).0
    unfolding decode_args
    decode_args-Good (argv, some e) ps = handle_error-Good res (some e) r
    decode_args-Good (argv, none) ps = after_get-Good _ ps _ λ x qs. invoke_method-Good argv x qs

  known_codec-Good :
      (res : Message)
      → IsResponse b req res none
      → (mt : MethodType) (argv : V) (ps : Pools V) (known : Bool)
      → Good b req
          (if known
            then decode_args b req res mt (b.decode (serialize_type req.header) req.payload argv) ps
            else (handle_error b res (some (no_codec (serialize_type req.header))), ps)).0
  known_codec-Good res r mt argv ps true = decode_args-Good res r mt _ ps
  known_codec-Good res r mt argv ps false = handle_error-Good res _ r

  handle_method-Good :
      (res : Message)
      → IsResponse b req res none
      → (mt : Option MethodType) (ps : Pools V) → Good b req (handle_method b req res mt ps).0
  unfolding handle_method
  handle_method-Good res r none ps = handle_error-Good res _ r
  handle_method-Good res r (some mt) ps =
      after_get-Good _ ps _
        λ x qs. known_codec-Good res r mt x qs (has_codec (serialize_type req.header))

  handle_service-Good :
      (res : Message)
      → IsResponse b req res none
      → (o : Outcome Service) (ps : Pools V) → Good b req (handle_service b req res o ps).0
  unfolding handle_service
  handle_service-Good res r (ok svc) ps = handle_method-Good res r _ ps
  handle_service-Good res r (fail e) ps = handle_error-Good res (some e) r
  handle_service-Good res r panic ps = tt
  handle_service-Good res r stuck ps = tt

  -- Whatever the services, the codecs and the pools do: if `handleRequest` returns at all for a request
  -- with a 12-byte header, its message has the service path, the service method and the header of the
  -- request (sequence number, flags, serialization and version too), marked a response; without an
  -- error the status is the request's and there is no metadata; with one the status is `Error`, and the
  -- metadata is the text of that error under the key of service errors.
  pub handle_request-Good :
      (services : Map Text Service) (ps : Pools V) → Good b req (handle_request b services req ps).0
  unfolding handle_request
  handle_request-Good services ps = handle_service-Good (blank_response req) blank-IsResponse _ ps
