-- ===== src/Exchange/Heartbeat.antt =====
-- A heartbeat as a whole: the call without names of `heartbeat` in client/client.go, the branch of
-- `processOneRequest` in server/server.go that sends it back, and the round of `input` that completes it.
use a_simple_rpc.Prelude.{
  subst, ℕ, ◌+◌, ◌^◌, ◌<◌, ◌≡◌, refl, ap, ◌∙◌, true, false, [], ◌∷◌, ◌++◌, none, some, arith, inl,
  length, ltb, bytes_eq, nat_eq, text_eq,
}
use a_simple_rpc.Prelude.Bytes.{Bytes, Text}
use a_simple_rpc.Prelude.Maps.{Map, lookup}
use a_simple_rpc.Outcome.{ok}
use a_simple_rpc.Share.{has_codec}
use a_simple_rpc.Protocol.Header.{
  json, response, set_message_type, is_heartbeat, check_magic_number,
}
use a_simple_rpc.Protocol.Header.View.{View, view, view-apply, to_type, apply, apply_view}
use a_simple_rpc.Protocol.Metadata.{encode_metadata}
use a_simple_rpc.Protocol.Metadata.RoundTrip.{Distinct}
use a_simple_rpc.Protocol.Message.{Message, Reader, encode, read, total_length}
use a_simple_rpc.Protocol.Message.Layout.{body}
use a_simple_rpc.Protocol.Message.RoundTrip.{IsSendable, read-encode}
use a_simple_rpc.Client.Call.{call_message, is_heartbeat_call, type_for}
use a_simple_rpc.Client.Connection.{Client, send}
use a_simple_rpc.Client.Connection.Sending.{
  Asks, Shows, request_view, request_for, type_of, send-Asks,
}
use a_simple_rpc.Server.Pool.{Pools}
use a_simple_rpc.Server.Handler.{Service, Backend, process_one_request}
use a_simple_rpc.Codecs.{Libraries, codecs, marshal_on, with_codecs, client_codec}
use a_simple_rpc.Codecs.RoundTrip.{Keeps, decode_on-marshal_on}
use a_simple_rpc.Exchange.{normal_reply_lem, receive-Completes}
use a_simple_rpc.Exchange.Round.{Round}

-- The message that the server sends back.
abbrev echo : Message → Message
echo m = record m { header = set_message_type m.header response }

-- A client on which a heartbeat can be sent.
pub record CanBeat {V : Type 0} (l : Libraries V) (c : Client V) (id : ℕ) (payload : Bytes)
    : Type 0 where
  pub up : c.is_shutdown ≡ false
  pub opened : c.closing ≡ false
  pub no_path : (c.calls id).service_path ≡ []
  pub no_method : (c.calls id).service_method ≡ []
  pub no_metadata : (c.calls id).metadata ≡ []
  pub numbered : c.seq < 2 ^ 64
  pub encoded : marshal_on l (lookup json (codecs l)) (c.calls id).args ≡ (payload, none)
  pub filled : ltb 0 (length payload) ≡ true
  pub short : 16 + length payload < 2 ^ 32

module _ {V : Type 0} (l : Libraries V) (c : Client V) (id : ℕ) (payload : Bytes)
    (beats : CanBeat l c id payload) where
  beats-is_heartbeat_call : is_heartbeat_call (c.calls id) ≡ true
  unfolding is_heartbeat_call bytes_eq
  beats-is_heartbeat_call = rw (beats.no_path, beats.no_method) refl

  beats-short : total_length (request_for json c.seq (c.calls id) payload) < 2 ^ 32
  unfolding call_message encode_metadata
  beats-short =
      let short = beats.short in
      rw (beats.no_path, beats.no_method, beats.no_metadata) (omega arith)

  send-beat :
      (up : Reader)
      → (q m : Message) × ((send (client_codec l) none id c).sent ≡ c.sent ++ (q ∷ []))
        × (read 0 (record up { stream = encode q ++ up.stream }) ≡ (ok m, up))
        × Asks (c.calls id) json c.seq payload m
  unfolding type_for client_codec has_codec
  send-beat up =
      let type : type_of c (c.calls id) ≡ json = rw beats-is_heartbeat_call refl in
      let no_keys : Distinct (c.calls id).metadata = rw beats.no_metadata tt in
      let (q, m, sent, _, asked, asks) =
        send-Asks (client_codec l) c id payload up.stream up.end beats.up beats.opened
          (rw type refl) beats.numbered (rw type beats.encoded) no_keys (rw type beats-short) in
      (q, m, sent, asked, subst (λ st. Asks (c.calls id) st c.seq payload m) type asks)

  module _ (m : Message) (asks : Asks (c.calls id) json c.seq payload m) where
    echo-Shows : Shows (echo m).header (record (request_view json c.seq true) { type_ = response })
    unfolding apply apply_view
    echo-Shows =
        let (whole, seen) =
          view-apply (to_type response) m.header asks.whole_header (omega arith) in
        (whole, seen ∙ rw (asks.header_view, beats-is_heartbeat_call) refl)

    echo-IsSendable : IsSendable 0 (echo m)
    unfolding view check_magic_number encode_metadata
    echo-IsSendable =
        let short = beats.short in
        record {
          header_size = echo-Shows.0.size;
          magic = rw (ap (λ (w : View). w.magic) echo-Shows.1) refl;
          fits =
              rw
                (
                  asks.path, asks.method, asks.metadata_, asks.payload_, beats.no_path,
                  beats.no_method, beats.no_metadata,
                )
                (omega arith);
          allowed = inl refl;
          distinct = rw (asks.metadata_, beats.no_metadata) tt;
        }

    echo-served :
        (b : Backend V) (services : Map Text Service) (ps : Pools V)
        → process_one_request b services m ps ≡ (encode (echo m) ∷ [], ps)
    unfolding process_one_request view
    echo-served b services ps =
        let beat : is_heartbeat m.header ≡ true =
          ap (λ (w : View). w.heartbeat) asks.header_view ∙ beats-is_heartbeat_call in
        rw beat refl

module _ {V : Type 0} (l : Libraries V) (IsBlank IsWhole : V → Type 0)
    (keeps : Keeps l IsBlank IsWhole) (b : Backend V) (services : Map Text Service) (ps : Pools V)
    (c c' : Client V) (id : ℕ) (payload : Bytes) (beats : CanBeat l c id payload) where
  -- A heartbeat comes back. A client can send a call without names or metadata, whose whole argument has
  -- a nonempty JSON encoding; in some state it waits for the call, with a blank reply of the type of the
  -- argument. Then any server, with whatever services and pools, reads one
  -- message from the written bytes, calls no method and keeps its pools, and writes one answer; the
  -- client reads one message from that, which completes the call with its number and no other; and the
  -- reply is the argument, as `heartbeat` expects, the call being otherwise as it was.
  pub heartbeat-Round :
      (up down : Reader)
      → lookup c.seq c'.pending ≡ some id
      → IsWhole (c.calls id).args
      → IsBlank (c'.calls id).reply
      → l.type_of (c'.calls id).reply ≡ l.type_of (c.calls id).args
      → Round l b services ps ps c c' id (c.calls id).args up down
  unfolding view client_codec has_codec
  heartbeat-Round up down waits whole blank same_type =
      let (q, m, sent, asked, asks) = send-beat l c id payload beats up in
      let m' : Message = record (echo m) { buf = body (echo m) } in
      let shows = (echo-Shows l c id payload beats m asks).1 in
      let decodes =
        decode_on-marshal_on l IsBlank IsWhole keeps json refl (c.calls id).args (c'.calls id).reply
          payload whole blank same_type beats.encoded in
      let completes =
        receive-Completes (client_codec l) c' c.seq id m' (ap (λ (w : View). w.seq_) shows) waits in
      let reply =
        normal_reply_lem (client_codec l) m' (c'.calls id) json (c.calls id).args
          (ap (λ (w : View). w.status) shows) (ap (λ (w : View). w.serialize) shows) refl
          (asks.metadata_ ∙ beats.no_metadata) (rw asks.payload_ beats.filled)
          (rw asks.payload_ decodes) in
      record {
        q = q;
        m = m;
        answer = encode (echo m);
        m' = m';
        sent = sent;
        asked = asked;
        served = echo-served l c id payload beats m asks (with_codecs l b) services ps;
        answered =
            read-encode 0 (echo m) down.stream down.end
              (echo-IsSendable l c id payload beats m asks);
        completes = completes;
        result = completes.mine ∙ ap (λ r. r.0) reply;
      }
