-- ===== src/Exchange/Round.antt =====
-- A remote call as a whole: `send` of client/client.go, the bytes on the wire, `processOneRequest` of
-- server/server.go with a method of a registered service, the bytes of the answer, and the round of
-- `input` that completes the call, with the codecs of codec/codec.go at both ends.
use a_simple_rpc.Prelude.{
  subst, ℕ, ◌^◌, ◌<◌, ◌≡◌, refl, ap, ◌∙◌, true, false, ◌==◌, [], ◌∷◌, ◌++◌, none, some, ==_iff,
  nat_eq, text_eq,
}
use a_simple_rpc.Prelude.Bytes.{Bytes, Text}
use a_simple_rpc.Prelude.Maps.{Map, lookup}
use a_simple_rpc.Outcome.{ok}
use a_simple_rpc.Share.{has_codec}
use a_simple_rpc.Protocol.Metadata.RoundTrip.{Distinct}
use a_simple_rpc.Protocol.Message.{Message, Reader, encode, read, total_length}
use a_simple_rpc.Client.Call.{Call, is_heartbeat_call, type_for}
use a_simple_rpc.Client.Connection.{Client, send, receive, reserve, send_reserved, transmit}
use a_simple_rpc.Client.Connection.Sending.{Asks, request_for, type_of, send-Asks}
use a_simple_rpc.Server.Pool.{Pools}
use a_simple_rpc.Server.Handler.{Service, Backend, process_one_request}
use a_simple_rpc.Codecs.{Libraries, codecs, marshal_on, with_codecs, client_codec}
use a_simple_rpc.Codecs.RoundTrip.{Keeps, decode_on-encode_on}
use a_simple_rpc.Exchange.Serving.{CanServe, asks-Served}
use a_simple_rpc.Exchange.{Completes, receive-reply}

module _ {V : Type 0} where
  -- A client on which a call with names can be sent under a serialization type.
  pub record CanSend (l : Libraries V) (c : Client V) (id : ℕ) (payload : Bytes) : Type 0 where
    pub up : c.is_shutdown ≡ false
    pub opened : c.closing ≡ false
    pub named : is_heartbeat_call (c.calls id) ≡ false
    pub known : has_codec c.serialize_type ≡ true
    pub numbered : c.seq < 2 ^ 64
    pub distinct : Distinct (c.calls id).metadata
    pub encoded :
        marshal_on l (lookup c.serialize_type (codecs l)) (c.calls id).args ≡ (payload, none)
    pub short : total_length (request_for c.serialize_type c.seq (c.calls id) payload) < 2 ^ 32

  send-calls :
      (l : Libraries V) (c : Client V) (id : ℕ) (payload : Bytes)
      → CanSend l c id payload
      → (send (client_codec l) none id c).calls id ≡ record (c.calls id) { seq_cell = c.seq }
  unfolding send reserve send_reserved transmit type_for client_codec is_heartbeat_call
  send-calls l c id payload r =
      let same : (id == id) ≡ true = (==_iff id id).1 refl in
      rw (r.up, r.opened, r.named, r.known, same, r.named, r.encoded) (rw same refl)

  -- What is written for a call, and what the server reads of it.
  abbrev Sent : Libraries V → Client V → ℕ → Bytes → Reader → ℕ → Type 0
  Sent l c id payload up st =
      (q m : Message) × ((send (client_codec l) none id c).sent ≡ c.sent ++ (q ∷ []))
      × (read 0 (record up { stream = encode q ++ up.stream }) ≡ (ok m, up))
      × Asks (c.calls id) st c.seq payload m

  send-Sent :
      (l : Libraries V) (c : Client V) (id : ℕ) (payload : Bytes)
      → CanSend l c id payload
      → (up : Reader) → Sent l c id payload up c.serialize_type
  unfolding type_for client_codec
  send-Sent l c id payload r up =
      let type : type_of c (c.calls id) ≡ c.serialize_type = rw r.named refl in
      let (q, m, sent, _, asked, asks) =
        send-Asks (client_codec l) c id payload up.stream up.end r.up r.opened (rw type r.known)
          r.numbered (rw type r.encoded) r.distinct (rw type r.short) in
      subst (Sent l c id payload up) type (q, m, sent, asked, asks)

  Asks-numbered :
      (call k : Call V) (st s n : ℕ) (payload : Bytes) (m : Message)
      → k ≡ record call { seq_cell = n }
      → Asks call st s payload m
      → Asks k st s payload m
  unfolding is_heartbeat_call
  Asks-numbered call k st s n payload m e a = rw e (record {
    path = a.path;
    method = a.method;
    metadata_ = a.metadata_;
    payload_ = a.payload_;
    whole_header = a.whole_header;
    header_view = a.header_view;
  })

-- A call from the client `c`, that ends on the client `c'` with this reply: the message written for it
-- and the message the server reads, the bytes of the server's answer, and the message the client reads,
-- which completes this call and no other. `up` and `down` are what follows on the two streams.
pub record Round {V : Type 0} (l : Libraries V) (b : Backend V) (services : Map Text Service)
    (ps ps' : Pools V) (c c' : Client V) (id : ℕ) (reply : V) (up down : Reader) : Type 0 where
  pub q : Message
  pub m : Message
  pub answer : Bytes
  pub m' : Message
  pub sent : (send (client_codec l) none id c).sent ≡ c.sent ++ (q ∷ [])
  pub asked : read 0 (record up { stream = encode q ++ up.stream }) ≡ (ok m, up)
  pub served : process_one_request (with_codecs l b) services m ps ≡ (answer ∷ [], ps')
  pub answered : read 0 (record down { stream = answer ++ down.stream }) ≡ (ok m', down)
  pub completes : Completes (client_codec l) c' c.seq id m'
  pub result : (receive (client_codec l) m' c').0.calls id ≡ record (c'.calls id) { reply = reply }

module _ {V : Type 0} (l : Libraries V) (IsBlank IsWhole : V → Type 0)
    (keeps : Keeps l IsBlank IsWhole) (b : Backend V) (services : Map Text Service) (ps : Pools V)
    (c c' : Client V) (id : ℕ) (payload : Bytes) (sends : CanSend l c id payload)
    (serves : CanServe l IsBlank IsWhole b services ps c.serialize_type (c.calls id)) where
  -- A remote call is a local one. Libraries keep whole values; a running client can send a call with
  -- names, a codec, each metadata key once and whole arguments that are encoded; a server knows the
  -- method, its pools give a blank argument of their type and take the values back, and the method
  -- returns nil with a whole reply that has a nonempty encoding; both messages are shorter than 2 ^ 32.
  -- In a later state the client still waits for the call, which is as `send` left it, with a blank reply
  -- of the type of the method's. Then the server reads from the written bytes one message, for which it
  -- calls the method with the caller's arguments and writes one answer; the client reads one message
  -- from that, which completes the call with its number and no other; and the call has the reply that
  -- the method computed, and is otherwise as it was.
  pub send-Round :
      (up down : Reader)
      → c'.calls id ≡ (send (client_codec l) none id c).calls id
      → lookup c.seq c'.pending ≡ some id
      → IsWhole serves.invoked.reply
      → IsBlank (c'.calls id).reply
      → l.type_of (c'.calls id).reply ≡ l.type_of serves.invoked.reply
      → Round l b services ps serves.ps4 c c' id serves.invoked.reply up down
  send-Round up down mine waits whole blank same_type =
      let (q, m, sent, asked, asks) = send-Sent l c id payload sends up in
      let asks' =
        Asks-numbered (c.calls id) (c'.calls id) c.serialize_type c.seq c.seq payload m
          (mine ∙ send-calls l c id payload sends) asks in
      let (handled, served, fits) =
        asks-Served l IsBlank IsWhole keeps b services ps c.serialize_type c.seq (c.calls id)
          payload serves sends.known sends.named sends.encoded m asks in
      let decodes =
        decode_on-encode_on l IsBlank IsWhole keeps c.serialize_type sends.known
          serves.invoked.reply (c'.calls id).reply serves.bytes whole blank same_type
          serves.encoded in
      let (m', answered, completes, result) =
        receive-reply (client_codec l) (with_codecs l b) services ps c' id c.serialize_type c.seq
          payload m asks' waits _ down.stream down.end serves.invoked.reply (ap (λ h. h.0) handled)
          fits sends.known serves.filled (unfold client_codec in decodes) in
      record {
        q = q;
        m = m;
        answer = _;
        m' = m';
        sent = sent;
        asked = asked;
        served = served;
        answered = answered;
        completes = completes;
        result = result;
      }
