-- ===== src/Exchange.antt =====
-- client/client.go and server/server.go together: a call from `send` through the server's handler to
-- the round of `input` that completes it.
pub mod Serving
pub mod Round
pub mod Heartbeat
pub mod Matching
use a_simple_rpc.Prelude.{
  ℕ, ◌^◌, ◌<◌, ◌≡◌, ◌≢◌, refl, ap, ◌∙◌, true, false, ◌&&◌, ◌==◌, [], ◌∷◌, ◌++◌, Option, none, some,
  Bool-cases, inl, inr, arith, length, ==_iff, ltb, nat_eq, text_eq, bytes_eq_refl,
}
use a_simple_rpc.Prelude.Bytes.{Bytes, Text}
use a_simple_rpc.Prelude.Maps.{Map, lookup, lookup-delete}
use a_simple_rpc.Outcome.{Err, ok, service_error}
use a_simple_rpc.Share.{has_codec, service_error_key}
use a_simple_rpc.Protocol.Header.{
  error, normal, message_status_type, serialize_type, seq, check_magic_number,
}
use a_simple_rpc.Protocol.Header.View.{View, view}
use a_simple_rpc.Protocol.Message.{Message, encode, read, total_length}
use a_simple_rpc.Client.Call.{Call, Codec, reply_to, error_reply, normal_reply, decoded_reply}
use a_simple_rpc.Client.Connection.{Client, call_done, drop_pending, fill_in, receive}
use a_simple_rpc.Client.Connection.Sending.{Asks}
use a_simple_rpc.Server.Pool.{Pools}
use a_simple_rpc.Server.Handler.{Service, Backend, handle_request}
use a_simple_rpc.Server.Handler.Responses.{IsResponse, status_for}
use a_simple_rpc.Server.Handler.Delivery.{read-IsResponse}

module _ {V : Type 0} (cs : Codec V) where
  error_reply_lem :
      (m : Message) (call : Call V) (text : Text)
      → message_status_type m.header ≡ error
      → m.metadata ≡ (service_error_key, text) ∷ []
      → (reply_to cs m call).0.error ≡ some (service_error text)
  unfolding reply_to error_reply lookup
  error_reply_lem m call text status metadata =
      let key = bytes_eq_refl service_error_key in
      elim (Bool-cases (ltb 0 (length m.payload) && has_codec (serialize_type m.header))) [
        | inl full ↦ rw (status, metadata, key, full) refl
        | inr empty ↦ rw (status, metadata, key, empty) refl
      ]

  pub normal_reply_lem :
      (m : Message) (call : Call V) (st : ℕ) (v : V)
      → message_status_type m.header ≡ normal
      → serialize_type m.header ≡ st
      → has_codec st ≡ true
      → m.metadata ≡ []
      → ltb 0 (length m.payload) ≡ true
      → cs.unmarshal st m.payload call.reply ≡ (v, none)
      → reply_to cs m call ≡ (record call { reply = v }, none)
  unfolding reply_to normal_reply decoded_reply
  normal_reply_lem m call st v status type known metadata full decodes =
      rw (status, metadata, full, type, known, decodes) refl

  -- Exactly the call under this number is taken out and completed, and no other is touched.
  pub record Completes (c : Client V) (s id : ℕ) (m : Message) : Type 0 where
    pub once : (receive cs m c).0.completed ≡ c.completed ++ (id ∷ [])
    pub gone : lookup s (receive cs m c).0.pending ≡ none
    pub others : (j : ℕ) → j ≢ id → (receive cs m c).0.calls j ≡ c.calls j
    pub mine : (receive cs m c).0.calls id ≡ (reply_to cs m (c.calls id)).0

  pub receive-Completes :
      (c : Client V) (s id : ℕ) (m : Message)
      → seq m.header ≡ s
      → lookup s c.pending ≡ some id
      → Completes c s id m
  unfolding receive fill_in call_done drop_pending
  receive-Completes c s id m number waits =
      let self : (s == s) ≡ true = (==_iff s s).1 refl in
      let same : (id == id) ≡ true = (==_iff id id).1 refl in
      record {
        once = rw (number, waits) refl;
        gone = rw (number, waits) (rw (lookup-delete s s c.pending, self) refl);
        others = λ j other.
            let apart : (id == j) ≡ false = ground (arith, ==_iff id j, other) in
            rw (number, waits) (rw apart refl);
        mine = rw (number, waits) (rw same refl);
      }

-- The fields of a header that `input` looks at, from the view of the whole.
module _ {V : Type 0} (b : Backend V) (req m : Message) (e : Option Err)
    (answers : IsResponse b req m e) where
  response-seq : seq m.header ≡ seq req.header
  unfolding view
  response-seq = ap (λ (w : View). w.seq_) answers.header_view

  response-serialize : serialize_type m.header ≡ serialize_type req.header
  unfolding view
  response-serialize = ap (λ (w : View). w.serialize) answers.header_view

  response-status : message_status_type m.header ≡ status_for e (message_status_type req.header)
  unfolding view
  response-status = ap (λ (w : View). w.status) answers.header_view

module _ {V : Type 0} (cs : Codec V) (b : Backend V) (services : Map Text Service) (ps : Pools V)
    (c : Client V) (id st s : ℕ) (sent : Bytes) (req : Message)
    (asks : Asks (c.calls id) st s sent req) (waits : lookup s c.pending ≡ some id) where
  -- The client reads this message from the stream, as the response to the request with error `e`, and
  -- it completes the call.
  record Delivers (res : Message) (e : Option Err) (rest : Bytes) (end : Err) (m : Message)
      : Type 0 where
    pub reads :
        read 0 (record { stream = encode res ++ rest; end = end })
        ≡ (ok m, record { stream = rest; end = end })
    pub answers : IsResponse b req m e
    pub payload_ : m.payload ≡ res.payload
    pub completes : Completes cs c s id m

  response-Delivers :
      (res : Message) (e : Option Err) (rest : Bytes) (end : Err)
      → (handle_request b services req ps).0 ≡ ok (res, e)
      → total_length res < 2 ^ 32
      → (m : Message) × Delivers res e rest end m
  unfolding view check_magic_number
  response-Delivers res e rest end handled fits =
      let (m, r, answers, payload) =
        read-IsResponse b services req ps res e rest end asks.whole_header
          (rw (ap (λ (w : View). w.magic) asks.header_view) refl) handled fits in
      let number = response-seq b req m e answers ∙ ap (λ (w : View). w.seq_) asks.header_view in
      (
        m,
        record {
          reads = r;
          answers = answers;
          payload_ = payload;
          completes = receive-Completes cs c s id m number waits;
        },
      )

  -- A request that carries a waiting call is handled without error; the response has a payload, takes
  -- less than 2 ^ 32 bytes, has a serialization type with a codec, and that codec decodes the payload:
  -- from the written bytes the client reads exactly one message, which completes the call with the
  -- request's number and no other, and that call has the decoded reply and is otherwise as it was.
  pub receive-reply :
      (res : Message) (rest : Bytes) (end : Err) (v : V)
      → (handle_request b services req ps).0 ≡ ok (res, none)
      → total_length res < 2 ^ 32
      → has_codec st ≡ true
      → ltb 0 (length res.payload) ≡ true
      → cs.unmarshal st res.payload (c.calls id).reply ≡ (v, none)
      → (m : Message) × (read 0 (record { stream = encode res ++ rest; end = end })
          ≡ (ok m, record { stream = rest; end = end }))
        × Completes cs c s id m
        × ((receive cs m c).0.calls id ≡ record (c.calls id) { reply = v })
  unfolding view
  receive-reply res rest end v handled fits known full decodes =
      let (m, d) = response-Delivers res none rest end handled fits in
      let status =
        response-status b req m none d.answers ∙ ap (λ (w : View). w.status) asks.header_view in
      let type =
        response-serialize b req m none d.answers
        ∙ ap (λ (w : View). w.serialize) asks.header_view in
      let reply =
        normal_reply_lem cs m (c.calls id) st v status type known d.answers.metadata_is
          (rw d.payload_ full) (rw d.payload_ decodes) in
      (m, d.reads, d.completes, d.completes.mine ∙ ap (λ r. r.0) reply)

  -- A request that carries a waiting call is answered by the handler with an error, in a response of less
  -- than 2 ^ 32 bytes: from the written bytes the client reads exactly one message, which completes the
  -- call with the request's number and no other, and that call has the text of the server's error, as a
  -- service error.
  pub receive-service_error :
      (res : Message) (x : Err) (rest : Bytes) (end : Err)
      → (handle_request b services req ps).0 ≡ ok (res, some x)
      → total_length res < 2 ^ 32
      → (m : Message) × (read 0 (record { stream = encode res ++ rest; end = end })
          ≡ (ok m, record { stream = rest; end = end }))
        × Completes cs c s id m
        × ((receive cs m c).0.calls id).error ≡ some (service_error (b.error_text x))
  receive-service_error res x rest end handled fits =
      let (m, d) = response-Delivers res (some x) rest end handled fits in
      let status = response-status b req m (some x) d.answers in
      (
        m,
        d.reads,
        d.completes,
        ap (λ (k : Call V). k.error) d.completes.mine
            ∙ error_reply_lem cs m (c.calls id) (b.error_text x) status d.answers.metadata_is,
      )
