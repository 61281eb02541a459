-- ===== src/Client/Connection/Sending.antt =====
-- What `send` puts on the wire.
use a_simple_rpc.Prelude.{
  ℕ, ◌%◌, ◌^◌, ◌<◌, ◌≡◌, refl, ap, Bool, true, false, ◌==◌, [], ◌∷◌, ◌++◌, none, some, Bool-cases,
  inl, inr, arith, ==_iff, nat_eq,
}
use a_simple_rpc.Prelude.Bytes.{Bytes, be_from}
use a_simple_rpc.Outcome.{Err, ok}
use a_simple_rpc.Share.{has_codec}
use a_simple_rpc.Protocol.Header.{
  Header, IsHeader, new_header, check_magic_number, request, json, proto_buffer, set_message_type,
  set_serialize_type, set_seq, version, message_type, is_heartbeat, is_oneway, message_status_type,
  serialize_type, seq,
}
use a_simple_rpc.Protocol.Header.View.{
  View, view, view-apply, apply, apply_view, to_type, to_serialize, to_seq, to_heartbeat,
}
use a_simple_rpc.Protocol.Metadata.RoundTrip.{Distinct}
use a_simple_rpc.Protocol.Message.{Message, new_message, encode, read, total_length}
use a_simple_rpc.Protocol.Message.Layout.{body}
use a_simple_rpc.Protocol.Message.RoundTrip.{IsSendable, read-encode}
use a_simple_rpc.Prelude.Maps.{lookup, insert, lookup-insert}
use a_simple_rpc.Client.Connection.{Client, reserve, transmit, send_reserved, send}
use a_simple_rpc.Client.Call.{Call, Codec, type_for, is_heartbeat_call, call_message}

-- The fields of the header of a request.
abbrev pub request_view : ℕ → ℕ → Bool → View
request_view st s heartbeat = record {
  magic = 8;
  version_ = 0;
  type_ = request;
  heartbeat = heartbeat;
  oneway = false;
  status = 0;
  serialize = st;
  seq_ = s;
}

-- A header of the right form whose fields are these.
abbrev pub Shows : Header → View → Type 0
Shows h w = IsHeader h × (view h ≡ w)

numbered_header : ℕ → ℕ → Header
numbered_header st s = set_seq (set_serialize_type (set_message_type new_header request) st) s

new_header-Shows : Shows new_header (request_view 0 0 false)
unfolding new_header view version message_type is_heartbeat is_oneway message_status_type
    serialize_type seq be_from
new_header-Shows = (record { size = refl; bytes = omega arith }, refl)

numbered_header-Shows :
    (st s : ℕ) → st < 16 → s < 2 ^ 64 → Shows (numbered_header st s) (request_view st s false)
unfolding numbered_header apply apply_view
numbered_header-Shows st s small fits =
    let (ok0, e0) = new_header-Shows in
    let (ok1, e1) = view-apply (to_type request) new_header ok0 (omega arith) in
    let (ok2, e2) =
      view-apply (to_serialize st) (set_message_type new_header request) ok1 (omega arith) in
    let (ok3, e3) =
      view-apply (to_seq s) (set_serialize_type (set_message_type new_header request) st) ok2
        fits in
    let low : st % 16 ≡ st = omega arith in
    (ok3, rw (e3, e2, e1, e0) (ap (λ n. request_view n s false) low))

has_codec-small : (st : ℕ) → has_codec st ≡ true → st < 16
unfolding has_codec
has_codec-small st h = ground (arith, h, ==_iff st json, ==_iff st proto_buffer)

-- A message that carries a call under a number.
pub record Asks {V : Type 0} (call : Call V) (st s : ℕ) (payload : Bytes) (m : Message)
    : Type 0 where
  pub path : m.service_path ≡ call.service_path
  pub method : m.service_method ≡ call.service_method
  pub metadata_ : m.metadata ≡ call.metadata
  pub payload_ : m.payload ≡ payload
  pub whole_header : IsHeader m.header
  pub header_view : view m.header ≡ request_view st s (is_heartbeat_call call)

module _ {V : Type 0} where
  call_message-Shows :
      (st s : ℕ) (call : Call V)
      → st < 16
      → s < 2 ^ 64
      → Shows (call_message st s call).header (request_view st s (is_heartbeat_call call))
  unfolding call_message new_message numbered_header apply apply_view
  call_message-Shows st s call small fits =
      let (whole, e) = numbered_header-Shows st s small fits in
      let (whole', e') = view-apply (to_heartbeat true) (numbered_header st s) whole tt in
      elim (Bool-cases (is_heartbeat_call call)) [
        | inl heartbeat ↦ rw heartbeat (whole', rw (e', e))
        | inr named ↦ rw named (whole, rw e)
      ]

  -- The message that `send` builds, with its payload.
  abbrev pub request_for : ℕ → ℕ → Call V → Bytes → Message
  request_for st s call payload = record (call_message st s call) { payload = payload }

  request_for-IsSendable :
      (st s : ℕ) (call : Call V) (payload : Bytes)
      → has_codec st ≡ true
      → s < 2 ^ 64
      → Distinct call.metadata
      → total_length (request_for st s call payload) < 2 ^ 32
      → IsSendable 0 (request_for st s call payload)
  unfolding view check_magic_number call_message
  request_for-IsSendable st s call payload known fits distinct short =
      let (whole, e) = call_message-Shows st s call (has_codec-small st known) fits in
      record {
        header_size = whole.size;
        magic = rw (ap (λ (v : View). v.magic) e) refl;
        fits = short;
        allowed = inl refl;
        distinct = distinct;
      }

  read-request_for :
      (st s : ℕ) (call : Call V) (payload rest : Bytes) (end : Err)
      → has_codec st ≡ true
      → s < 2 ^ 64
      → Distinct call.metadata
      → total_length (request_for st s call payload) < 2 ^ 32
      → (m : Message) × (read 0
            (record { stream = encode (request_for st s call payload) ++ rest; end = end })
          ≡ (ok m, record { stream = rest; end = end }))
        × Asks call st s payload m
  unfolding call_message
  read-request_for st s call payload rest end known fits distinct short =
      let (whole, e) = call_message-Shows st s call (has_codec-small st known) fits in
      let q = request_for st s call payload in
      (
        record q { buf = body q },
        read-encode 0 q rest end
            (request_for-IsSendable st s call payload known fits distinct short),
        record {
          path = refl;
          method = refl;
          metadata_ = refl;
          payload_ = refl;
          whole_header = whole;
          header_view = e;
        },
      )

  -- The serialization type of a call on this connection.
  abbrev pub type_of : Client V → Call V → ℕ
  type_of c call = type_for (is_heartbeat_call call) c.serialize_type

  -- `send` of a call on a running connection, with a codec for it that encodes its arguments, metadata
  -- with each key once, a body of less than 2 ^ 32 bytes and a write that succeeds: the call waits
  -- under the connection's number, one message is written, and a reader of its encoding gets exactly
  -- one message and is left behind it; that message is a normal request that wants an answer, under
  -- that number and serialization type, with the names, the metadata and the encoded arguments of the
  -- call, and it is a heartbeat if the call has no names and only then.
  pub send-Asks :
      (cs : Codec V) (c : Client V) (id : ℕ) (payload rest : Bytes) (end : Err)
      → c.is_shutdown ≡ false
      → c.closing ≡ false
      → has_codec (type_of c (c.calls id)) ≡ true
      → c.seq < 2 ^ 64
      → cs.marshal (type_of c (c.calls id)) (c.calls id).args ≡ (payload, none)
      → Distinct (c.calls id).metadata
      → total_length (request_for (type_of c (c.calls id)) c.seq (c.calls id) payload) < 2 ^ 32
      → (q m : Message) × ((send cs none id c).sent ≡ c.sent ++ (q ∷ []))
        × (lookup c.seq (send cs none id c).pending ≡ some id)
        × (read 0 (record { stream = encode q ++ rest; end = end })
            ≡ (ok m, record { stream = rest; end = end }))
        × Asks (c.calls id) (type_of c (c.calls id)) c.seq payload m
  unfolding send reserve send_reserved transmit type_for call_message is_heartbeat_call new_message
  send-Asks cs c id payload rest end up open_ known fits encoded distinct short =
      let (m, r, a) =
        read-request_for (type_of c (c.calls id)) c.seq (c.calls id) payload rest end known fits
          distinct short in
      let same : (id == id) ≡ true = (==_iff id id).1 refl in
      let pending : lookup c.seq (insert c.seq id c.pending) ≡ some id =
        rw (lookup-insert c.seq c.seq id c.pending) (ground (arith, ==_iff c.seq c.seq)) in
      (
        request_for (type_of c (c.calls id)) c.seq (c.calls id) payload,
        m,
        rw (up, open_, known, same, encoded) refl,
        rw (up, open_, known, same, encoded) pending,
        r,
        a,
      )
