-- ===== src/Server/Conn/Pipeline.antt =====
-- Several requests behind each other on one connection.
use a_simple_rpc.Prelude.{
  ℕ, zero, suc, ◌≤◌, ◌<◌, ◌≡◌, refl, ap, false, List, [], ◌∷◌, ◌++◌, All, length, length-append,
  arith, Bool-cases, inl, inr,
}
use a_simple_rpc.Prelude.Bytes.{Bytes, put_be, u32}
use a_simple_rpc.Outcome.{Err, Outcome, ok, fail}
use a_simple_rpc.Protocol.Header.{is_heartbeat}
use a_simple_rpc.Protocol.Message.{
  Message, Reader, encode, read, decode, decode_steps, read_header, read_full, recover, end_error,
  total_length,
}
use a_simple_rpc.Protocol.Message.Layout.{body, encode-body}
use a_simple_rpc.Protocol.Message.RoundTrip.{IsSendable, read-encode}
use a_simple_rpc.Server.Handler.{Backend}
use a_simple_rpc.Server.Conn.{Act, spawn, auth, after_auth, after_read, serve_loop, serve_conn}

-- The encodings of messages, one behind the other.
abbrev pub stream_of : List Message → Bytes
stream_of [] = []
stream_of (m ∷ ms) = encode m ++ stream_of ms

-- One goroutine for each message, in their order.
abbrev pub spawned : List Message → List Act
spawned [] = []
spawned (m ∷ ms) = spawn (record m { buf = body m }) ∷ spawned ms

encode-nonempty : (m : Message) → length m.header ≡ 12 → 1 ≤ length (encode m)
encode-nonempty m size =
    let whole = ap (length {A = ℕ}) (encode-body m size) in
    let split = length-append m.header (put_be 4 (u32 (total_length m)) ++ body m) in
    omega (arith, whole, split, size)

-- At the end of the stream `Read` fails with the error of the reader.
read-nothing :
    (max : ℕ) (e : Err)
    → read max (record { stream = []; end = e }) ≡ (fail e, record { stream = []; end = e })
unfolding read decode decode_steps read_header read_full end_error recover
read-nothing max e = refl

module _ {V : Type 0} (b : Backend V) where
  request-spawned :
      (m : Message) (r : Reader) (rest : Reader → Outcome (List Act)) (acts : List Act)
      → rest r ≡ ok acts
      → after_read b (ok m, r) rest ≡ ok (spawn m ∷ acts)
  unfolding after_read after_auth auth
  request-spawned m r rest acts e = elim (Bool-cases (is_heartbeat m.header)) [
    | inl heartbeat ↦ rw (heartbeat, e) refl
    | inr ordinary ↦ rw (ordinary, e) refl
  ]

  serve_loop-spawned :
      (ms : List Message) (n : ℕ) (e : Err)
      → All (IsSendable 0) ms
      → length (stream_of ms) < n
      → serve_loop b n false (record { stream = stream_of ms; end = e }) ≡ ok (spawned ms)
  unfolding serve_loop
  serve_loop-spawned ms zero e h l = absurd (omega (arith, l))
  serve_loop-spawned [] (suc n) e h l = rw (read-nothing 0 e) (unfold after_read in refl)
  serve_loop-spawned (m ∷ ms) (suc n) e h l =
      let some_bytes = encode-nonempty m h.0.header_size in
      let split = length-append (encode m) (stream_of ms) in
      rw (read-encode 0 m (stream_of ms) e h.0) (
        request-spawned (record m { buf = body m }) (record { stream = stream_of ms; end = e })
          (λ r. serve_loop b n false r) (spawned ms)
          (serve_loop-spawned ms n e h.1 (omega (arith, l, some_bytes, split))))

  -- A connection of a running server on which clients wrote messages one behind the other, each with a
  -- header that `Decode` takes, a body of less than 2 ^ 32 bytes and each metadata key once, and whose
  -- stream then ends in any way: the loop ends, and it has started one goroutine for each message, in
  -- their order, with the message as it was sent.
  pub serve_conn-spawned :
      (ms : List Message) (e : Err)
      → All (IsSendable 0) ms
      → serve_conn b false (record { stream = stream_of ms; end = e }) ≡ ok (spawned ms)
  unfolding serve_conn
  serve_conn-spawned ms e h = serve_loop-spawned ms (suc (length (stream_of ms))) e h (omega arith)
