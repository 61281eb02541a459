-- ===== src/Client/Connection.antt =====
-- client/client.go: one connection to a server and the calls that wait for their responses. Calls
-- and channels are objects at addresses, so that a call that the caller holds is the one that `input`
-- fills in. A function here is what one goroutine does when no other runs in between: `receive`,
-- `cancel` and `transmit` give up the mutex before they complete a call, and Goroutines takes them apart.
pub mod Pending
pub mod Steps
pub mod Closing
pub mod Accounting
pub mod Sending
pub mod Preserving
pub mod Goroutines
pub mod Keeping
pub mod Interleaving
pub mod Input
pub mod Calling
use a_simple_rpc.Prelude.{
  ℕ, suc, ◌%◌, ◌^◌, Bool, true, false, not, ◌||◌, List, [], ◌∷◌, ◌++◌, Option, none, some, ◌==◌,
  if◌then◌else◌, nat_eq, text_eq,
}
use a_simple_rpc.Prelude.Bytes.{Bytes, codes}
use a_simple_rpc.Client.Call.{
  Call, Channel, Codec, edit, offer, is_heartbeat_call, type_for, call_message, reply_to,
}
use a_simple_rpc.Prelude.Maps.{Map, lookup, insert, delete}
use a_simple_rpc.Outcome.{
  Err, eof, unexpected_eof, shutdown, unsupported_codec, external, net_op, Outcome, ok, panic,
}
use a_simple_rpc.Share.{has_codec}
use a_simple_rpc.Protocol.Header.{seq}
use a_simple_rpc.Protocol.Message.{Message}

-- `Client`: its sequence counter, its map of pending calls and its flags, with the objects it works
-- on, the messages written to the connection, and the calls whose method `done` has run, in order.
pub record Client (V : Type 0) : Type 0 where
  pub serialize_type : ℕ
  pub seq : ℕ
  pub pending : Map ℕ ℕ
  pub closing : Bool
  pub is_shutdown : Bool
  pub conn_closed : Bool
  pub calls : ℕ → Call V
  pub channels : ℕ → Channel
  pub sent : List Message
  pub completed : List ℕ

-- The error that the pending calls get when the loop of `input` ends with this one.
unfoldable pub end_of_input : Bool → Err → Err
end_of_input closing (net_op (some text)) = external (codes "net.Operror: " ++ text)
end_of_input closing (net_op none) = external (codes "net.OpError")
end_of_input closing eof = if closing then shutdown else unexpected_eof
end_of_input closing e = e

module _ {V : Type 0} where
  -- `NewClient`, over the objects that there are.
  unfoldable pub new_client : ℕ → (ℕ → Call V) → (ℕ → Channel) → Client V
  new_client st calls channels = record {
    serialize_type = st;
    seq = 0;
    pending = [];
    closing = false;
    is_shutdown = false;
    conn_closed = false;
    calls = calls;
    channels = channels;
    sent = [];
    completed = [];
  }

  -- `Call.done`
  unfoldable pub call_done : ℕ → Client V → Client V
  call_done id c = record c {
    channels = edit (c.calls id).done (offer id) c.channels;
    completed = c.completed ++ (id ∷ []);
  }

  -- `call.Error = err; call.done()`
  unfoldable pub fail_call : ℕ → Option Err → Client V → Client V
  fail_call id e c =
      call_done id (record c { calls = edit id (λ k. record k { error = e }) c.calls })

  unfoldable pub drop_pending : ℕ → Client V → Client V
  drop_pending s c = record c { pending = delete s c.pending }

  -- `Go`, up to where it starts `send`, with the addresses of the call and of the channel it makes
  -- when it is given none.
  unfoldable pub go : ℕ → ℕ → Call V → Option ℕ → Client V → Outcome (Client V)
  go id ch call none c = ok (record c {
    calls = edit id (λ _. record call { error = none; res_metadata = []; done = ch }) c.calls;
    channels = edit ch (λ _. record { cap = 10; queue = [] }) c.channels;
  })
  go id ch call (some d) c =
      if (c.channels d).cap == 0
      then panic
      else ok (record c {
        calls = edit id (λ _. record call { error = none; res_metadata = []; done = d }) c.calls;
      })

  -- `send` while it holds the mutex, with the write of the number to the context behind it: the sequence
  -- number, unless the call has failed.
  unfoldable pub reserve : ℕ → Client V → Client V × Option ℕ
  reserve id c =
      if c.is_shutdown || c.closing
      then (fail_call id (some shutdown) c, none)
      else if not (has_codec (type_for (is_heartbeat_call (c.calls id)) c.serialize_type))
      then (fail_call id (some unsupported_codec) c, none)
      else (
        record c {
          seq = suc c.seq % 2 ^ 64;
          pending = insert c.seq id c.pending;
          calls = edit id (λ k. record k { seq_cell = c.seq }) c.calls;
        },
        some c.seq,
      )

  -- The payload and the error of `codec.Encode`, then the result of `c.Conn.Write`.
  unfoldable pub transmit : Bytes × Option Err → Option Err → ℕ → ℕ → Message → Client V → Client V
  transmit (payload, some e) wrote s id m c = fail_call id (some e) (drop_pending s c)
  transmit (payload, none) (some e) s id m c = fail_call id (some e) (drop_pending s c)
  transmit (payload, none) none s id m c = record c {
    sent = c.sent ++ (record m { payload = payload } ∷ []);
  }

  -- The rest of `send`; `wrote` is what writing the message gives.
  unfoldable pub send_reserved : Codec V → Option Err → ℕ → Client V × Option ℕ → Client V
  send_reserved cs wrote id (c, none) = c
  send_reserved cs wrote id (c, some s) =
      let call = c.calls id in
      let st = type_for (is_heartbeat_call call) c.serialize_type in
      transmit (cs.marshal st call.args) wrote s id (call_message st s call) c

  unfoldable pub send : Codec V → Option Err → ℕ → Client V → Client V
  send cs wrote id c = send_reserved cs wrote id (reserve id c)

  unfoldable pub fill_in : Codec V → Message → Option ℕ → Client V → Client V × Option Err
  fill_in cs msg none c = (c, none)
  fill_in cs msg (some id) c =
      let (call, e) = reply_to cs msg (c.calls id) in
      (call_done id (record c { calls = edit id (λ _. call) c.calls }), e)

  -- One round of the loop of `input`, behind a `Decode` that succeeded.
  unfoldable pub receive : Codec V → Message → Client V → Client V × Option Err
  receive cs msg c =
      fill_in cs msg (lookup (seq msg.header) c.pending) (drop_pending (seq msg.header) c)

  unfoldable pub fail_all : Map ℕ ℕ → Option Err → Client V → Client V
  fail_all [] e c = c
  fail_all ((s, id) ∷ m) e c = fail_all m e (fail_call id e c)

  -- What `input` does behind its loop; the calls stay in the map.
  unfoldable pub end_input : Err → Client V → Client V
  end_input e c =
      fail_all c.pending (some (end_of_input c.closing e))
        (record c { conn_closed = true; is_shutdown = true })

  -- `Call`, when its context ends first.
  unfoldable pub cancel_found : Option ℕ → Err → Client V → Client V
  cancel_found none e c = c
  cancel_found (some id) e c = fail_call id (some e) c

  unfoldable pub cancel : ℕ → Err → Client V → Client V
  cancel id e c =
      let s = (c.calls id).seq_cell in cancel_found (lookup s c.pending) e (drop_pending s c)

  unfoldable pub close_pending : Map ℕ ℕ → Client V → Client V
  close_pending [] c = c
  close_pending ((s, id) ∷ m) c = close_pending m (fail_call id (some shutdown) (drop_pending s c))

  -- `Close`; `e` is the error of `c.Conn.Close()`.
  unfoldable pub close : Option Err → Client V → Client V × Option Err
  close e c =
      let c' = close_pending c.pending c in
      if c'.closing || c'.is_shutdown
      then (c', some shutdown)
      else (record c' { closing = true; conn_closed = true }, e)
