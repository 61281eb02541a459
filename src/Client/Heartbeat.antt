-- ===== src/Client/Heartbeat.antt =====
-- `heartbeat` of client/client.go, round by round of its ticker.
pub mod Stopping
use a_simple_rpc.Prelude.{
  ℕ, suc, ◌+◌, ◌≤◌, ◌≡◌, refl, Bool, true, false, ◌||◌, List, [], ◌∷◌, ◌++◌, Option, none, some,
  if◌then◌else◌, length, arith, Bool-cases, inl, inr,
}
use a_simple_rpc.Prelude.Int.{ℤ, pos}
use a_simple_rpc.Outcome.{Err}
use a_simple_rpc.Client.Call.{Call}
use a_simple_rpc.Client.Connection.{Client, close}
use a_simple_rpc.Client.Connecting.{is_zero}

-- A round: what the goroutines of the connection do until `Call` returns, its own call included, the
-- error of its context, what `Call` returns, and the error of `c.Conn.Close()`.
pub record Beat (V : Type 0) : Type 0 where
  pub meanwhile : Client V → Client V
  pub ctx_error : Option Err
  pub error : Option Err
  pub close_error : Option Err

unfoldable pub is_error : Option Err → Bool
is_error none = false
is_error (some e) = true

-- The time that a heartbeat may take.
unfoldable pub max_wait : ℤ → ℤ
max_wait w = if is_zero w then pos 30000000000 else w

module _ {V : Type 0} where
  -- `IsClosing` and `IsShutdown`
  unfoldable pub is_closing : Client V → Bool
  is_closing c = c.closing

  unfoldable pub is_shutdown : Client V → Bool
  is_shutdown c = c.is_shutdown

  -- The call of a heartbeat, which has no names.
  unfoldable pub heartbeat_call : V → V → Call V
  heartbeat_call args reply = record {
    service_path = [];
    service_method = [];
    metadata = [];
    res_metadata = [];
    args = args;
    reply = reply;
    error = none;
    done = 0;
    seq_cell = 0;
  }

  unfoldable pub abnormal : Beat V → Bool
  abnormal b = is_error b.ctx_error || is_error b.error

  unfoldable pub after_beat : Beat V → Client V → Client V
  after_beat b c = if abnormal b then (close b.close_error c).0 else c

  -- The rounds: the connection behind them, and how many heartbeats were sent.
  unfoldable pub heartbeat : List (Beat V) → Client V → Client V × ℕ
  heartbeat [] c = (c, 0)
  heartbeat (b ∷ bs) c =
      let rest = heartbeat bs (after_beat b (b.meanwhile c)) in
      if is_shutdown c || is_closing c then (c, 0) else (rest.0, suc rest.1)
