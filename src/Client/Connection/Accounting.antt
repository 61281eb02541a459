-- ===== src/Client/Connection/Accounting.antt =====
-- The ledger of the calls of a connection over a history of steps.
use a_simple_rpc.Prelude.{
  one, count, count-snoc, ℕ, ◌+◌, ◌*◌, ◌^◌, ◌<◌, ◌≡◌, refl, ap, true, List, [], ◌∷◌, Option, some,
  ◌==◌, nat_eq, arith, length,
}
use a_simple_rpc.Prelude.Maps.{Map}
use a_simple_rpc.Outcome.{Err}
use a_simple_rpc.Protocol.Message.{Message}
use a_simple_rpc.Client.Call.{Codec}
use a_simple_rpc.Client.Connection.{
  Client, call_done, fail_call, send, receive, fail_all, end_input, cancel, close, end_of_input,
}
use a_simple_rpc.Client.Connection.Pending.{waiting}
use a_simple_rpc.Client.Connection.Steps.{
  balance, IsOrdered, Adds, send-Adds, receive-Adds, cancel-Adds,
}
use a_simple_rpc.Client.Connection.Closing.{close-Adds, close-empty}

-- What the goroutines of a connection do, each step with what the environment answers: the write of
-- a message, the error of the context, the error of `Close` of the connection.
pub data Op : Type 0 where
  sends : ℕ → Option Err → Op
  receives : Message → Op
  cancels : ℕ → Err → Op
  closes : Option Err → Op

-- How often a call is sent.
abbrev pub started : ℕ → List Op → ℕ
started id [] = 0
started id (sends j wrote ∷ ops) = one (j == id) + started id ops
started id (receives msg ∷ ops) = started id ops
started id (cancels j e ∷ ops) = started id ops
started id (closes e ∷ ops) = started id ops

module _ {V : Type 0} (cs : Codec V) where
  -- One step, and a history of steps.
  abbrev pub step : Op → Client V → Client V
  step (sends id wrote) c = send cs wrote id c
  step (receives msg) c = (receive cs msg c).0
  step (cancels id e) c = cancel id e c
  step (closes e) c = (close e c).0

  abbrev pub run : List Op → Client V → Client V
  run [] c = c
  run (op ∷ ops) c = run ops (step op c)

  -- From a connection whose pending numbers are below its next one, as those of a new connection are,
  -- and through any sequence of sends, responses, cancellations and closes that draws no number from
  -- 2 ^ 64 on, where each send is one step and `input` does not end: how often a call waits or has
  -- been completed grows by exactly the number of times it was sent. So a call sent once is either
  -- pending or completed, it is completed at most once, and no call is lost.
  pub run-balance :
      (ops : List Op) (c : Client V) (id : ℕ)
      → IsOrdered c
      → c.seq + length ops < 2 ^ 64
      → balance id (run ops c) ≡ balance id c + started id ops
  run-balance [] c id h small = omega arith
  run-balance (sends j wrote ∷ ops) c id h small =
      let a = send-Adds cs id j wrote c h (omega arith) in
      omega (
        arith,
        a.balanced,
        run-balance ops (send cs wrote j c) id a.ordered (omega (arith, a.grows)),
      )
  run-balance (receives msg ∷ ops) c id h small =
      let a = receive-Adds cs id msg c h in
      omega (
        arith,
        a.balanced,
        run-balance ops (receive cs msg c).0 id a.ordered (omega (arith, a.grows)),
      )
  run-balance (cancels j e ∷ ops) c id h small =
      let a = cancel-Adds id j e c h in
      omega
        (arith, a.balanced, run-balance ops (cancel j e c) id a.ordered (omega (arith, a.grows)))
  run-balance (closes e ∷ ops) c id h small =
      let a = close-Adds id e c h in
      omega (arith, a.balanced, run-balance ops (close e c).0 id a.ordered (omega (arith, a.grows)))

module _ {V : Type 0} where
  pub fail_all-doubles :
      (m : Map ℕ ℕ) (e : Option Err) (c : Client V) (id : ℕ)
      → count id (fail_all m e c).completed ≡ count id c.completed + waiting id m
  unfolding fail_all fail_call call_done
  fail_all-doubles [] e c id = omega arith
  fail_all-doubles ((s, j) ∷ m) e c id =
      omega (arith, fail_all-doubles m e (fail_call j e c) id, count-snoc id j c.completed)

  pub fail_all-keeps :
      (m : Map ℕ ℕ) (e : Option Err) (c : Client V)
      → ((fail_all m e c).pending ≡ c.pending) × ((fail_all m e c).seq ≡ c.seq)
  unfolding fail_all fail_call call_done
  fail_all-keeps [] e c = (refl, refl)
  fail_all-keeps ((s, j) ∷ m) e c = fail_all-keeps m e (fail_call j e c)

  -- On a connection whose pending numbers are below its next one: when `input` ends, each call is
  -- completed once for each time it waits; and if the program then closes the connection, it has been
  -- completed once more for each of these.
  pub close-end_input :
      (e : Err) (closed : Option Err) (c : Client V) (id : ℕ)
      → IsOrdered c
      → (count id (end_input e c).completed ≡ count id c.completed + waiting id c.pending)
        × (count id (close closed (end_input e c)).0.completed
            ≡ count id c.completed + 2 * waiting id c.pending)
  unfolding end_input
  close-end_input e closed c id h = (first, omega (arith, first, kept, empty, a.balanced))
    where
      ending : Client V
      ending = record c { conn_closed = true; is_shutdown = true }

      cause : Option Err
      cause = some (end_of_input c.closing e)

      first :
          count id (fail_all c.pending cause ending).completed
          ≡ count id c.completed + waiting id c.pending
      first = fail_all-doubles c.pending cause ending id

      keeps :
          ((fail_all c.pending cause ending).pending ≡ c.pending)
          × ((fail_all c.pending cause ending).seq ≡ c.seq)
      keeps = fail_all-keeps c.pending cause ending

      ordered : IsOrdered (fail_all c.pending cause ending)
      ordered = rw (keeps.0, keeps.1) h

      a :
          Adds id 0
            (fail_all c.pending cause ending)
            (close closed (fail_all c.pending cause ending)).0
      a = close-Adds id closed (fail_all c.pending cause ending) ordered

      kept : waiting id (fail_all c.pending cause ending).pending ≡ waiting id c.pending
      kept = ap (waiting id) keeps.0

      empty : waiting id (close closed (fail_all c.pending cause ending)).0.pending ≡ 0
      empty = ap (waiting id) (close-empty closed (fail_all c.pending cause ending) ordered)
