-- ===== src/Client/Connection/Calling.antt =====
-- `Call` of client/client.go: `Go` with a channel for one call, and the `select` that waits for that
-- channel or for the end of the context.
pub mod Hearing
pub mod Waking
use a_simple_rpc.Prelude.{ℕ, List, [], ◌∷◌, Option, none, some, ◌==◌, if◌then◌else◌, nat_eq}
use a_simple_rpc.Outcome.{Err, Outcome}
use a_simple_rpc.Client.Call.{Call, edit}
use a_simple_rpc.Client.Connection.{Client, go, cancel}

-- Which case of the `select` runs.
pub data Wake : Type 0 where
  ended : Err → Wake
  received : Wake

module _ {V : Type 0} where
  -- Up to the `select`: a variable for the number, which is 0, and a channel.
  unfoldable pub start_call : ℕ → ℕ → Call V → Client V → Outcome (Client V)
  start_call id ch call c =
      go id ch (record call { seq_cell = 0 }) (some ch)
        (record c { channels = edit ch (λ _. record { cap = 1; queue = [] }) c.channels })

  -- `call := <-Done`; nothing is received from an empty channel.
  unfoldable pub receive_call : ℕ → List ℕ → Client V → Option (Client V × Option Err)
  receive_call ch [] c = none
  receive_call ch (id ∷ ids) c = some (
    record c { channels = edit ch (λ k. record k { queue = ids }) c.channels },
    (c.calls id).error,
  )

  -- The case that runs, and what `Call` returns; `none` where it cannot run yet.
  unfoldable pub finish_call : Wake → ℕ → Client V → Option (Client V × Option Err)
  finish_call (ended e) id c = some (cancel id e c, some e)
  finish_call received id c = let ch = (c.calls id).done in receive_call ch (c.channels ch).queue c
