-- ===== src/Server/Conn.antt =====
-- `serveConn`, `readRequest`, `isShutdown` and `auth` of server/server.go: the loop that reads the
-- requests of one connection. The deadlines and the bookkeeping of open connections are left out.
pub mod Pipeline
pub mod Ending
use a_simple_rpc.Prelude.{
  ℕ, zero, suc, Bool, true, false, List, [], ◌∷◌, Option, none, some, if◌then◌else◌, length,
}
use a_simple_rpc.Outcome.{Err, Outcome, ok, fail, panic, stuck}
use a_simple_rpc.Protocol.Header.{is_heartbeat, is_oneway}
use a_simple_rpc.Protocol.Message.{Message, Reader, read}
use a_simple_rpc.Server.Handler.{Backend, blank_response, handle_error}

-- What the loop does with a request: it starts `processOneRequest`, or it writes a response itself.
pub data Act : Type 0 where
  spawn : Message → Act
  send_response : Message → Act

unfoldable pub auth : Message → Option Err
auth req = none

abbrev pub and_then : Act → Outcome (List Act) → Outcome (List Act)
and_then act (ok acts) = ok (act ∷ acts)
and_then act (fail e) = fail e
and_then act panic = panic
and_then act stuck = stuck

abbrev pub refused : Outcome (Message × Option Err) → Outcome (List Act)
refused (ok (res, e)) = ok (send_response res ∷ [])
refused _ = ok []

module _ {V : Type 0} (b : Backend V) where
  -- Behind the check of a request; `rest` is the rest of the loop.
  unfoldable pub after_auth :
      Message → Option Err → (Unit {0} → Outcome (List Act)) → Outcome (List Act)
  after_auth req none rest = and_then (spawn req) (rest tt)
  after_auth req (some e) rest =
      if is_oneway req.header then ok [] else refused (handle_error b (blank_response req) (some e))

  -- Behind `readRequest`: no error of it is `ErrReqReachLimit`, and every other one ends the loop. A
  -- panic ends it too, and the deferred function swallows it.
  unfoldable pub after_read :
      Outcome Message × Reader → (Reader → Outcome (List Act)) → Outcome (List Act)
  after_read (ok req, r) rest =
      after_auth req (if is_heartbeat req.header then none else auth req) (λ _. rest r)
  after_read (fail e, r) rest = ok []
  after_read (panic, r) rest = ok []
  after_read (stuck, r) rest = stuck

  -- The loop, on fuel; `down` is `isShutdown`, a flag that nothing in the program sets.
  unfoldable pub serve_loop : ℕ → Bool → Reader → Outcome (List Act)
  serve_loop zero down r = stuck
  serve_loop (suc n) down r =
      if down then ok [] else after_read (read 0 r) (λ r'. serve_loop n down r')

  -- A round takes at least one byte from the stream.
  unfoldable pub serve_conn : Bool → Reader → Outcome (List Act)
  serve_conn down r = serve_loop (suc (length r.stream)) down r
