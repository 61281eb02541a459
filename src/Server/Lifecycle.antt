-- ===== src/Server/Lifecycle.antt =====
-- `Serve`, `serveListener`, `closeConn`, `Close`, `closeDoneChanLocked` and the frame of `serveConn` in
-- server/server.go, `startGateway` of server/gateway.go and the table of server/listener.go: the
-- listener and the open connections of a server. A listener, a connection and an HTTP server are
-- numbers; the network is an argument.
pub mod Steps
pub mod Closing
pub mod Invariant
pub mod Serving
use a_simple_rpc.Prelude.{
  ℕ, Bool, true, false, not, ◌&&◌, List, [], ◌∷◌, ◌++◌, Option, none, some, ◌==◌, if◌then◌else◌,
  bytes_eq, remove_all, ltb, count,
}
use a_simple_rpc.Prelude.Bytes.{Text, codes}
use a_simple_rpc.Outcome.{Err, server_closed, listener_closed, Outcome, ok, fail, panic, stuck}
use a_simple_rpc.Server.Plugin.{MultiError}
use a_simple_rpc.Server.Registry.{Server, unregister_all}

-- The fields of `Server` that these functions work on, with the closed state of the channel
-- `doneChan`, and what they have closed, in order. `action_conn_map` is the list of the map's keys.
pub record Listening : Type 0 where
  pub ln : Option ℕ
  pub action_conn_map : List ℕ
  pub done_closed : Bool
  pub in_shutdown : ℕ
  pub gateway_http_server : Option ℕ
  pub closed_listeners : List ℕ
  pub closed_conns : List ℕ
  pub closed_gateways : List ℕ

-- `NewServer` without options.
unfoldable pub new_listening : Listening
new_listening = record {
  ln = none;
  action_conn_map = [];
  done_closed = false;
  in_shutdown = 0;
  gateway_http_server = none;
  closed_listeners = [];
  closed_conns = [];
  closed_gateways = [];
}

unfoldable pub is_shutdown : Listening → Bool
is_shutdown s = s.in_shutdown == 1

-- What `closeConn` does under the mutex, and the `conn.Close()` behind its `Unlock`.
unfoldable pub drop_conn : ℕ → Listening → Listening
drop_conn c s = record s { action_conn_map = remove_all c s.action_conn_map }

unfoldable pub shut_conn : ℕ → Listening → Listening
shut_conn c s = record s { closed_conns = s.closed_conns ++ (c ∷ []) }

unfoldable pub close_listener : Option ℕ → Option Err → Listening → Listening × Option Err
close_listener none e s = (s, none)
close_listener (some l) e s = (record s { closed_listeners = s.closed_listeners ++ (l ∷ []) }, e)

-- The loop of `Close` over the keys that it meets.
unfoldable pub close_each : List ℕ → Listening → Listening
close_each [] s = s
close_each (c ∷ cs) s = close_each cs (record s {
  closed_conns = s.closed_conns ++ (c ∷ []);
  action_conn_map = remove_all c s.action_conn_map;
})

unfoldable pub close_gateway : Option ℕ → Listening → Listening
close_gateway none s = s
close_gateway (some g) s = record s { closed_gateways = s.closed_gateways ++ (g ∷ []) }

-- Go's `close` of a channel, which panics when the channel is closed.
unfoldable pub close_chan : Listening → Outcome Listening
close_chan s = if s.done_closed then panic else ok (record s { done_closed = true })

unfoldable pub close_done_chan_locked : Listening → Outcome Listening
close_done_chan_locked s = if s.done_closed then ok s else close_chan s

-- `Close`, under the mutex; `e` is the error of `ln.Close()`.
unfoldable pub close : Option Err → Listening → Outcome Listening × Option Err
close e s =
    let (s', err) = close_listener s.ln e s in
    (
      close_done_chan_locked
          (close_gateway s'.gateway_http_server (close_each s'.action_conn_map s')),
      err,
    )

-- How a goroutine goes on: it returns (with an error or nil), or it waits for `doneChan`.
pub data Ending : Type 0 where
  returned : Option Err → Ending
  waits : Ending

-- `errors.Is(err, cmux.ErrListenerClosed)`, and the error that `serveListener` then returns.
abbrev pub listener_error : Err → Err
listener_error listener_closed = server_closed
listener_error e = e

-- `serveListener`, when `Accept` returns an error.
unfoldable pub accept_failed : Err → Listening → Ending
accept_failed e s =
    if is_shutdown s
    then if s.done_closed then returned (some server_closed) else waits
    else returned (some (listener_error e))

-- `serveListener` under the mutex, when `Accept` returns a connection.
unfoldable pub store_conn : ℕ → Listening → Listening
store_conn c s =
    if ltb 0 (count c s.action_conn_map)
    then s
    else record s { action_conn_map = c ∷ s.action_conn_map }

-- The first test of `serveConn`: whether it goes on to serve the connection, and does not just close it.
unfoldable pub begin_conn : Listening → Bool
begin_conn s = not (is_shutdown s)

-- The deferred function of `serveConn` in front of its `closeConn`: whether it goes on, and does not wait
-- for `doneChan`.
unfoldable pub end_conn : Listening → Bool
end_conn s = if is_shutdown s then s.done_closed else true
