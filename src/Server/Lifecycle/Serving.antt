-- ===== src/Server/Lifecycle/Serving.antt =====
-- `Serve` from end to end, when nothing closes the server meanwhile: `makeListenerMap`, `startGateway`,
-- the loop of `serveListener` and the deferred `UnregisterAll`.
use a_simple_rpc.Prelude.{
  ℕ, ◌≡◌, refl, ◌∙◌, ◌||◌, not, List, [], ◌∷◌, ◌++◌, Option, none, some, if◌then◌else◌, bytes_eq,
}
use a_simple_rpc.Prelude.Bytes.{Text, codes}
use a_simple_rpc.Outcome.{Err, Outcome, ok, fail, panic, stuck}
use a_simple_rpc.Server.Registry.{Server, unregister_all}
use a_simple_rpc.Server.Lifecycle.Invariant.{store_conn-StoredBy}
use a_simple_rpc.Server.Lifecycle.{
  Listening, Ending, returned, accept_failed, listener_error, store_conn, is_shutdown,
}

-- `net.Listen`, and the listener that cmux makes for the connections that match.
pub record Network : Type 0 where
  pub listen : Text → Text → Outcome ℕ
  pub mux_match : ℕ → ℕ

-- The entry of `makeListenerMap` for a network, called: there is one for tcp, and calling a missing one
-- panics.
unfoldable pub make_listener : Network → Text → Text → Outcome ℕ
make_listener w network address =
    if bytes_eq network (codes "tcp") then w.listen (codes "tcp") address else panic

unfoldable pub start_gateway : Network → Text → ℕ → ℕ
start_gateway w network l =
    if not (
      bytes_eq network (codes "tcp")
      || bytes_eq network (codes "tcp4")
      || bytes_eq network (codes "tcp6"))
    then l
    else w.mux_match l

-- What `Accept` returns.
pub data Accepted : Type 0 where
  connection : ℕ → Accepted
  failure : Err → Accepted

-- The loop of `serveListener` over what `Accept` returns one after the other; `none` while it goes on.
unfoldable pub accept_loop : List Accepted → Listening → Option Ending × Listening
accept_loop [] s = (none, s)
accept_loop (connection c ∷ rest) s = accept_loop rest (store_conn c s)
accept_loop (failure e ∷ rest) s = (some (accept_failed e s), s)

unfoldable pub serve_listener : ℕ → List Accepted → Listening → Option Ending × Listening
serve_listener l events s = accept_loop events (record s { ln = some l })

module _ {V S A : Type 0} where
  -- The deferred `UnregisterAll` runs when the loop returns.
  abbrev pub deferred :
      Option Ending × Listening → Server V S A → Outcome (Option Ending) × Listening × Server V S A
  deferred (some (returned e), s) svr = (ok (some (returned e)), s, (unregister_all svr).1)
  deferred (o, s) svr = (ok o, s, svr)

  abbrev pub served :
      Network
      → Text
      → List Accepted
      → Outcome ℕ
      → Listening
      → Server V S A
      → Outcome (Option Ending) × Listening × Server V S A
  served w network events (ok l) s svr =
      deferred (serve_listener (start_gateway w network l) events s) svr
  served w network events (fail e) s svr = (ok (some (returned (some e))), s, svr)
  served w network events panic s svr = (panic, s, svr)
  served w network events stuck s svr = (stuck, s, svr)

  unfoldable pub serve :
      Network
      → Text
      → Text
      → List Accepted
      → Listening
      → Server V S A
      → Outcome (Option Ending) × Listening × Server V S A
  serve w network address events s svr =
      served w network events (make_listener w network address) s svr

abbrev pub connections : List ℕ → List Accepted
connections [] = []
connections (c ∷ cs) = connection c ∷ connections cs

abbrev pub stored : List ℕ → Listening → Listening
stored [] s = s
stored (c ∷ cs) s = stored cs (store_conn c s)

stored-flag : (cs : List ℕ) (s : Listening) → (stored cs s).in_shutdown ≡ s.in_shutdown
stored-flag [] s = refl
stored-flag (c ∷ cs) s = stored-flag cs (store_conn c s) ∙ (store_conn-StoredBy c s).flag

accept_loop-stored :
    (cs : List ℕ) (e : Err) (rest : List Accepted) (s : Listening)
    → accept_loop (connections cs ++ (failure e ∷ rest)) s
      ≡ (some (accept_failed e (stored cs s)), stored cs s)
unfolding accept_loop
accept_loop-stored [] e rest s = refl
accept_loop-stored (c ∷ cs) e rest s = accept_loop-stored cs e rest (store_conn c s)

-- `Serve` on tcp, where `net.Listen` gives a listener, stores the connections that `Accept` returns,
-- in order, up to its first error; while the shutdown flag is not set, it then returns that error
-- (`ErrServerClosed` for cmux's `ErrListenerClosed`) after it has told the plugins of each service that
-- it is unregistered.
serve-stored :
    {V S A : Type 0} (w : Network) (address : Text) (l : ℕ) (cs : List ℕ) (e : Err)
    (rest : List Accepted) (s : Listening) (svr : Server V S A)
    → s.in_shutdown ≡ 0
    → w.listen (codes "tcp") address ≡ ok l
    → serve w (codes "tcp") address (connections cs ++ (failure e ∷ rest)) s svr ≡ (
      ok (some (returned (some (listener_error e)))),
      stored cs (record s { ln = some (w.mux_match l) }),
      (unregister_all svr).1,
    )
unfolding serve make_listener start_gateway serve_listener accept_failed is_shutdown bytes_eq
serve-stored w address l cs e rest s svr flag h =
    let s' = record s { ln = some (w.mux_match l) } in
    rw (h, accept_loop-stored cs e rest s', stored-flag cs s', flag) refl
