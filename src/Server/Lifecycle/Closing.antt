-- ===== src/Server/Lifecycle/Closing.antt =====
-- What `Close` leaves of a server, whatever its state.
use a_simple_rpc.Prelude.{
  ℕ, ◌≡◌, refl, sym, ap, subst, ◌∙◌, Bool, true, false, List, [], ◌∷◌, ◌++◌, Option, none, some,
  ==_iff, if◌then◌else◌, count, remove_all, count-remove_all, count-nil, append-nil, append_assoc,
  ltb, arith,
}
use a_simple_rpc.Outcome.{Err, ok, panic}
use a_simple_rpc.Server.Lifecycle.{
  Listening, close_listener, close_each, close_gateway, close_chan, close_done_chan_locked, close,
}

-- One more closed, if there is one to close.
abbrev pub after : Option ℕ → List ℕ → List ℕ
after none closed = closed
after (some x) closed = closed ++ (x ∷ [])

-- How `Close` leaves the server.
pub record Closed (s t : Listening) : Type 0 where
  pub flag : t.in_shutdown ≡ s.in_shutdown
  pub done : t.done_closed ≡ true
  pub forgotten : t.action_conn_map ≡ []
  pub listeners : t.closed_listeners ≡ after s.ln s.closed_listeners
  pub gateways : t.closed_gateways ≡ after s.gateway_http_server s.closed_gateways
  pub conns : t.closed_conns ≡ s.closed_conns ++ s.action_conn_map

-- What the loop of `Close` does.
record Drained (cs : List ℕ) (s t : Listening) : Type 0 where
  same : t ≡ record s { action_conn_map = t.action_conn_map; closed_conns = t.closed_conns }
  conns : t.closed_conns ≡ s.closed_conns ++ cs
  open_conns :
      (c : ℕ)
      → count c t.action_conn_map ≡ (if ltb 0 (count c cs) then 0 else count c s.action_conn_map)

close_each-Drained : (cs : List ℕ) (s : Listening) → Drained cs s (close_each cs s)
unfolding close_each
close_each-Drained [] s = record {
  same = refl;
  conns = sym (append-nil s.closed_conns);
  open_conns = λ c. refl;
}
close_each-Drained (x ∷ xs) s =
    let rest = close_each-Drained xs (record s {
      closed_conns = s.closed_conns ++ (x ∷ []);
      action_conn_map = remove_all x s.action_conn_map;
    }) in
    record {
      same = rest.same;
      conns = rest.conns ∙ append_assoc s.closed_conns (x ∷ []) xs;
      open_conns = λ c.
          ground (arith, rest.open_conns c, count-remove_all c x s.action_conn_map, ==_iff x c);
    }

close_each-empty : (s : Listening) → (close_each s.action_conn_map s).action_conn_map ≡ []
close_each-empty s =
    let d = close_each-Drained s.action_conn_map s in
    count-nil _ λ c. ground (arith, d.open_conns c)

close_listener-after :
    (o : Option ℕ) (e : Option Err) (s : Listening)
    → (close_listener o e s).0 ≡ record s { closed_listeners = after o s.closed_listeners }
unfolding close_listener
close_listener-after none e s = refl
close_listener-after (some l) e s = refl

close_gateway-after :
    (o : Option ℕ) (s : Listening)
    → close_gateway o s ≡ record s { closed_gateways = after o s.closed_gateways }
unfolding close_gateway
close_gateway-after none s = refl
close_gateway-after (some l) s = refl

-- The channel is closed at most once, so that nothing panics.
close_done-ok : (s : Listening) → close_done_chan_locked s ≡ ok (record s { done_closed = true })
unfolding close_done_chan_locked close_chan
close_done-ok s = go s.done_closed refl
  where
    go :
        (b : Bool)
        → s.done_closed ≡ b
        → (if b then ok s else if b then panic else ok (record s { done_closed = true }))
          ≡ ok (record s { done_closed = true })
    go true e = ap (λ d. ok (record s { done_closed = d })) e
    go false e = refl

-- The state of `Close` behind its loop, and at its end.
abbrev drained : Listening → Listening
drained s =
    close_each s.action_conn_map (record s { closed_listeners = after s.ln s.closed_listeners })

abbrev pub left : Listening → Listening
left s = record (drained s) {
  closed_gateways = after s.gateway_http_server (drained s).closed_gateways;
  done_closed = true;
}

pub close-left : (e : Option Err) (s : Listening) → (close e s).0 ≡ ok (left s)
unfolding close
close-left e s =
    rw
      (
        close_listener-after s.ln e s,
        close_gateway-after s.gateway_http_server (drained s),
        close_done-ok (record (drained s) {
          closed_gateways = after s.gateway_http_server (drained s).closed_gateways;
        }),
      )
      refl

pub left-Closed : (s : Listening) → Closed s (left s)
left-Closed s =
    let s' = record s { closed_listeners = after s.ln s.closed_listeners } in
    let d = close_each-Drained s.action_conn_map s' in
    record {
      flag = ap (λ x. x.in_shutdown) d.same;
      done = refl;
      forgotten = close_each-empty s';
      listeners = ap (λ x. x.closed_listeners) d.same;
      gateways = ap (λ x. after s.gateway_http_server x.closed_gateways) d.same;
      conns = d.conns;
    }

-- Whatever the state, `Close` returns and does not panic.
pub close-Closed : (e : Option Err) (s t : Listening) → (close e s).0 ≡ ok t → Closed s t
close-Closed e s t h =
    let same : left s ≡ t = cc (h, close-left e s) in subst (Closed s) same (left-Closed s)
