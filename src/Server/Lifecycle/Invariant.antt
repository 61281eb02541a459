-- ===== src/Server/Lifecycle/Invariant.antt =====
-- No connection is lost: whichever goroutine runs first.
use a_simple_rpc.Prelude.{
  ℕ, ◌+◌, ◌≤◌, ◌<◌, ◌≡◌, refl, ap, ◌∙◌, Bool, true, false, List, ◌∷◌, ◌++◌, Option, some, ◌==◌,
  ==_iff, if◌then◌else◌, count, one, count-snoc, count-append, count-remove_all, count-middle, ltb,
  ltb→lt, arith,
}
use a_simple_rpc.Outcome.{Err, ok}
use a_simple_rpc.Server.Lifecycle.{
  Listening, new_listening, is_shutdown, drop_conn, shut_conn, close, store_conn, accept_failed,
  returned, listener_error,
}
use a_simple_rpc.Server.Lifecycle.Steps.{
  Net, idle, Step, listens, opens_gateway, accepts, stores, spawns, begins, refuses, ends, drops,
  shuts, closes, Reach, here, next,
}
use a_simple_rpc.Server.Lifecycle.Closing.{Closed, left, close-left, left-Closed, close-Closed}

-- Each accepted connection is in front of the map, in it, taken out to be closed, or closed, and each one
-- in the map has its goroutine.
pub record IsAccounted (n : Net) : Type 0 where
  pub flag : n.server.in_shutdown ≡ 0
  pub accounted :
      (c : ℕ)
      → 0 < count c n.accepted
      → 0
        < count c n.in_hand
          + count c n.server.action_conn_map
          + count c n.dropped
          + count c n.server.closed_conns
  pub served :
      (c : ℕ)
      → 0 < count c n.server.action_conn_map
      → 0 < count c n.stored + count c n.starting + count c n.serving + count c n.leaving

pub record StoredBy (c : ℕ) (s t : Listening) : Type 0 where
  pub flag : t.in_shutdown ≡ s.in_shutdown
  closed : t.closed_conns ≡ s.closed_conns
  stored : 0 < count c t.action_conn_map
  more : (d : ℕ) → count d s.action_conn_map ≤ count d t.action_conn_map
  only : (d : ℕ) → count d t.action_conn_map ≤ count d s.action_conn_map + one (c == d)

pub store_conn-StoredBy : (c : ℕ) (s : Listening) → StoredBy c s (store_conn c s)
unfolding store_conn
store_conn-StoredBy c s = go (ltb 0 (count c s.action_conn_map)) refl
  where
    go :
        (b : Bool)
        → ltb 0 (count c s.action_conn_map) ≡ b
        → StoredBy c s (if b then s else record s { action_conn_map = c ∷ s.action_conn_map })
    go true e = record {
      flag = refl;
      closed = refl;
      stored = ltb→lt _ _ e;
      more = λ d. omega arith;
      only = λ d. omega arith;
    }
    go false e = record {
      flag = refl;
      closed = refl;
      stored = ground (arith, ==_iff c c);
      more = λ d. omega arith;
      only = λ d. omega arith;
    }

stores-IsAccounted :
    (n : Net) (before rest : List ℕ) (c : ℕ)
    → n.in_hand ≡ before ++ (c ∷ rest)
    → IsAccounted n
    → IsAccounted (record n {
      server = store_conn c n.server;
      in_hand = before ++ rest;
      stored = c ∷ n.stored;
    })
stores-IsAccounted n before rest c e h =
    let p = store_conn-StoredBy c n.server in
    record {
      flag = p.flag ∙ h.flag;
      accounted = λ d l. ground (
        arith,
        h.accounted d l,
        p.stored,
        p.more d,
        ==_iff c d,
        count-middle d c n.in_hand before rest e,
        ap (count d) p.closed,
      );
      served = λ d l. ground (arith, h.served d, p.only d, ==_iff c d);
    }

drops-IsAccounted :
    (n : Net) (before rest : List ℕ) (c : ℕ)
    → n.leaving ≡ before ++ (c ∷ rest)
    → IsAccounted n
    → IsAccounted (record n {
      server = drop_conn c n.server;
      leaving = before ++ rest;
      dropped = c ∷ n.dropped;
    })
unfolding drop_conn
drops-IsAccounted n before rest c e h = record {
  flag = h.flag;
  accounted = λ d l.
      ground (arith, h.accounted d l, ==_iff c d, count-remove_all d c n.server.action_conn_map);
  served = λ d l. ground (
    arith,
    h.served d,
    count-remove_all d c n.server.action_conn_map,
    count-middle d c n.leaving before rest e,
  );
}

shuts-IsAccounted :
    (n : Net) (before rest : List ℕ) (c : ℕ)
    → n.dropped ≡ before ++ (c ∷ rest)
    → IsAccounted n
    → IsAccounted (record n { server = shut_conn c n.server; dropped = before ++ rest })
unfolding shut_conn
shuts-IsAccounted n before rest c e h = record {
  flag = h.flag;
  accounted = λ d l. ground (
    arith,
    h.accounted d l,
    count-middle d c n.dropped before rest e,
    count-snoc d c n.server.closed_conns,
  );
  served = h.served;
}

closes-IsAccounted :
    (n : Net) (e : Option Err) (s : Listening)
    → (close e n.server).0 ≡ ok s
    → IsAccounted n
    → IsAccounted (record n { server = s })
closes-IsAccounted n e s k h =
    let t = close-Closed e n.server s k in
    record {
      flag = t.flag ∙ h.flag;
      accounted = λ c l. omega (
        arith,
        h.accounted c l,
        ap (count c) t.conns,
        count-append c n.server.closed_conns n.server.action_conn_map,
      );
      served = λ c l. absurd (omega (arith, ap (count c) t.forgotten, l));
    }

Step-IsAccounted : {n m : Net} → Step n m → IsAccounted n → IsAccounted m
Step-IsAccounted (listens l) h = record {
  flag = h.flag;
  accounted = h.accounted;
  served = h.served;
}
Step-IsAccounted (opens_gateway g) h = record {
  flag = h.flag;
  accounted = h.accounted;
  served = h.served;
}
Step-IsAccounted {n} (accepts c) h = record {
  flag = h.flag;
  accounted = λ d l. ground (arith, h.accounted d);
  served = h.served;
}
Step-IsAccounted {n} (stores before rest c e) h = stores-IsAccounted n before rest c e h
Step-IsAccounted {n} (spawns before rest c e) h = record {
  flag = h.flag;
  accounted = h.accounted;
  served = λ d l. ground (arith, h.served d l, count-middle d c n.stored before rest e);
}
Step-IsAccounted {n} (begins before rest c e k) h = record {
  flag = h.flag;
  accounted = h.accounted;
  served = λ d l. ground (arith, h.served d l, count-middle d c n.starting before rest e);
}
Step-IsAccounted {n} (refuses before rest c e k) h = record {
  flag = h.flag;
  accounted = h.accounted;
  served = λ d l. ground (arith, h.served d l, count-middle d c n.starting before rest e);
}
Step-IsAccounted {n} (ends before rest c e k) h = record {
  flag = h.flag;
  accounted = h.accounted;
  served = λ d l. ground (arith, h.served d l, count-middle d c n.serving before rest e);
}
Step-IsAccounted {n} (drops before rest c e) h = drops-IsAccounted n before rest c e h
Step-IsAccounted {n} (shuts before rest c e) h = shuts-IsAccounted n before rest c e h
Step-IsAccounted {n} (closes e s k) h = closes-IsAccounted n e s k h

-- Whichever goroutine of a new server runs first, also between an `Unlock` and what follows it: each
-- connection that the program accepted is in front of the map in the accepting loop, in the map, closed,
-- or taken out of the map by a goroutine that has its `conn.Close()` next; and each connection in the map
-- has a goroutine, or is behind the store in the accepting loop, which has the `go` for it next.
pub Reach-IsAccounted : {n : Net} → Reach idle n → IsAccounted n
unfolding new_listening
Reach-IsAccounted here = record {
  flag = refl;
  accounted = λ c l. l;
  served = λ c l. absurd (omega (arith, l));
}
Reach-IsAccounted (next r st) = Step-IsAccounted st (Reach-IsAccounted r)

-- In every state that a new server reaches, `Close` returns: no channel is closed twice. It closes the
-- listener, the HTTP server and every connection in the map, and a connection that was accepted is then
-- closed, or still in the hands of the accepting loop, which has not stored it yet, or in those of the
-- goroutine that took it out of the map and has its `conn.Close()` next.
pub close-releases :
    {n : Net} (e : Option Err) (c : ℕ)
    → Reach idle n
    → 0 < count c n.accepted
    → (s : Listening) × ((close e n.server).0 ≡ ok s)
      × Closed n.server s
      × (0 < count c n.in_hand + count c n.dropped + count c s.closed_conns)
close-releases {n} e c r l =
    let t = left-Closed n.server in
    (
      left n.server,
      close-left e n.server,
      t,
      omega (
        arith,
        (Reach-IsAccounted r).accounted c l,
        ap (count c) t.conns,
        count-append c n.server.closed_conns n.server.action_conn_map,
      ),
    )

-- In every state that a new server reaches, also after `Close`, an error of `Accept` ends the accepting
-- loop at once with that same error, and with `ErrServerClosed` only for cmux's `ErrListenerClosed`.
accept_failed-returns :
    {n : Net} (e : Err)
    → Reach idle n
    → accept_failed e n.server ≡ returned (some (listener_error e))
unfolding accept_failed is_shutdown
accept_failed-returns {n} e r = rw ((Reach-IsAccounted r).flag) refl
