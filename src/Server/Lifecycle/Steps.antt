-- ===== src/Server/Lifecycle/Steps.antt =====
-- The goroutines of a server: the loop that accepts, one for each connection, and callers of `Close`.
use a_simple_rpc.Prelude.{ℕ, ◌≡◌, true, false, List, [], ◌∷◌, ◌++◌, Option, some}
use a_simple_rpc.Outcome.{Err, ok}
use a_simple_rpc.Server.Lifecycle.{
  Listening, new_listening, close, store_conn, begin_conn, end_conn, drop_conn, shut_conn,
}

-- The server, the connections that were accepted, and where in the program the goroutine of each stands:
-- in front of the store into the map, behind it and in front of `go`, in front of the first test of
-- `serveConn`, in its loop, in front of `closeConn`, and in `closeConn` behind its `Unlock`. A connection
-- that is closed stands in `closed_conns` of the server.
pub record Net : Type 0 where
  pub server : Listening
  pub accepted : List ℕ
  pub in_hand : List ℕ
  pub stored : List ℕ
  pub starting : List ℕ
  pub serving : List ℕ
  pub leaving : List ℕ
  pub dropped : List ℕ

abbrev pub idle : Net
idle = record {
  server = new_listening;
  accepted = [];
  in_hand = [];
  stored = [];
  starting = [];
  serving = [];
  leaving = [];
  dropped = [];
}

-- A step is at most one stretch of code under the mutex, or one call behind it: other goroutines run
-- between `Unlock` and what follows it.
pub data Step (n : Net) : Net → Type 0 where
  listens : (l : ℕ) → Step n (record n { server = record n.server { ln = some l } })
  opens_gateway :
      (g : ℕ) → Step n (record n { server = record n.server { gateway_http_server = some g } })
  accepts : (c : ℕ) → Step n (record n { accepted = c ∷ n.accepted; in_hand = c ∷ n.in_hand })
  stores :
      (before after : List ℕ) (c : ℕ)
      → n.in_hand ≡ before ++ (c ∷ after)
      → Step n (record n {
        server = store_conn c n.server;
        in_hand = before ++ after;
        stored = c ∷ n.stored;
      })
  spawns :
      (before after : List ℕ) (c : ℕ)
      → n.stored ≡ before ++ (c ∷ after)
      → Step n (record n { stored = before ++ after; starting = c ∷ n.starting })
  begins :
      (before after : List ℕ) (c : ℕ)
      → n.starting ≡ before ++ (c ∷ after)
      → begin_conn n.server ≡ true
      → Step n (record n { starting = before ++ after; serving = c ∷ n.serving })
  refuses :
      (before after : List ℕ) (c : ℕ)
      → n.starting ≡ before ++ (c ∷ after)
      → begin_conn n.server ≡ false
      → Step n (record n { starting = before ++ after; leaving = c ∷ n.leaving })
  ends :
      (before after : List ℕ) (c : ℕ)
      → n.serving ≡ before ++ (c ∷ after)
      → end_conn n.server ≡ true
      → Step n (record n { serving = before ++ after; leaving = c ∷ n.leaving })
  drops :
      (before after : List ℕ) (c : ℕ)
      → n.leaving ≡ before ++ (c ∷ after)
      → Step n (record n {
        server = drop_conn c n.server;
        leaving = before ++ after;
        dropped = c ∷ n.dropped;
      })
  shuts :
      (before after : List ℕ) (c : ℕ)
      → n.dropped ≡ before ++ (c ∷ after)
      → Step n (record n { server = shut_conn c n.server; dropped = before ++ after })
  closes :
      (e : Option Err) (s : Listening)
      → (close e n.server).0 ≡ ok s
      → Step n (record n { server = s })

pub data Reach (n : Net) : Net → Type 0 where
  here : Reach n n
  next : {m k : Net} → Reach n m → Step m k → Reach n k
