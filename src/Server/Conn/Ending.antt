-- ===== src/Server/Conn/Ending.antt =====
-- The loop of `serveConn` comes to an end on every stream.
use a_simple_rpc.Prelude.{
  ℕ, zero, suc, ◌<◌, ◌≡◌, refl, ap, Bool, true, false, List, [], ◌∷◌, none, if◌then◌else◌, length,
  arith,
}
use a_simple_rpc.Outcome.{Outcome, ok, fail, panic, stuck}
use a_simple_rpc.Protocol.Header.{is_heartbeat}
use a_simple_rpc.Protocol.Message.{Message, Reader, read}
use a_simple_rpc.Protocol.Message.Progress.{read-shorter}
use a_simple_rpc.Protocol.Message.Totality.{Returns, read-Returns}
use a_simple_rpc.Server.Handler.{Backend}
use a_simple_rpc.Server.Conn.{
  Act, spawn, auth, and_then, after_auth, after_read, serve_loop, serve_conn,
}

-- The loop has ended, with all that it started.
pub data Ended : Outcome (List Act) → Type 0 where
  acts : (done : List Act) → Ended (ok done)

and_then-Ended : (a : Act) (o : Outcome (List Act)) → Ended o → Ended (and_then a o)
and_then-Ended a (ok done) (acts bs) = acts (a ∷ done)
and_then-Ended a (fail e) h = elim h [ ]
and_then-Ended a panic h = elim h [ ]
and_then-Ended a stuck h = elim h [ ]

module _ {V : Type 0} (b : Backend V) where
  after_read-Ended :
      (x : Outcome Message × Reader) (rest : Reader → Outcome (List Act))
      → Returns x.0
      → ((m : Message) → x.0 ≡ ok m → Ended (rest x.1))
      → Ended (after_read b x rest)
  unfolding after_read after_auth auth
  after_read-Ended (ok req, r) rest h k = go (is_heartbeat req.header)
    where
      go : (hb : Bool) → Ended (after_auth b req (if hb then none else none) (λ _. rest r))
      go true = and_then-Ended (spawn req) (rest r) (k req refl)
      go false = and_then-Ended (spawn req) (rest r) (k req refl)
  after_read-Ended (fail e, r) rest h k = acts []
  after_read-Ended (panic, r) rest h k = acts []
  after_read-Ended (stuck, r) rest h k = elim h [ ]

  serve_loop-Ended :
      (n : ℕ) (down : Bool) (r : Reader) → length r.stream < n → Ended (serve_loop b n down r)
  unfolding serve_loop
  serve_loop-Ended zero down r l = absurd (omega arith)
  serve_loop-Ended (suc n) true r l = acts []
  serve_loop-Ended (suc n) false r l =
      after_read-Ended (read 0 r) (λ r'. serve_loop b n false r') (read-Returns 0 r)
        λ m e. serve_loop-Ended n false (read 0 r).1 (
          omega (
            arith,
            l,
            read-shorter 0 r.stream r.end m (read 0 r).1 (ap (λ o. (o, (read 0 r).1)) e),
          ))

  -- Whatever a client sends and however its stream ends, the loop that reads the requests of a
  -- connection ends: each round takes at least one byte.
  pub serve_conn-Ended : (down : Bool) (r : Reader) → Ended (serve_conn b down r)
  unfolding serve_conn
  serve_conn-Ended down r = serve_loop-Ended (suc (length r.stream)) down r (omega arith)
