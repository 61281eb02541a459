-- ===== src/Client/Connection/Goroutines.antt =====
-- The goroutines of client/client.go as steps. A step is one stretch of code under the mutex, or one
-- write to a call or to its channel outside of it: between the `Unlock` of `input`, `Call` or `send` and
-- the `call.done()` behind it, any other goroutine runs.
use a_simple_rpc.Prelude.{
  ℕ, suc, ◌+◌, ◌^◌, ◌<◌, ◌≡◌, List, [], ◌∷◌, ◌++◌, Option, none, some, one, ◌==◌, nat_eq, arith,
}
use a_simple_rpc.Prelude.Bytes.{Bytes}
use a_simple_rpc.Prelude.Maps.{lookup}
use a_simple_rpc.Outcome.{Err}
use a_simple_rpc.Protocol.Header.{seq}
use a_simple_rpc.Protocol.Message.{Message}
use a_simple_rpc.Client.Call.{Codec, edit, type_for, is_heartbeat_call, call_message, reply_to}
use a_simple_rpc.Client.Connection.{Client, call_done, drop_pending, reserve, end_input, close}

-- What a goroutine does next with a call that it took out of the map: it fills in the reply, or sets
-- the error, or has done so and runs `call.done()`.
pub data Errand : Type 0 where
  replies : Message → Errand
  fails : Err → Errand
  announces : Errand

-- The calls in the hands of goroutines; `if call == nil` there is nothing to hold.
abbrev pub hold : Option ℕ → Errand → List (ℕ × Errand) → List (ℕ × Errand)
hold none t held = held
hold (some id) t held = (id, t) ∷ held

-- How often a call is in the hands of a goroutine.
abbrev pub holds : ℕ → List (ℕ × Errand) → ℕ
holds id [] = 0
holds id ((j, t) ∷ held) = one (j == id) + holds id held

pub holds-middle :
    (id j : ℕ) (t : Errand) (before after : List (ℕ × Errand))
    → holds id (before ++ ((j, t) ∷ after)) ≡ one (j == id) + holds id (before ++ after)
holds-middle id j t [] after = omega arith
holds-middle id j t ((k, u) ∷ before) after = omega (arith, holds-middle id j t before after)

-- The connection, the sends that hold a number (with their calls) and have not written yet, the calls
-- in the hands of goroutines, and the calls that were sent.
pub record Net (V : Type 0) : Type 0 where
  pub conn : Client V
  pub flights : List (ℕ × ℕ)
  pub held : List (ℕ × Errand)
  pub started : List ℕ

module _ {V : Type 0} (cs : Codec V) where
  -- The write to a call that a goroutine holds.
  abbrev pub work : Errand → ℕ → Client V → Client V
  work (replies msg) id c = record c { calls = edit id (λ k. (reply_to cs msg k).0) c.calls }
  work (fails e) id c = record c { calls = edit id (λ k. record k { error = some e }) c.calls }
  work announces id c = c

  -- One step of one goroutine. Numbers are drawn below 2 ^ 64, where the counter would wrap. `send` may
  -- give up with any error, of the codec or of the connection. A cancelled `Call` takes out whatever
  -- number its variable holds: `send` writes that variable behind its `Unlock`, so that it can be any.
  pub data Step (n : Net V) : Net V → Type 0 where
    reserves :
        (id s : ℕ) (d : Client V)
        → suc n.conn.seq < 2 ^ 64
        → reserve id n.conn ≡ (d, some s)
        → Step n (record n { conn = d; flights = (s, id) ∷ n.flights; started = id ∷ n.started })
    refuses :
        (id : ℕ) (d : Client V)
        → suc n.conn.seq < 2 ^ 64
        → reserve id n.conn ≡ (d, none)
        → Step n (record n { conn = d; started = id ∷ n.started })
    writes :
        (before after : List (ℕ × ℕ)) (s id st : ℕ) (payload : Bytes)
        → n.flights ≡ before ++ ((s, id) ∷ after)
        → st ≡ type_for (is_heartbeat_call (n.conn.calls id)) n.conn.serialize_type
        → cs.marshal st (n.conn.calls id).args ≡ (payload, none)
        → Step n (record n {
          conn = record n.conn {
            sent =
                n.conn.sent
                ++ (record (call_message st s (n.conn.calls id)) { payload = payload } ∷ []);
          };
          flights = before ++ after;
        })
    gives_up :
        (before after : List (ℕ × ℕ)) (s id : ℕ) (e : Err)
        → n.flights ≡ before ++ ((s, id) ∷ after)
        → Step n (record n {
          conn = drop_pending s n.conn;
          flights = before ++ after;
          held = (id, fails e) ∷ n.held;
        })
    receives :
        (msg : Message)
        → Step n (record n {
          conn = drop_pending (seq msg.header) n.conn;
          held = hold (lookup (seq msg.header) n.conn.pending) (replies msg) n.held;
        })
    cancels :
        (s : ℕ) (e : Err)
        → Step n (record n {
          conn = drop_pending s n.conn;
          held = hold (lookup s n.conn.pending) (fails e) n.held;
        })
    works :
        (before after : List (ℕ × Errand)) (id : ℕ) (t : Errand)
        → n.held ≡ before ++ ((id, t) ∷ after)
        → Step n (record n { conn = work t id n.conn; held = before ++ ((id, announces) ∷ after) })
    completes :
        (before after : List (ℕ × Errand)) (id : ℕ)
        → n.held ≡ before ++ ((id, announces) ∷ after)
        → Step n (record n { conn = call_done id n.conn; held = before ++ after })
    closes : (e : Option Err) → Step n (record n { conn = (close e n.conn).0 })
    ends : (e : Err) → Step n (record n { conn = end_input e n.conn })

  pub data Reach (n : Net V) : Net V → Type 0 where
    here : Reach n n
    next : {m k : Net V} → Reach n m → Step m k → Reach n k

  -- The program closes the connection, or its `input` ends.
  pub data Downs (n : Net V) : Net V → Type 0 where
    by_close : (e : Option Err) → Downs n (record n { conn = (close e n.conn).0 })
    by_end : (e : Err) → Downs n (record n { conn = end_input e n.conn })
