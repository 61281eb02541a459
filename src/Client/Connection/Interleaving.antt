-- ===== src/Client/Connection/Interleaving.antt =====
-- The goroutines of a connection of client/client.go, in any order.
use a_simple_rpc.Prelude.{
  All-map, All-middle, count, count-snoc, one, ◌+◌, ℕ, ◌≤◌, ◌≡◌, inl, inr, refl, ap, subst, List,
  ◌∷◌, ◌++◌, Option, none, some, ◌==◌, nat_eq, arith, All,
}
use a_simple_rpc.Prelude.Maps.{lookup}
use a_simple_rpc.Outcome.{Err}
use a_simple_rpc.Protocol.Header.{seq}
use a_simple_rpc.Client.Call.{Codec}
use a_simple_rpc.Client.Connection.{Client, call_done, drop_pending}
use a_simple_rpc.Client.Connection.Pending.{found}
use a_simple_rpc.Client.Connection.Goroutines.{
  Net, Errand, hold, holds, holds-middle, announces, fails, replies, work, Step, reserves, refuses,
  writes, gives_up, receives, cancels, works, completes, closes, ends, Reach, here, next,
}
use a_simple_rpc.Client.Connection.Steps.{balance}
use a_simple_rpc.Client.Connection.Preserving.{
  IsToken, close-Preserves, end_input-Preserves, drop_pending-IsOrdered, drop_pending-balance,
  drop_pending-IsToken,
}
use a_simple_rpc.Client.Connection.Keeping.{
  IsKept, Preserves-IsKept, reserves-IsKept, refuses-IsKept,
}

-- A goroutine takes a number out of the map, and has the call that it found in its hands.
pub found-holds :
    (id : ℕ) (o : Option ℕ) (t : Errand) (held : List (ℕ × Errand))
    → holds id (hold o t held) ≡ found id o + holds id held
found-holds id none t held = omega arith
found-holds id (some j) t held = omega arith

module _ {V : Type 0} where
  takes-IsKept :
      (n : Net V) (s : ℕ) (t : Errand)
      → IsKept n
      → IsKept (record n {
        conn = drop_pending s n.conn;
        held = hold (lookup s n.conn.pending) t n.held;
      })
  takes-IsKept n s t h = record {
    ordered = drop_pending-IsOrdered s n.conn h.ordered;
    tokens =
        All-map (λ f. IsToken n.conn f.0 f.1) (λ f. IsToken (drop_pending s n.conn) f.0 f.1)
          n.flights (λ f. drop_pending-IsToken s f.0 f.1 n.conn) h.tokens;
    kept = λ id. omega (
      arith,
      h.kept id,
      drop_pending-balance id s n.conn h.ordered,
      found-holds id (lookup s n.conn.pending) t n.held,
    );
  }

  -- `send` gives up on the call of its own number, which waits no more or is taken out.
  own-found :
      (id s j : ℕ) (c : Client V) → IsToken c s j → found id (lookup s c.pending) ≤ one (j == id)
  own-found id s j c token = elim token.mine [
    | inl absent ↦ rw absent (omega arith)
    | inr there ↦ rw there (omega arith)
  ]

  gives_up-IsKept :
      (n : Net V) (before rest : List (ℕ × ℕ)) (s j : ℕ) (e : Err)
      → n.flights ≡ before ++ ((s, j) ∷ rest)
      → IsKept n
      → IsKept (record n {
        conn = drop_pending s n.conn;
        flights = before ++ rest;
        held = (j, fails e) ∷ n.held;
      })
  gives_up-IsKept n before rest s j e at h =
      let (token, others) =
        All-middle (λ (f : ℕ × ℕ). IsToken n.conn f.0 f.1) before (s, j) rest
          (subst (All (λ (f : ℕ × ℕ). IsToken n.conn f.0 f.1)) at h.tokens) in
      record {
        ordered = drop_pending-IsOrdered s n.conn h.ordered;
        tokens =
            All-map (λ f. IsToken n.conn f.0 f.1) (λ f. IsToken (drop_pending s n.conn) f.0 f.1)
              (before ++ rest) (λ f. drop_pending-IsToken s f.0 f.1 n.conn) others;
        kept = λ id. omega (
          arith,
          h.kept id,
          drop_pending-balance id s n.conn h.ordered,
          own-found id s j n.conn token,
        );
      }

  completes-IsKept :
      (n : Net V) (before rest : List (ℕ × Errand)) (j : ℕ)
      → n.held ≡ before ++ ((j, announces) ∷ rest)
      → IsKept n
      → IsKept (record n { conn = call_done j n.conn; held = before ++ rest })
  unfolding call_done
  completes-IsKept n before rest j at h = record {
    ordered = h.ordered;
    tokens =
        All-map (λ f. IsToken n.conn f.0 f.1) (λ f. IsToken (call_done j n.conn) f.0 f.1) n.flights
          (λ f t. record { drawn = t.drawn; mine = t.mine }) h.tokens;
    kept = λ id. omega (
      arith,
      h.kept id,
      ap (holds id) at,
      holds-middle id j announces before rest,
      count-snoc id j n.conn.completed,
    );
  }

module _ {V : Type 0} (cs : Codec V) where
  works-IsKept :
      (n : Net V) (before rest : List (ℕ × Errand)) (j : ℕ) (t : Errand)
      → n.held ≡ before ++ ((j, t) ∷ rest)
      → IsKept n
      → IsKept (record n { conn = work cs t j n.conn; held = before ++ ((j, announces) ∷ rest) })
  works-IsKept n before rest j t at h = same t (λ id. omega (
    arith,
    h.kept id,
    ap (holds id) at,
    holds-middle id j t before rest,
    holds-middle id j announces before rest,
  ))
    where
      same :
          (u : Errand)
          → ((id : ℕ)
              → count id n.started
                ≤ balance id n.conn + holds id (before ++ ((j, announces) ∷ rest)))
          → IsKept
              (record n { conn = work cs u j n.conn; held = before ++ ((j, announces) ∷ rest) })
      same (replies m) k = record {
        ordered = h.ordered;
        tokens =
            All-map (λ f. IsToken n.conn f.0 f.1)
              (λ f. IsToken (work cs (replies m) j n.conn) f.0 f.1) n.flights
              (λ f t. record { drawn = t.drawn; mine = t.mine }) h.tokens;
        kept = k;
      }
      same (fails e) k = record {
        ordered = h.ordered;
        tokens =
            All-map (λ f. IsToken n.conn f.0 f.1)
              (λ f. IsToken (work cs (fails e) j n.conn) f.0 f.1) n.flights
              (λ f t. record { drawn = t.drawn; mine = t.mine }) h.tokens;
        kept = k;
      }
      same announces k = record { ordered = h.ordered; tokens = h.tokens; kept = k }

  pub Step-IsKept : {n m : Net V} → Step cs n m → IsKept n → IsKept m
  Step-IsKept {n} (reserves id s d small e) h = reserves-IsKept n id s d small e h
  Step-IsKept {n} (refuses id d small e) h = refuses-IsKept n id d small e h
  Step-IsKept {n} (writes before rest s id st p e k l) h =
      Preserves-IsKept n _ (before ++ rest) h
        (All-middle (λ (f : ℕ × ℕ). IsToken n.conn f.0 f.1) before (s, id) rest
          (subst (All (λ (f : ℕ × ℕ). IsToken n.conn f.0 f.1)) e h.tokens)).1
        (record {
          ordered = h.ordered;
          later = omega arith;
          fewer = λ k. inr refl;
          more = λ id. omega arith;
        })
  Step-IsKept {n} (gives_up before rest s id e at) h = gives_up-IsKept n before rest s id e at h
  Step-IsKept {n} (receives msg) h = takes-IsKept n (seq msg.header) (replies msg) h
  Step-IsKept {n} (cancels s e) h = takes-IsKept n s (fails e) h
  Step-IsKept {n} (works before rest id t e) h = works-IsKept n before rest id t e h
  Step-IsKept {n} (completes before rest id e) h = completes-IsKept n before rest id e h
  Step-IsKept {n} (closes e) h =
      Preserves-IsKept n _ n.flights h h.tokens (close-Preserves e n.conn h.ordered)
  Step-IsKept {n} (ends e) h =
      Preserves-IsKept n _ n.flights h h.tokens (end_input-Preserves e n.conn h.ordered)

  -- However the goroutines of a connection interleave, also between an `Unlock` and the `call.done()`
  -- behind it: from a state in which nothing is lost, as a new connection is, every state that is
  -- reached before the numbers run out has lost no call. Each call waits in the map, is in the hands of
  -- a goroutine that completes it next, or is completed, together at least as often as it was sent; and
  -- the number that a `send` still holds leads to its own call or to none.
  pub Reach-IsKept : {n m : Net V} → IsKept n → Reach cs n m → IsKept m
  Reach-IsKept h here = h
  Reach-IsKept h (next r st) = Step-IsKept st (Reach-IsKept h r)
