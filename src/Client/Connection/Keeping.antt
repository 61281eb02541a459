-- ===== src/Client/Connection/Keeping.antt =====
-- What it means that a connection of client/client.go loses no call, and that drawing a number keeps it.
use a_simple_rpc.Prelude.{
  All-map, count, ◌+◌, ℕ, suc, ◌^◌, ◌≤◌, ◌<◌, ◌≡◌, inl, inr, refl, subst, ◌∙◌, ◌||◌, not,
  Bool-cases, List, ◌∷◌, Option, none, some, ◌==◌, ==_iff, nat_eq, arith, All, false,
}
use a_simple_rpc.Prelude.Maps.{lookup, insert, lookup-insert}
use a_simple_rpc.Share.{has_codec}
use a_simple_rpc.Client.Call.{type_for, is_heartbeat_call}
use a_simple_rpc.Client.Connection.{Client, fail_call, call_done, reserve}
use a_simple_rpc.Client.Connection.Goroutines.{Net, holds}
use a_simple_rpc.Client.Connection.Steps.{balance, IsOrdered, Hands, reserve-Hands}
use a_simple_rpc.Client.Connection.Preserving.{Preserves, IsToken, Preserves-IsToken}

-- Nothing is lost: each call waits, is in the hands of a goroutine or is completed, at least as often as
-- it was sent.
pub record IsKept {V : Type 0} (n : Net V) : Type 0 where
  pub ordered : IsOrdered n.conn
  pub tokens : All (λ f. IsToken n.conn f.0 f.1) n.flights
  pub kept : (id : ℕ) → count id n.started ≤ balance id n.conn + holds id n.held

module _ {V : Type 0} where
  -- A step that starts no call, over tokens that are among the earlier ones.
  pub Preserves-IsKept :
      (n : Net V) (d : Client V) (flights : List (ℕ × ℕ))
      → IsKept n
      → All (λ f. IsToken n.conn f.0 f.1) flights
      → Preserves n.conn d
      → IsKept (record n { conn = d; flights = flights })
  Preserves-IsKept n d flights h tokens p = record {
    ordered = p.ordered;
    tokens =
        All-map (λ f. IsToken n.conn f.0 f.1) (λ f. IsToken d f.0 f.1) flights
          (λ f. Preserves-IsToken f.0 f.1 n.conn d p) tokens;
    kept = λ id. omega (arith, h.kept id, p.more id);
  }

  -- What `reserve` does to the numbers.
  abbrev Draws : ℕ → Client V → Client V × Option ℕ → Type 0
  Draws j c (d, none) = (d.pending ≡ c.pending) × (d.seq ≡ c.seq)
  Draws j c (d, some s) = (s ≡ c.seq) × (d.seq ≡ suc c.seq) × (d.pending ≡ insert c.seq j c.pending)

  reserve-Draws : (j : ℕ) (c : Client V) → suc c.seq < 2 ^ 64 → Draws j c (reserve j c)
  unfolding reserve fail_call call_done
  reserve-Draws j c small = elim (Bool-cases (c.is_shutdown || c.closing)) [
    | inl closed ↦ rw closed (refl, refl)
    | inr running ↦
        elim (Bool-cases
          (not (has_codec (type_for (is_heartbeat_call (c.calls j)) c.serialize_type)))) [
            | inl bad ↦ rw (running, bad) (refl, refl)
            | inr good ↦ rw (running, good) (refl, omega arith, refl)
          ]
  ]

  -- A number below the one that was drawn is looked up as before.
  IsToken-reserved :
      (j s k : ℕ) (c d : Client V) → Draws j c (d, some s) → (t : ℕ) → IsToken c t k → IsToken d t k
  IsToken-reserved j s k c d (number, next_seq, pending) t token =
      let other : (c.seq == t) ≡ false = ground (arith, ==_iff c.seq t, token.drawn) in
      let same : lookup t d.pending ≡ lookup t c.pending =
        rw (pending, lookup-insert c.seq t j c.pending, other) refl in
      record {
        drawn = omega (arith, token.drawn, next_seq);
        mine = elim token.mine [
          | inl absent ↦ inl (same ∙ absent)
          | inr there ↦ inr (same ∙ there)
        ];
      }

  pub reserves-IsKept :
      (n : Net V) (id s : ℕ) (d : Client V)
      → suc n.conn.seq < 2 ^ 64
      → reserve id n.conn ≡ (d, some s)
      → IsKept n
      → IsKept (record n { conn = d; flights = (s, id) ∷ n.flights; started = id ∷ n.started })
  reserves-IsKept n id s d small e h = record {
    ordered = (hands 0).0.ordered;
    tokens = (
      record { drawn = omega (arith, draws.0, draws.1); mine = inr (hands 0).1 },
      All-map (λ f. IsToken n.conn f.0 f.1) (λ f. IsToken d f.0 f.1) n.flights
          (λ f. IsToken-reserved id s f.1 n.conn d draws f.0) h.tokens,
    );
    kept = λ k. omega (arith, h.kept k, (hands k).0.balanced);
  }
    where
      hands : (k : ℕ) → Hands k id n.conn (d, some s)
      hands k = subst (Hands k id n.conn) e (reserve-Hands k id n.conn h.ordered small)

      draws : Draws id n.conn (d, some s)
      draws = subst (Draws id n.conn) e (reserve-Draws id n.conn small)

  pub refuses-IsKept :
      (n : Net V) (id : ℕ) (d : Client V)
      → suc n.conn.seq < 2 ^ 64
      → reserve id n.conn ≡ (d, none)
      → IsKept n
      → IsKept (record n { conn = d; started = id ∷ n.started })
  refuses-IsKept n id d small e h = record {
    ordered = (hands 0).ordered;
    tokens =
        All-map (λ f. IsToken n.conn f.0 f.1) (λ f. IsToken d f.0 f.1) n.flights
          (λ f token. record {
            drawn = omega (arith, token.drawn, draws.1);
            mine = rw (draws.0) (token.mine);
          })
          h.tokens;
    kept = λ k. omega (arith, h.kept k, (hands k).balanced);
  }
    where
      hands : (k : ℕ) → Hands k id n.conn (d, none)
      hands k = subst (Hands k id n.conn) e (reserve-Hands k id n.conn h.ordered small)

      draws : Draws id n.conn (d, none)
      draws = subst (Draws id n.conn) e (reserve-Draws id n.conn small)
