-- ===== src/Client/Connection/Closing.antt =====
-- What `Close` does to the ledger of the calls of a connection.
use a_simple_rpc.Prelude.{
  ℕ, suc, ◌≡◌, refl, true, ◌||◌, [], ◌∷◌, Option, some, ◌==◌, ==_iff, Bool-cases, inl, inr, nat_eq,
  arith,
}
use a_simple_rpc.Prelude.Maps.{Map, lookup, delete}
use a_simple_rpc.Outcome.{Err, shutdown}
use a_simple_rpc.Client.Connection.{
  Client, call_done, fail_call, drop_pending, close_pending, close,
}
use a_simple_rpc.Client.Connection.Pending.{IsNumbered, delete-absent}
use a_simple_rpc.Client.Connection.Steps.{IsOrdered, Adds, drop_failed-Adds}

module _ {V : Type 0} where
  delete-head :
      (lo s j : ℕ) (m : Map ℕ ℕ) (d : Client V)
      → d.pending ≡ (s, j) ∷ m
      → IsNumbered lo d.seq ((s, j) ∷ m)
      → delete s d.pending ≡ m
  unfolding delete
  delete-head lo s j m d p h =
      let same : (s == s) ≡ true = (==_iff s s).1 refl in
      rw (p, same) (delete-absent s (suc s) d.seq m (omega arith) h.1)

  close_pending-empty :
      (lo : ℕ) (m : Map ℕ ℕ) (d : Client V)
      → d.pending ≡ m
      → IsNumbered lo d.seq m
      → (close_pending m d).pending ≡ []
  unfolding close_pending fail_call call_done drop_pending
  close_pending-empty lo [] d p h = p
  close_pending-empty lo ((s, j) ∷ m) d p h =
      close_pending-empty (suc s) m (fail_call j (some shutdown) (drop_pending s d))
        (delete-head lo s j m d p h) h.1

  -- After `Close` no call waits.
  pub close-empty : (e : Option Err) (c : Client V) → IsOrdered c → (close e c).0.pending ≡ []
  unfolding close
  close-empty e c h =
      elim (Bool-cases
        ((close_pending c.pending c).closing || (close_pending c.pending c).is_shutdown)) [
          | inl over ↦ rw over (close_pending-empty 0 c.pending c refl h)
          | inr running ↦ rw running (close_pending-empty 0 c.pending c refl h)
        ]

  close_pending-Adds :
      (id lo : ℕ) (m : Map ℕ ℕ) (c d : Client V)
      → Adds id 0 c d
      → d.pending ≡ m
      → IsNumbered lo d.seq m
      → Adds id 0 c (close_pending m d)
  unfolding close_pending
  close_pending-Adds id lo [] c d a p h = a
  close_pending-Adds id lo ((s, j) ∷ m) c d a p h =
      let head : lookup s d.pending ≡ some j = rw p (unfold lookup in ground (arith, ==_iff s s)) in
      close_pending-Adds id (suc s) m c (fail_call j (some shutdown) (drop_pending s d))
        (drop_failed-Adds id 0 s j shutdown c d a head)
        (unfold fail_call call_done drop_pending in delete-head lo s j m d p h)
        (unfold fail_call call_done drop_pending in h.1)

  pub close-Adds :
      (id : ℕ) (e : Option Err) (c : Client V) → IsOrdered c → Adds id 0 c (close e c).0
  unfolding close
  close-Adds id e c h =
      let same : Adds id 0 c c = record {
        ordered = h;
        grows = omega arith;
        balanced = omega arith;
      } in
      let a = close_pending-Adds id 0 c.pending c c same refl h in
      elim (Bool-cases
        ((close_pending c.pending c).closing || (close_pending c.pending c).is_shutdown)) [
          | inl over ↦ rw over a
          | inr running ↦
              rw running (record { ordered = a.ordered; grows = a.grows; balanced = a.balanced })
        ]
