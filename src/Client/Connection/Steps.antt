-- ===== src/Client/Connection/Steps.antt =====
-- What one step of a connection does to the ledger of its calls.
use a_simple_rpc.Prelude.{
  one, count, count-snoc, ℕ, suc, ◌+◌, ◌%◌, ◌^◌, ◌≤◌, ◌<◌, ◌≡◌, refl, not, ◌||◌, Option, none, some,
  ◌==◌, ==_iff, Bool-cases, inl, inr, nat_eq, arith, subst, Option-cases,
}
use a_simple_rpc.Prelude.Maps.{lookup, insert, delete, lookup-insert}
use a_simple_rpc.Prelude.Bytes.{Bytes}
use a_simple_rpc.Outcome.{Err, shutdown, unsupported_codec}
use a_simple_rpc.Share.{has_codec}
use a_simple_rpc.Protocol.Header.{seq}
use a_simple_rpc.Protocol.Message.{Message}
use a_simple_rpc.Client.Call.{Codec, type_for, is_heartbeat_call, call_message}
use a_simple_rpc.Client.Connection.{
  Client, call_done, fail_call, drop_pending, reserve, transmit, send_reserved, send, fill_in,
  receive, cancel_found, cancel,
}
use a_simple_rpc.Client.Connection.Pending.{
  waiting, found, IsNumbered, IsNumbered-insert, waiting-insert, IsNumbered-delete, waiting-delete,
}

module _ {V : Type 0} where
  -- The calls that wait, and those that are completed.
  abbrev pub balance : ℕ → Client V → ℕ
  balance id c = count id c.completed + waiting id c.pending

  -- The pending numbers are below the next one.
  abbrev pub IsOrdered : Client V → Type 0
  IsOrdered c = IsNumbered 0 c.seq c.pending

  -- A step from `c` to `d` that adds `n` to the balance of a call.
  pub record Adds (id n : ℕ) (c d : Client V) : Type 0 where
    pub ordered : IsOrdered d
    pub grows : d.seq ≤ suc c.seq
    pub balanced : balance id d ≡ balance id c + n

  pub fail_call-Adds :
      (id j : ℕ) (e : Option Err) (c : Client V)
      → IsOrdered c
      → Adds id (one (j == id)) c (fail_call j e c)
  unfolding fail_call call_done
  fail_call-Adds id j e c h = record {
    ordered = h;
    grows = omega arith;
    balanced = omega (arith, count-snoc id j c.completed);
  }

  -- The call under a number is taken out and completed.
  pub settle :
      (id s j : ℕ) (e : Option Err) (c : Client V)
      → IsOrdered c
      → lookup s c.pending ≡ some j
      → Adds id 0 c (fail_call j e (drop_pending s c))
  unfolding fail_call call_done drop_pending
  settle id s j e c h l = record {
    ordered = IsNumbered-delete s 0 c.seq c.pending h;
    grows = omega arith;
    balanced =
        let w : waiting id (delete s c.pending) + one (j == id) ≡ waiting id c.pending =
          subst
            (λ (o : Option ℕ). waiting id (delete s c.pending) + found id o ≡ waiting id c.pending)
            l (waiting-delete id s 0 c.seq c.pending h) in
        omega (arith, w, count-snoc id j c.completed);
  }

  pub missing :
      (id s : ℕ) (c : Client V)
      → IsOrdered c
      → lookup s c.pending ≡ none
      → Adds id 0 c (drop_pending s c)
  unfolding drop_pending
  missing id s c h l = record {
    ordered = IsNumbered-delete s 0 c.seq c.pending h;
    grows = omega arith;
    balanced =
        let w : waiting id (delete s c.pending) + 0 ≡ waiting id c.pending =
          subst
            (λ (o : Option ℕ). waiting id (delete s c.pending) + found id o ≡ waiting id c.pending)
            l (waiting-delete id s 0 c.seq c.pending h) in
        omega (arith, w);
  }

  pub cancel-Adds : (id j : ℕ) (e : Err) (c : Client V) → IsOrdered c → Adds id 0 c (cancel j e c)
  unfolding cancel cancel_found
  cancel-Adds id j e c h = elim (Option-cases (lookup (c.calls j).seq_cell c.pending)) [
    | inl absent ↦ rw absent (missing id (c.calls j).seq_cell c h absent)
    | inr (k, there) ↦ rw there (settle id (c.calls j).seq_cell k (some e) c h there)
  ]

  -- `receive` fills in the call where `settle` sets an error: the ledger is the same.
  fill_in-Adds :
      (cs : Codec V) (id : ℕ) (msg : Message) (c : Client V) (o : Option ℕ)
      → IsOrdered c
      → lookup (seq msg.header) c.pending ≡ o
      → Adds id 0 c (fill_in cs msg o (drop_pending (seq msg.header) c)).0
  unfolding fill_in
  fill_in-Adds cs id msg c none h l = missing id (seq msg.header) c h l
  fill_in-Adds cs id msg c (some j) h l =
      let a = settle id (seq msg.header) j none c h l in
      unfold call_done drop_pending fail_call in
      record { ordered = a.ordered; grows = a.grows; balanced = a.balanced }

  pub receive-Adds :
      (cs : Codec V) (id : ℕ) (msg : Message) (c : Client V)
      → IsOrdered c
      → Adds id 0 c (receive cs msg c).0
  unfolding receive
  receive-Adds cs id msg c h = fill_in-Adds cs id msg c (lookup (seq msg.header) c.pending) h refl

  -- A message that cannot be encoded or written takes its call out of the map and completes it.
  pub drop_failed-Adds :
      (id n s j : ℕ) (e : Err) (c d : Client V)
      → Adds id n c d
      → lookup s d.pending ≡ some j
      → Adds id n c (fail_call j (some e) (drop_pending s d))
  drop_failed-Adds id n s j e c d a l =
      let b = settle id s j (some e) d a.ordered l in
      record {
        ordered = b.ordered;
        grows = unfold fail_call call_done drop_pending in a.grows;
        balanced = omega (arith, a.balanced, b.balanced);
      }

  transmit-Adds :
      (id n s j : ℕ) (p : Bytes × Option Err) (wrote : Option Err) (m : Message) (c d : Client V)
      → Adds id n c d
      → lookup s d.pending ≡ some j
      → Adds id n c (transmit p wrote s j m d)
  unfolding transmit
  transmit-Adds id n s j (payload, some e) wrote m c d a l = drop_failed-Adds id n s j e c d a l
  transmit-Adds id n s j (payload, none) (some e) m c d a l = drop_failed-Adds id n s j e c d a l
  transmit-Adds id n s j (payload, none) none m c d a l = record {
    ordered = a.ordered;
    grows = a.grows;
    balanced = a.balanced;
  }

  -- The client and the number that `reserve` hands to the rest of `send`.
  abbrev pub Hands : (id j : ℕ) → Client V → Client V × Option ℕ → Type 0
  Hands id j c (d, none) = Adds id (one (j == id)) c d
  Hands id j c (d, some s) = Adds id (one (j == id)) c d × (lookup s d.pending ≡ some j)

  pub reserve-Hands :
      (id j : ℕ) (c : Client V) → IsOrdered c → suc c.seq < 2 ^ 64 → Hands id j c (reserve j c)
  unfolding reserve
  reserve-Hands id j c h small = elim (Bool-cases (c.is_shutdown || c.closing)) [
    | inl over ↦ rw over (fail_call-Adds id j (some shutdown) c h)
    | inr running ↦
        elim (Bool-cases
          (not (has_codec (type_for (is_heartbeat_call (c.calls j)) c.serialize_type)))) [
            | inl bad ↦ rw (running, bad) (fail_call-Adds id j (some unsupported_codec) c h)
            | inr good ↦
                rw (running, good)
                  (
                    record {
                      ordered =
                          subst (λ (n : ℕ). IsNumbered 0 n (insert c.seq j c.pending)) wraps
                            (IsNumbered-insert 0 c.seq j c.pending h);
                      grows = omega (arith, wraps);
                      balanced = omega (arith, waiting-insert id 0 c.seq j c.pending h);
                    },
                    at_seq,
                  )
          ]
  ]
    where
      wraps : suc c.seq ≡ suc c.seq % 2 ^ 64
      wraps = omega arith

      at_seq : lookup c.seq (insert c.seq j c.pending) ≡ some j
      at_seq = rw (lookup-insert c.seq c.seq j c.pending) (ground (arith, ==_iff c.seq c.seq))

  pub send-Adds :
      (cs : Codec V) (id j : ℕ) (wrote : Option Err) (c : Client V)
      → IsOrdered c
      → suc c.seq < 2 ^ 64
      → Adds id (one (j == id)) c (send cs wrote j c)
  unfolding send send_reserved
  send-Adds cs id j wrote c h small = rest (reserve j c) (reserve-Hands id j c h small)
    where
      rest :
          (r : Client V × Option ℕ)
          → Hands id j c r
          → Adds id (one (j == id)) c (send_reserved cs wrote j r)
      rest (d, none) a = a
      rest (d, some s) (a, l) =
          transmit-Adds id (one (j == id)) s j
            (cs.marshal (type_for (is_heartbeat_call (d.calls j)) d.serialize_type)
              (d.calls j).args)
            wrote
            (call_message (type_for (is_heartbeat_call (d.calls j)) d.serialize_type) s (d.calls j))
            c d a l
