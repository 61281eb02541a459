-- ===== src/Client/Connection/Input.antt =====
-- The loop of `input` in client/client.go, from `Connect` to the end of the stream.
use a_simple_rpc.Prelude.{
  ℕ, zero, suc, ◌≤◌, ◌<◌, ◌≡◌, refl, ap, true, [], ◌∷◌, Option, none, some, length, arith, count,
}
use a_simple_rpc.Prelude.Maps.{Map}
use a_simple_rpc.Outcome.{Err, Outcome, ok, fail, panic, stuck}
use a_simple_rpc.Protocol.Message.{Message, Reader, read}
use a_simple_rpc.Protocol.Message.Progress.{read-shorter}
use a_simple_rpc.Protocol.Message.Totality.{Returns, read-Returns}
use a_simple_rpc.Client.Call.{Codec}
use a_simple_rpc.Client.Connection.{
  Client, receive, end_input, end_of_input, fail_all, fail_call, call_done,
}
use a_simple_rpc.Client.Connection.Steps.{balance, IsOrdered}
use a_simple_rpc.Client.Connection.Preserving.{receive-Preserves, end_input-completes}

module _ {V : Type 0} (cs : Codec V) where
  -- `for err == nil`: behind the handling of a message, whose error ends the loop too.
  abbrev pub after_receive :
      Client V × Option Err → (Client V → Outcome (Client V)) → Outcome (Client V)
  after_receive (c, none) rest = rest c
  after_receive (c, some e) rest = ok (end_input e c)

  unfoldable pub after_decode :
      Outcome Message × Reader
      → Client V
      → (Reader → Client V → Outcome (Client V))
      → Outcome (Client V)
  after_decode (ok msg, r) c rest = after_receive (receive cs msg c) (rest r)
  after_decode (fail e, r) c rest = ok (end_input e c)
  after_decode (panic, r) c rest = panic
  after_decode (stuck, r) c rest = stuck

  -- The loop, on fuel.
  unfoldable pub input_loop : ℕ → Reader → Client V → Outcome (Client V)
  input_loop zero r c = stuck
  input_loop (suc n) r c = after_decode (read 0 r) c (λ r' c'. input_loop n r' c')

  unfoldable pub input : Reader → Client V → Outcome (Client V)
  input r c = input_loop (suc (length r.stream)) r c

  -- The connection is down, and each call that waited or had been completed has been completed as often.
  pub record Finished (c d : Client V) : Type 0 where
    pub down : d.is_shutdown ≡ true
    pub closed : d.conn_closed ≡ true
    pub completed : (id : ℕ) → balance id c ≤ count id d.completed

  fail_all-down :
      (m : Map ℕ ℕ) (e : Option Err) (c : Client V)
      → ((fail_all m e c).is_shutdown ≡ c.is_shutdown)
        × ((fail_all m e c).conn_closed ≡ c.conn_closed)
  unfolding fail_all fail_call call_done
  fail_all-down [] e c = (refl, refl)
  fail_all-down ((s, id) ∷ m) e c = fail_all-down m e (fail_call id e c)

  -- The end of the loop, from a state in which nothing was lost.
  end_input-Finished :
      (e : Err) (c d : Client V)
      → ((id : ℕ) → balance id c ≤ balance id d)
      → Finished c (end_input e d)
  unfolding end_input
  end_input-Finished e c d more =
      let kept =
        fail_all-down d.pending (some (end_of_input d.closing e))
          (record d { conn_closed = true; is_shutdown = true }) in
      record {
        down = kept.0;
        closed = kept.1;
        completed = λ id. omega (arith, more id, end_input-completes e d id);
      }

  abbrev Ends : Client V → Outcome (Client V) → Type 0
  Ends c o = (d : Client V) × (o ≡ ok d) × Finished c d

  after_decode-Ends :
      (c c' : Client V) (x : Outcome Message × Reader)
      (rest : Reader → Client V → Outcome (Client V))
      → IsOrdered c'
      → ((id : ℕ) → balance id c ≤ balance id c')
      → Returns x.0
      → ((m : Message) (d : Client V)
          → x.0 ≡ ok m
          → IsOrdered d
          → ((id : ℕ) → balance id c ≤ balance id d)
          → Ends c (rest x.1 d))
      → Ends c (after_decode x c' rest)
  unfolding after_decode
  after_decode-Ends c c' (ok msg, r) rest h more ret k =
      let p = receive-Preserves cs msg c' h in
      go (receive cs msg c') p.ordered λ id. omega (arith, more id, p.more id)
    where
      go :
          (y : Client V × Option Err)
          → IsOrdered y.0
          → ((id : ℕ) → balance id c ≤ balance id y.0)
          → Ends c (after_receive y (rest r))
      go (d, none) ordered m = k msg d refl ordered m
      go (d, some e) ordered m = (end_input e d, refl, end_input-Finished e c d m)
  after_decode-Ends c c' (fail e, r) rest h more ret k =
      (end_input e c', refl, end_input-Finished e c c' more)
  after_decode-Ends c c' (panic, r) rest h more ret k = elim ret [ ]
  after_decode-Ends c c' (stuck, r) rest h more ret k = elim ret [ ]

  input_loop-Ends :
      (n : ℕ) (r : Reader) (c c' : Client V)
      → length r.stream < n
      → IsOrdered c'
      → ((id : ℕ) → balance id c ≤ balance id c')
      → Ends c (input_loop n r c')
  unfolding input_loop
  input_loop-Ends zero r c c' l h more = absurd (omega arith)
  input_loop-Ends (suc n) r c c' l h more =
      after_decode-Ends c c' (read 0 r) (λ r' d. input_loop n r' d) h more (read-Returns 0 r)
        λ m d e ordered m'.
          input_loop-Ends n (read 0 r).1 c d
            (omega (
              arith,
              l,
              read-shorter 0 r.stream r.end m (read 0 r).1 (ap (λ o. (o, (read 0 r).1)) e),
            ))
            ordered m'

  -- Whatever a server sends and however its stream ends, `input` ends, if nothing else uses the
  -- connection meanwhile: the connection is then shut down and closed, and each call has been completed
  -- at least as often as it waited or had been completed before.
  pub input-Finished :
      (r : Reader) (c : Client V) → IsOrdered c → (d : Client V) × (input r c ≡ ok d) × Finished c d
  unfolding input
  input-Finished r c h =
      input_loop-Ends (suc (length r.stream)) r c c (omega arith) h (λ id. omega arith)
