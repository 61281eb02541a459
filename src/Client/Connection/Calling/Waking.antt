-- ===== src/Client/Connection/Calling/Waking.antt =====
-- Whoever waits in `Call` is woken.
use a_simple_rpc.Prelude.{
  count, count-snoc, ap, ◌+◌, ℕ, ◌≤◌, ◌≡◌, refl, subst, true, List, [], ◌∷◌, Option, none, some,
  ◌==◌, length, nat_eq, arith, ==_iff,
}
use a_simple_rpc.Outcome.{Err, ok}
use a_simple_rpc.Client.Call.{Call, Codec, edit}
use a_simple_rpc.Client.Connection.{Client, go, close, reserve, fail_call, call_done, drop_pending}
use a_simple_rpc.Client.Connection.Pending.{waiting}
use a_simple_rpc.Client.Connection.Steps.{balance}
use a_simple_rpc.Prelude.Maps.{lookup}
use a_simple_rpc.Protocol.Header.{seq}
use a_simple_rpc.Client.Connection.Closing.{close-empty}
use a_simple_rpc.Client.Connection.Preserving.{close-Preserves, end_input-completes}
use a_simple_rpc.Client.Connection.Goroutines.{
  work, replies, fails, Net, Errand, hold, holds, holds-middle, announces, Step, reserves, refuses,
  writes, gives_up, receives, cancels, works, completes, closes, ends, Reach, here, next, Downs,
  by_close, by_end,
}
use a_simple_rpc.Client.Connection.Keeping.{IsKept}
use a_simple_rpc.Client.Connection.Interleaving.{Reach-IsKept, found-holds}
use a_simple_rpc.Client.Connection.Calling.{start_call, finish_call, receive_call, received}
use a_simple_rpc.Client.Connection.Calling.Hearing.{
  Hears, same-Hears, call_done-Hears, work-Hears, drop_pending-Hears, reserve-Hears,
  end_input-Hears, close-Hears,
}

module _ {V : Type 0} (cs : Codec V) (id ch : ℕ) where
  Step-Hears : {n m : Net V} → Step cs n m → Hears id ch n.conn → Hears id ch m.conn
  Step-Hears {n} (reserves j s d small e) h =
      subst (λ r. Hears id ch r.0) e (reserve-Hears id ch j n.conn h)
  Step-Hears {n} (refuses j d small e) h =
      subst (λ r. Hears id ch r.0) e (reserve-Hears id ch j n.conn h)
  Step-Hears {n} (writes before rest s j st p e k l) h = same-Hears id ch n.conn _ refl refl refl h
  Step-Hears {n} (gives_up before rest s j e at) h = drop_pending-Hears id ch s n.conn h
  Step-Hears {n} (receives msg) h = drop_pending-Hears id ch (seq msg.header) n.conn h
  Step-Hears {n} (cancels s e) h = drop_pending-Hears id ch s n.conn h
  Step-Hears {n} (works before rest j t e) h = work-Hears cs id ch t j n.conn h
  Step-Hears {n} (completes before rest j e) h = call_done-Hears id ch j n.conn h
  Step-Hears {n} (closes e) h = close-Hears id ch e n.conn h
  Step-Hears {n} (ends e) h = end_input-Hears id ch e n.conn h

  Reach-Hears : {n m : Net V} → Reach cs n m → Hears id ch n.conn → Hears id ch m.conn
  Reach-Hears here h = h
  Reach-Hears (next r st) h = Step-Hears st (Reach-Hears r h)

takes-kept :
    (id : ℕ) (o : Option ℕ) (t : Errand) (held : List (ℕ × Errand))
    → holds id held ≤ holds id (hold o t held)
takes-kept id o t held = omega (arith, found-holds id o t held)

module _ {V : Type 0} (id : ℕ) where
  -- How often a call has been completed, or is in the hands of a goroutine that completes it next.
  abbrev done_or_held : Net V → ℕ
  done_or_held n = count id n.conn.completed + holds id n.held

  reserve-completed :
      (j : ℕ) (c : Client V) → count id c.completed ≤ count id (reserve j c).0.completed
  unfolding reserve fail_call call_done
  reserve-completed j c = ground (arith, count-snoc id j c.completed)

  close-completed :
      (e : Option Err) (n : Net V)
      → IsKept n
      → balance id n.conn ≤ count id (close e n.conn).0.completed
  close-completed e n k = omega (
    arith,
    (close-Preserves e n.conn k.ordered).more id,
    ap (waiting id) (close-empty e n.conn k.ordered),
  )

  work-completed :
      (cs : Codec V) (t : Errand) (j : ℕ) (c : Client V) → (work cs t j c).completed ≡ c.completed
  work-completed cs (replies m) j c = refl
  work-completed cs (fails e) j c = refl
  work-completed cs announces j c = refl

  Step-keeps :
      {cs : Codec V} {n m : Net V} → Step cs n m → IsKept n → done_or_held n ≤ done_or_held m
  unfolding drop_pending call_done
  Step-keeps {n = n} (reserves j s d small e) k =
      omega (arith, reserve-completed j n.conn, ap (λ r. count id r.0.completed) e)
  Step-keeps {n = n} (refuses j d small e) k =
      omega (arith, reserve-completed j n.conn, ap (λ r. count id r.0.completed) e)
  Step-keeps (writes before rest s j st p e k l) h = omega arith
  Step-keeps (gives_up before rest s j e at) k = omega arith
  Step-keeps {n = n} (receives msg) k =
      omega (arith, takes-kept id (lookup (seq msg.header) n.conn.pending) (replies msg) n.held)
  Step-keeps {n = n} (cancels s e) k =
      omega (arith, takes-kept id (lookup s n.conn.pending) (fails e) n.held)
  Step-keeps {cs = cs} {n} (works before rest j t e) k = omega (
    arith,
    ap (count id) (work-completed cs t j n.conn),
    ap (holds id) e,
    holds-middle id j t before rest,
    holds-middle id j announces before rest,
  )
  Step-keeps {n = n} (completes before rest j e) k = omega (
    arith,
    ap (holds id) e,
    holds-middle id j announces before rest,
    count-snoc id j n.conn.completed,
  )
  Step-keeps {n = n} (closes e) k = omega (arith, close-completed e n k)
  Step-keeps {n = n} (ends e) k = omega (arith, end_input-completes e n.conn id)

  Reach-keeps :
      {cs : Codec V} {n m : Net V} → Reach cs n m → IsKept n → done_or_held n ≤ done_or_held m
  Reach-keeps here k = omega arith
  Reach-keeps {cs = cs} (next r st) k =
      omega (arith, Reach-keeps r k, Step-keeps st (Reach-IsKept cs k r))

module _ {V : Type 0} where
  -- The `select` can run: `Call` returns.
  abbrev pub Wakes : ℕ → Client V → Type 0
  Wakes id c = (r : Client V × Option Err) × (finish_call received id c ≡ some r)

  Hears-Wakes : (id ch : ℕ) (c : Client V) → Hears id ch c → 1 ≤ count id c.completed → Wakes id c
  unfolding finish_call receive_call
  Hears-Wakes id ch c h n = rw h.done_is (go_on (c.channels ch).queue (h.heard n))
    where
      go_on :
          (queue : List ℕ)
          → 1 ≤ length queue
          → (r : Client V × Option Err) × (receive_call ch queue c ≡ some r)
      go_on [] few = absurd (omega (arith, few))
      go_on (j ∷ js) few = (_, refl)

  -- The state in which `Call` starts to wait.
  abbrev pub begun : ℕ → ℕ → Call V → Client V → Client V
  begun id ch call c = record c {
    calls =
        edit id (λ _. record call { seq_cell = 0; error = none; res_metadata = []; done = ch })
          c.calls;
    channels = edit ch (λ _. record { cap = 1; queue = [] }) c.channels;
  }

  start_call-begun :
      (id ch : ℕ) (call : Call V) (c : Client V) → start_call id ch call c ≡ ok (begun id ch call c)
  unfolding start_call go
  start_call-begun id ch call c =
      let same : (ch == ch) ≡ true = (==_iff ch ch).1 refl in rw same refl

  begun-Hears :
      (id ch : ℕ) (call : Call V) (c : Client V)
      → count id c.completed ≡ 0
      → Hears id ch (begun id ch call c)
  begun-Hears id ch call c new =
      let same_call : (id == id) ≡ true = (==_iff id id).1 refl in
      let same_channel : (ch == ch) ≡ true = (==_iff ch ch).1 refl in
      record {
        done_is = rw same_call refl;
        room = rw same_channel (omega arith);
        heard = λ n. absurd (omega (arith, n, new));
      }

  Downs-Reach : (cs : Codec V) {n d : Net V} → Downs cs n d → Reach cs n d
  Downs-Reach cs (by_close e) = next here (closes e)
  Downs-Reach cs (by_end e) = next here (ends e)

  Downs-completes :
      (cs : Codec V) (id : ℕ) {n d : Net V}
      → IsKept n
      → Downs cs n d
      → count id n.started ≤ done_or_held id d
  Downs-completes cs id {n} k (by_close e) = omega (arith, k.kept id, close-completed id e n k)
  Downs-completes cs id {n} k (by_end e) = omega (arith, k.kept id, end_input-completes e n.conn id)

  -- `Call` does not wait for ever. It starts for a call that has not been completed, on a connection in
  -- which nothing is lost, and its call is then sent, one way or another. The goroutines of the
  -- connection interleave in any way before the numbers run out, the program closes the connection or
  -- its `input` ends, and they go on in any way: as soon as no goroutine has the call in its hands,
  -- between an `Unlock` and the `call.done()` behind it, something is in the channel of the call, and
  -- `Call` returns.
  pub call-Wakes :
      (cs : Codec V) (ch : ℕ) (call : Call V) (n : Net V) {m d k : Net V} (id : ℕ)
      → count id n.conn.completed ≡ 0
      → IsKept (record n { conn = begun id ch call n.conn })
      → Reach cs (record n { conn = begun id ch call n.conn }) m
      → 1 ≤ count id m.started
      → Downs cs m d
      → Reach cs d k
      → holds id k.held ≡ 0
      → (start_call id ch call n.conn ≡ ok (begun id ch call n.conn)) × Wakes id k.conn
  call-Wakes cs ch call n {k = k} id new kept r sent down later free =
      let h = Reach-Hears cs id ch r (begun-Hears id ch call n.conn new) in
      let h' = Reach-Hears cs id ch (Downs-Reach cs down) h in
      let m-kept = Reach-IsKept cs kept r in
      let d-kept = Reach-IsKept cs m-kept (Downs-Reach cs down) in
      (
        start_call-begun id ch call n.conn,
        Hears-Wakes id ch k.conn (Reach-Hears cs id ch later h') (
            omega
              (arith, sent, free, Downs-completes cs id m-kept down, Reach-keeps id later d-kept)),
      )
