-- ===== src/Client/Connection/Preserving.antt =====
-- What each step of a connection, other than drawing a number, leaves of the calls that wait.
use a_simple_rpc.Prelude.{
  count, ℕ, ◌+◌, ◌≤◌, ◌<◌, ◌≡◌, ◌⊎◌, inl, inr, refl, ap, ◌∙◌, true, ◌||◌, [], ◌∷◌, Option, none,
  some, ◌==◌, Bool-cases, nat_eq, arith,
}
use a_simple_rpc.Prelude.Maps.{Map, lookup, delete, lookup-delete}
use a_simple_rpc.Outcome.{Err, shutdown}
use a_simple_rpc.Protocol.Header.{seq}
use a_simple_rpc.Protocol.Message.{Message}
use a_simple_rpc.Client.Call.{Codec}
use a_simple_rpc.Client.Connection.{
  Client, call_done, fail_call, drop_pending, fill_in, receive, end_input, end_of_input,
  close_pending, close,
}
use a_simple_rpc.Client.Connection.Pending.{waiting, found, IsNumbered-delete, waiting-delete}
use a_simple_rpc.Client.Connection.Steps.{balance, IsOrdered, Adds, receive-Adds}
use a_simple_rpc.Client.Connection.Closing.{close-Adds, close-empty}
use a_simple_rpc.Client.Connection.Accounting.{fail_all-doubles, fail_all-keeps}

-- What is found under a number afterwards: what was, or nothing.
abbrev pub Fewer : Map ℕ ℕ → Map ℕ ℕ → Type 0
Fewer before after = (s : ℕ) → (lookup s after ≡ none) ⊎ (lookup s after ≡ lookup s before)

delete-Fewer : (s : ℕ) (m : Map ℕ ℕ) → Fewer m (delete s m)
delete-Fewer s m k = elim (Bool-cases (s == k)) [
  | inl same ↦ inl (rw (lookup-delete s k m, same))
  | inr other ↦ inr (rw (lookup-delete s k m, other))
]

module _ {V : Type 0} where
  -- A step from `c` to `d` that starts no call.
  pub record Preserves (c d : Client V) : Type 0 where
    pub ordered : IsOrdered d
    pub later : c.seq ≤ d.seq
    pub fewer : Fewer c.pending d.pending
    pub more : (id : ℕ) → balance id c ≤ balance id d

  -- A step that takes one number out, whatever it does to calls and channels.
  drops :
      (s : ℕ) (c d : Client V)
      → IsOrdered d
      → d.seq ≡ c.seq
      → d.pending ≡ delete s c.pending
      → ((id : ℕ) → balance id c ≤ balance id d)
      → Preserves c d
  drops s c d h k p m = record {
    ordered = h;
    later = omega (arith, k);
    fewer = rw p (delete-Fewer s c.pending);
    more = m;
  }

  balance-le : (id : ℕ) (c d : Client V) → Adds id 0 c d → balance id c ≤ balance id d
  balance-le id c d a = omega (arith, a.balanced)

  fill_in-keeps :
      (cs : Codec V) (msg : Message) (o : Option ℕ) (d : Client V)
      → ((fill_in cs msg o d).0.seq ≡ d.seq) × ((fill_in cs msg o d).0.pending ≡ d.pending)
  unfolding fill_in call_done
  fill_in-keeps cs msg none d = (refl, refl)
  fill_in-keeps cs msg (some k) d = (refl, refl)

  pub receive-Preserves :
      (cs : Codec V) (msg : Message) (c : Client V) → IsOrdered c → Preserves c (receive cs msg c).0
  receive-Preserves cs msg c h =
      let a = λ (id : ℕ). receive-Adds cs id msg c h in
      drops (seq msg.header) c (receive cs msg c).0 (a 0).ordered kept.0 kept.1
        λ id. balance-le id c (receive cs msg c).0 (a id)
    where
      kept :
          ((receive cs msg c).0.seq ≡ c.seq)
          × ((receive cs msg c).0.pending ≡ delete (seq msg.header) c.pending)
      kept =
          unfold receive drop_pending in
          fill_in-keeps cs msg (lookup (seq msg.header) c.pending) (drop_pending (seq msg.header) c)

  close_pending-seq : (m : Map ℕ ℕ) (d : Client V) → (close_pending m d).seq ≡ d.seq
  unfolding close_pending fail_call call_done drop_pending
  close_pending-seq [] d = refl
  close_pending-seq ((s, j) ∷ m) d =
      close_pending-seq m (fail_call j (some shutdown) (drop_pending s d))

  close-seq : (e : Option Err) (c : Client V) → (close e c).0.seq ≡ c.seq
  unfolding close
  close-seq e c =
      elim (Bool-cases
        ((close_pending c.pending c).closing || (close_pending c.pending c).is_shutdown)) [
          | inl over ↦ rw over (close_pending-seq c.pending c)
          | inr running ↦ rw running (close_pending-seq c.pending c)
        ]

  pub close-Preserves : (e : Option Err) (c : Client V) → IsOrdered c → Preserves c (close e c).0
  close-Preserves e c h =
      let a = λ (id : ℕ). close-Adds id e c h in
      record {
        ordered = (a 0).ordered;
        later = omega (arith, close-seq e c);
        fewer = λ s. inl (rw (close-empty e c h) (unfold lookup in refl));
        more = λ id. balance-le id c (close e c).0 (a id);
      }

  -- At the end of `input` the map stays, and each call that waits is completed.
  pub end_input-completes :
      (e : Err) (c : Client V) (id : ℕ)
      → count id (end_input e c).completed ≡ count id c.completed + waiting id c.pending
  unfolding end_input
  end_input-completes e c id =
      fail_all-doubles c.pending (some (end_of_input c.closing e))
        (record c { conn_closed = true; is_shutdown = true }) id

  pub end_input-Preserves : (e : Err) (c : Client V) → IsOrdered c → Preserves c (end_input e c)
  end_input-Preserves e c h = record {
    ordered = rw (kept.0, kept.1) h;
    later = omega (arith, kept.1);
    fewer = λ s. inr (ap (λ m. lookup s m) kept.0);
    more = λ id. omega (arith, end_input-completes e c id, ap (waiting id) kept.0);
  }
    where
      kept : ((end_input e c).pending ≡ c.pending) × ((end_input e c).seq ≡ c.seq)
      kept =
          unfold end_input in
          fail_all-keeps c.pending (some (end_of_input c.closing e))
            (record c { conn_closed = true; is_shutdown = true })

  -- A number that was drawn for a call: the call still waits under it, or nothing does.
  pub record IsToken (c : Client V) (s j : ℕ) : Type 0 where
    pub drawn : s < c.seq
    pub mine : (lookup s c.pending ≡ none) ⊎ (lookup s c.pending ≡ some j)

  Fewer-IsToken :
      (s j : ℕ) (c d : Client V)
      → c.seq ≤ d.seq
      → Fewer c.pending d.pending
      → IsToken c s j
      → IsToken d s j
  Fewer-IsToken s j c d later fewer t = record {
    drawn = omega (arith, later, t.drawn);
    mine = elim (fewer s) [
      | inl gone ↦ inl gone
      | inr kept ↦ elim t.mine [ inl absent ↦ inl (kept ∙ absent) | inr there ↦ inr (kept ∙ there) ]
    ];
  }

  -- A number that is taken out, with or without a call.
  pub drop_pending-IsOrdered : (s : ℕ) (c : Client V) → IsOrdered c → IsOrdered (drop_pending s c)
  unfolding drop_pending
  drop_pending-IsOrdered s c h = IsNumbered-delete s 0 c.seq c.pending h

  -- Nothing is lost where the call that was found is in someone's hands.
  pub drop_pending-balance :
      (id s : ℕ) (c : Client V)
      → IsOrdered c
      → balance id (drop_pending s c) + found id (lookup s c.pending) ≡ balance id c
  unfolding drop_pending
  drop_pending-balance id s c h = omega (arith, waiting-delete id s 0 c.seq c.pending h)

  pub drop_pending-IsToken :
      (t s j : ℕ) (c : Client V) → IsToken c s j → IsToken (drop_pending t c) s j
  unfolding drop_pending
  drop_pending-IsToken t s j c token =
      Fewer-IsToken s j c (drop_pending t c) (omega arith) (delete-Fewer t c.pending) token

  pub Preserves-IsToken : (s j : ℕ) (c d : Client V) → Preserves c d → IsToken c s j → IsToken d s j
  Preserves-IsToken s j c d p t = Fewer-IsToken s j c d p.later p.fewer t
