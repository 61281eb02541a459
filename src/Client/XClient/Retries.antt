-- ===== src/Client/XClient/Retries.antt =====
-- `Call` of client/xclient.go: how often it tries, and what it returns.
use a_simple_rpc.Prelude.{
  ℕ, zero, suc, ◌+◌, ◌<◌, ◌≤◌, ◌≡◌, refl, false, Option, none, some, arith, text_eq,
}
use a_simple_rpc.Prelude.Int.{ℤ, pos, negsuc}
use a_simple_rpc.Prelude.Bytes.{Text}
use a_simple_rpc.Outcome.{Err}
use a_simple_rpc.Client.XClient.{
  FailMode, fail_over, fail_fast, fail_try, fail_backup, World, XClient, Got, remove_client,
  uncover_error, select_client, call, wrap_call, drop_failed, again, retry_loop, rounds, fast_call,
  by_mode,
}
use a_simple_rpc.Client.XClient.Cache.{
  remove_client-Same, get_cached_client-Same, select_client-Same,
}

-- How many calls on a connection one `Call` may make: the first one and `Retries` more, none for a
-- negative `Retries`.
abbrev pub attempts : FailMode → ℤ → ℕ
attempts fail_try (pos n) = n + 1
attempts fail_over (pos n) = n + 1
attempts fail_fast retries = 1
attempts _ _ = 0

module _ (w : World) where
  again-calls : (mode : FailMode) (k : Text) (x : XClient) → (again w mode k x).1.2.calls ≡ x.calls
  unfolding again
  again-calls fail_try k x = (get_cached_client-Same w k x).calls
  again-calls _ k x = (select_client-Same w x).calls

  abbrev Within : XClient → ℕ → Option Err × XClient → Type 0
  Within x n r = (x.calls ≤ r.1.calls) × (r.1.calls ≤ x.calls + n)

  -- The state in which a call on `c` ends.
  abbrev pub called : XClient → XClient
  called x = record x { clock = x.clock + 1; calls = x.calls + 1 }

  retry_loop-Within :
      (mode : FailMode) (n : ℕ) (k : Text) (g : Got) → Within g.2 n (retry_loop w mode n (k, g))
  unfolding retry_loop wrap_call
  retry_loop-Within mode zero k (c, err, x) = omega arith
  retry_loop-Within mode (suc n) k (none, err, x) =
      let y : XClient = drop_failed err k none x in
      let p : Text × Got = again w mode k y in
      ground (
        arith,
        retry_loop-Within mode n p.0 p.1,
        again-calls mode k y,
        (remove_client-Same k none x).calls,
      )
  retry_loop-Within mode (suc n) k (some c, err, x) =
      let y : XClient = remove_client k (some c) (called x) in
      let p : Text × Got = again w mode k y in
      ground (
        arith,
        retry_loop-Within mode n p.0 p.1,
        again-calls mode k y,
        (remove_client-Same k (some c) (called x)).calls,
      )

  fast_call-Within : (k : Text) (g : Got) → Within g.2 1 (fast_call w (k, g))
  unfolding fast_call wrap_call
  fast_call-Within k (client, some err, x) = omega arith
  fast_call-Within k (none, none, x) = ground (arith, (remove_client-Same k none x).calls)
  fast_call-Within k (some c, none, x) =
      ground (arith, (remove_client-Same k (some c) (called x)).calls)

  by_mode-Within :
      (mode : FailMode) (n : ℤ) (k : Text) (g : Got) (x : XClient)
      → x.retries ≡ n
      → Within g.2 (attempts mode n) (by_mode w mode (k, g) x)
  unfolding by_mode
  by_mode-Within fail_try (pos n) k g x e =
      rw e (ground (arith, retry_loop-Within fail_try (rounds (pos n)) k g))
  by_mode-Within fail_try (negsuc n) k g x e =
      rw e (retry_loop-Within fail_try (rounds (negsuc n)) k g)
  by_mode-Within fail_over (pos n) k g x e =
      rw e (ground (arith, retry_loop-Within fail_over (rounds (pos n)) k g))
  by_mode-Within fail_over (negsuc n) k g x e =
      rw e (retry_loop-Within fail_over (rounds (negsuc n)) k g)
  by_mode-Within fail_fast n k g x e = fast_call-Within k g
  by_mode-Within fail_backup n k (c, err, y) x e = omega arith

-- Whatever the network does, one `Call` makes at most `Retries + 1` calls on connections under
-- `FailTry` and `FailOver` (none for a negative `Retries`), one under `FailFast` and none under
-- `FailBackup`.
pub call-attempts :
    (w : World) (x : XClient)
    → (x.calls ≤ (call w x).1.calls)
      × ((call w x).1.calls ≤ x.calls + attempts x.fail_mode x.retries)
unfolding call
call-attempts w x =
    let p : Text × Got = select_client w x in
    ground
      (arith, by_mode-Within w x.fail_mode x.retries p.0 p.1 x refl, (select_client-Same w x).calls)

-- An answer after which `Call` does not try again: success, or an error that `uncoverError` refuses.
abbrev pub Settled : Option Err → Type 0
Settled none = Unit {0}
Settled (some e) = uncover_error (some e) ≡ false

-- The mode makes a first attempt.
abbrev pub Tries : FailMode → ℤ → Type 0
Tries fail_try retries = 0 < rounds retries
Tries fail_over retries = 0 < rounds retries
Tries fail_fast retries = Unit {0}
Tries fail_backup retries = ⊥

module _ (w : World) (k : Text) (c : ℕ) (y : XClient) where
  retry_loop-Settled :
      (mode : FailMode) (n : ℕ) (r : Option Err)
      → w.reply y.clock c ≡ r
      → Settled r
      → 0 < n
      → retry_loop w mode n (k, (some c, none, y)) ≡ (r, called w y)
  unfolding retry_loop wrap_call
  retry_loop-Settled mode zero r e s h = absurd (omega arith)
  retry_loop-Settled mode (suc n) none e s h = rw (e, retry_loop)
  retry_loop-Settled mode (suc n) (some x) e s h = rw (e, retry_loop, s)

  fast_call-Settled :
      (r : Option Err)
      → w.reply y.clock c ≡ r
      → Settled r
      → fast_call w (k, (some c, none, y)) ≡ (r, called w y)
  unfolding fast_call wrap_call
  fast_call-Settled none e s = rw (e, fast_call)
  fast_call-Settled (some x) e s = rw (e, fast_call, s)

-- Where a client was selected and its server answers the first call with success, or with an error of
-- the service, a deadline or a cancellation, `Call` returns that answer after this one call, and
-- neither closes nor forgets a connection.
call-Settled :
    (w : World) (x y : XClient) (k : Text) (c : ℕ) (r : Option Err)
    → x.is_shutdown ≡ false
    → Tries x.fail_mode x.retries
    → select_client w x ≡ (k, (some c, none, y))
    → w.reply y.clock c ≡ r
    → Settled r
    → call w x ≡ (r, called w y)
unfolding call
call-Settled w x y k c r open_ tries sel e s = simp open_ (rw sel (go x.fail_mode tries))
  where
    go :
        (mode : FailMode)
        → Tries mode x.retries
        → by_mode w mode (k, (some c, none, y)) x ≡ (r, called w y)
    go fail_try h = unfold by_mode in retry_loop-Settled w k c y fail_try (rounds x.retries) r e s h
    go fail_over h =
        unfold by_mode in retry_loop-Settled w k c y fail_over (rounds x.retries) r e s h
    go fail_fast h = unfold by_mode in fast_call-Settled w k c y r e s
    go fail_backup h = absurd h
