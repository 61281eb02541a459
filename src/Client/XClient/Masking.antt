-- ===== src/Client/XClient/Masking.antt =====
-- What `Call` returns when every attempt fails and every new connection can be made.
use a_simple_rpc.Prelude.{
  ℕ, zero, suc, ◌+◌, ◌≡◌, ◌≢◌, ◌⊎◌, inl, inr, refl, sym, ap, subst, ◌∙◌, true, false, Bool-cases,
  [], Option, none, some, arith, text_eq, bytes_eq, bytes_eq_iff,
}
use a_simple_rpc.Prelude.Int.{pos}
use a_simple_rpc.Prelude.Bytes.{Text}
use a_simple_rpc.Prelude.Maps.{lookup}
use a_simple_rpc.Outcome.{Err}
use a_simple_rpc.Client.Selector.{Selector, split_network_and_address, select}
use a_simple_rpc.Client.XClient.{
  FailMode, fail_over, fail_try, World, alone, XClient, Got, remove_client, uncover_error, is_dead,
  generate_client, single_flight, store_client, dial_client, check_cached, get_cached_client,
  select_client, call, wrap_call, again, retry_loop, rounds, by_mode,
}
use a_simple_rpc.Client.XClient.Cache.{
  Same, remove_client-Same, get_cached_client-Same, select_client-Same,
}

-- A client, and no error.
pub record Connected (g : Got) : Type 0 where
  pub client : ℕ
  pub client_is : g.0 ≡ some client
  pub no_error : g.1 ≡ none

-- Every server accepts connections, nobody else dials, and every call fails with an error that
-- `uncoverError` lets through.
pub record AllFail (w : World) : Type 0 where
  pub dials : (n : ℕ) (network addr : Text) → w.dial n network addr ≡ none
  pub not_shared : (n : ℕ) (k : Text) → w.flight n k ≡ alone
  pub fault : ℕ → ℕ → Err
  pub faults : (n c : ℕ) → w.reply n c ≡ some (fault n c)
  pub coverable : (n c : ℕ) → uncover_error (some (fault n c)) ≡ true

module _ (w : World) (bad : AllFail w) where
  dial_client-Connected : (k : Text) (x : XClient) → Connected (dial_client w k x)
  unfolding dial_client single_flight generate_client store_client
  dial_client-Connected k x =
      let (network, addr) = split_network_and_address k in
      rw (bad.not_shared x.clock k, bad.dials x.clock network addr)
        (record { client = x.next_id; client_is = refl; no_error = refl })

  get_cached_client-Connected :
      (k : Text) (x : XClient) → x.is_shutdown ≡ false → Connected (get_cached_client w k x)
  unfolding get_cached_client
  get_cached_client-Connected k x open_ = simp open_ (go (lookup k x.cached_client))
    where
      go : (c : Option ℕ) → Connected (check_cached w c k x)
      go none = unfold check_cached in dial_client-Connected k x
      go (some c) = elim (Bool-cases (is_dead w x c)) [
        | inl dead ↦ unfold check_cached in rw dead (dial_client-Connected k _)
        | inr live ↦
            unfold check_cached in
            rw live (record { client = c; client_is = refl; no_error = refl })
      ]

  select_client-Connected :
      (x : XClient)
      → x.is_shutdown ≡ false
      → select (w.draw x.clock) x.selector ≢ []
      → Connected (select_client w x).1
  unfolding select_client
  select_client-Connected x open_ nonempty =
      elim (Bool-cases (bytes_eq (select (w.draw x.clock) x.selector) [])) [
        | inl empty ↦ absurd (nonempty ((bytes_eq_iff _ _).0 empty))
        | inr found ↦ rw found (get_cached_client-Connected _ _ open_)
      ]

module _ (w : World) (bad : AllFail w) (sel : Selector)
    (found : (n : ℕ) → select (w.draw n) sel ≢ []) where
  -- What stays true from round to round.
  record Going (x : XClient) : Type 0 where
    going_selector : x.selector ≡ sel
    going_open : x.is_shutdown ≡ false

  Going-Same : {x y : XClient} → Going x → Same x y → Going y
  Going-Same g s = record {
    going_selector = s.selector ∙ g.going_selector;
    going_open = s.open_ ∙ g.going_open;
  }

  again-Connected :
      (mode : FailMode) (k : Text) (x : XClient) → Going x → Connected (again w mode k x).1
  unfolding again
  again-Connected fail_try k x g = get_cached_client-Connected w bad k x g.going_open
  again-Connected _ k x g =
      select_client-Connected w bad x g.going_open
        (subst (λ s. select (w.draw x.clock) s ≢ []) (sym g.going_selector) (found x.clock))

  again-Same : (mode : FailMode) (k : Text) (x : XClient) → Same x (again w mode k x).1.2
  unfolding again
  again-Same fail_try k x = get_cached_client-Same w k x
  again-Same _ k x = select_client-Same w x

  -- No round returns an error, and the last connection made leaves none.
  retry_loop-Masks :
      (mode : FailMode) (n : ℕ) (k : Text) (g : Got)
      → Connected g
      → Going g.2
      → ((retry_loop w mode n (k, g)).0 ≡ none)
        × ((retry_loop w mode n (k, g)).1.calls ≡ g.2.calls + n)
  unfolding retry_loop wrap_call
  retry_loop-Masks mode zero k (c, err, x) con going = (con.no_error, omega arith)
  retry_loop-Masks mode (suc n) k (none, err, x) con going = absurd (cc (con.client_is))
  retry_loop-Masks mode (suc n) k (some c, err, x) con going =
      let called : XClient = record x { clock = x.clock + 1; calls = x.calls + 1 } in
      let y : XClient = remove_client k (some c) called in
      let removed : Same called y = remove_client-Same k (some c) called in
      let called_going : Going called = record {
        going_selector = going.going_selector;
        going_open = going.going_open;
      } in
      let y_going : Going y = Going-Same called_going removed in
      let s : Same y (again w mode k y).1.2 = again-Same mode k y in
      let (no_error, counted) =
        retry_loop-Masks mode n (again w mode k y).0 (again w mode k y).1
          (again-Connected mode k y y_going) (Going-Same y_going s) in
      rw (bad.faults x.clock c, retry_loop, bad.coverable x.clock c)
        (no_error, omega (arith, counted, s.calls, removed.calls))

abbrev Retrying : FailMode → Type 0
Retrying mode = (mode ≡ fail_try) ⊎ (mode ≡ fail_over)

-- Under `FailTry` and `FailOver`, for a client that is not shut down, with a selector that always finds
-- a server: if each server accepts connections, and every call on a connection fails with an error that
-- allows another attempt, then `Call` makes `Retries + 1` calls, all of which fail, and returns nil.
pub call-Masks :
    (w : World) (x : XClient) (n : ℕ)
    → AllFail w
    → x.is_shutdown ≡ false
    → ((i : ℕ) → select (w.draw i) x.selector ≢ [])
    → Retrying x.fail_mode
    → x.retries ≡ pos n
    → ((call w x).0 ≡ none) × ((call w x).1.calls ≡ x.calls + suc n)
unfolding call by_mode
call-Masks w x n bad open_ found mode retries = simp open_ (go mode)
  where
    con : Connected (select_client w x).1
    con = select_client-Connected w bad x open_ (found x.clock)

    s : Same x (select_client w x).1.2
    s = select_client-Same w x

    going : Going w bad x.selector found (select_client w x).1.2
    going = record { going_selector = s.selector; going_open = s.open_ ∙ open_ }

    looped :
        (m : FailMode)
        → ((retry_loop w m (rounds x.retries) (select_client w x)).0 ≡ none)
          × ((retry_loop w m (rounds x.retries) (select_client w x)).1.calls ≡ x.calls + suc n)
    looped m =
        let (no_error, counted) =
          retry_loop-Masks w bad x.selector found m (rounds x.retries) (select_client w x).0
            (select_client w x).1 con going in
        (no_error, omega (arith, counted, s.calls, ap rounds retries))

    go :
        Retrying x.fail_mode
        → ((by_mode w x.fail_mode (select_client w x) x).0 ≡ none)
          × ((by_mode w x.fail_mode (select_client w x) x).1.calls ≡ x.calls + suc n)
    go (inl e) = simp e (looped fail_try)
    go (inr e) = simp e (looped fail_over)
