-- ===== src/Client/XClient/Tidy/Calls.antt =====
-- Calls of an xclient, and what they do to its cache.
use a_simple_rpc.Prelude.{
  ℕ, zero, suc, ◌+◌, ◌≡◌, refl, Bool, true, false, [], Option, none, some, if◌then◌else◌, text_eq,
  nat_eq, bytes_eq, Bool-cases, inl, inr,
}
use a_simple_rpc.Prelude.Bytes.{Text}
use a_simple_rpc.Prelude.Maps.{lookup, delete}
use a_simple_rpc.Outcome.{Err, server_unavailable, xclient_shutdown}
use a_simple_rpc.Client.Selector.{select}
use a_simple_rpc.Client.XClient.{
  FailMode, fail_over, fail_fast, fail_try, fail_backup, World, alone, XClient, Got, remove_client,
  is_dead, generate_client, single_flight, dial_client, check_cached, get_cached_client,
  select_client, call, go, wrap_call, again, retry_loop, fast_call, by_mode, rounds, uncover_error,
  drop_failed, same_client,
}
use a_simple_rpc.Client.XClient.Tidy.{IsTidy, same-IsTidy, deleted-IsTidy, remove_client-IsTidy}
use a_simple_rpc.Client.XClient.Tidy.Entries.{Held, Held-IsTidy, stored-Held}

module _ (w : World) (not_shared : (t : ℕ) (k : Text) → w.flight t k ≡ alone) where
  dial_client-Held : (k : Text) (x : XClient) → IsTidy x → Held k (dial_client w k x)
  unfolding dial_client single_flight generate_client
  dial_client-Held k x t = rw (not_shared x.clock k) (stored-Held k x _ t)

  check_cached-Held :
      (c : Option ℕ) (k : Text) (x : XClient)
      → lookup k x.cached_client ≡ c
      → IsTidy x
      → Held k (check_cached w c k x)
  unfolding check_cached
  check_cached-Held none k x e t = dial_client-Held k x t
  check_cached-Held (some c) k x e t = elim (Bool-cases (is_dead w x c)) [
    | inl dead ↦
        let y : XClient = record x { cached_client = delete k x.cached_client } in
        rw dead (
          dial_client-Held k (record y { clock = x.clock + 1 })
            (same-IsTidy y _ refl refl refl (deleted-IsTidy k x t)))
    | inr alive ↦ rw alive (same-IsTidy x _ refl refl refl t, e)
  ]

  get_cached_client-Held : (k : Text) (x : XClient) → IsTidy x → Held k (get_cached_client w k x)
  unfolding get_cached_client
  get_cached_client-Held k x t = by_flag x.is_shutdown
    where
      by_flag :
          (b : Bool)
          → Held k (
              if b
              then (none, some xclient_shutdown, x)
              else check_cached w (lookup k x.cached_client) k x)
      by_flag true = t
      by_flag false = check_cached-Held (lookup k x.cached_client) k x refl t

  -- A name with what goes with it.
  abbrev HeldAt : Text × Got → Type 0
  HeldAt (k, g) = Held k g

  select_client-Held : (x : XClient) → IsTidy x → HeldAt (select_client w x)
  unfolding select_client
  select_client-Held x t =
      let k = select (w.draw x.clock) x.selector in
      let t' : IsTidy (record x { clock = x.clock + 1 }) = same-IsTidy x _ refl refl refl t in
      elim (Bool-cases (bytes_eq k [])) [
        | inl none_ ↦ rw none_ t'
        | inr one ↦ rw one (get_cached_client-Held k (record x { clock = x.clock + 1 }) t')
      ]

  again-Held : (mode : FailMode) (k : Text) (x : XClient) → IsTidy x → HeldAt (again w mode k x)
  unfolding again
  again-Held fail_try k x t = get_cached_client-Held k x t
  again-Held fail_over k x t = select_client-Held x t
  again-Held fail_fast k x t = select_client-Held x t
  again-Held fail_backup k x t = select_client-Held x t

  called-IsTidy :
      (x : XClient) → IsTidy x → IsTidy (record x { clock = x.clock + 1; calls = x.calls + 1 })
  called-IsTidy x t = same-IsTidy x _ refl refl refl t

  remove_none-IsTidy : (k : Text) (x : XClient) → IsTidy x → IsTidy (remove_client k none x)
  unfolding remove_client
  remove_none-IsTidy k x t = by_cached (same_client none (lookup k x.cached_client))
    where
      by_cached :
          (b : Bool)
          → IsTidy
              (record x { cached_client = if b then delete k x.cached_client else x.cached_client })
      by_cached true = deleted-IsTidy k x t
      by_cached false = t

  dropped-IsTidy :
      (err : Option Err) (k : Text) (client : Option ℕ) (x : XClient)
      → Held k (client, err, x)
      → IsTidy (drop_failed err k client x)
  dropped-IsTidy err k none x t = elim (Bool-cases (uncover_error err)) [
    | inl drops ↦ rw drops (remove_none-IsTidy k x t)
    | inr kept ↦ rw kept t
  ]
  dropped-IsTidy err k (some c) x (t, cached) = elim (Bool-cases (uncover_error err)) [
    | inl drops ↦ rw drops (remove_client-IsTidy k c x cached t)
    | inr kept ↦ rw kept t
  ]

  -- Behind an attempt: its state, or that of the rounds that follow.
  abbrev attempt : Option Err → XClient → Option Err × XClient → Option Err × XClient
  attempt e x after = elim e [
    | none ↦ (none, x)
    | some e' ↦ if uncover_error (some e') then after else (some e', x)
  ]

  attempt-IsTidy :
      (x : XClient) (after : Option Err × XClient)
      → IsTidy x
      → IsTidy after.1
      → (e : Option Err) → IsTidy (attempt e x after).1
  attempt-IsTidy x after t t' none = t
  attempt-IsTidy x after t t' (some e') = elim (Bool-cases (uncover_error (some e'))) [
    | inl again_ ↦ rw again_ t'
    | inr last ↦ rw last t
  ]

  retry_loop-IsTidy :
      (mode : FailMode) (n : ℕ) (g : Text × Got) → HeldAt g → IsTidy (retry_loop w mode n g).1
  unfolding retry_loop wrap_call
  retry_loop-IsTidy mode zero (k, (client, err, x)) h = Held-IsTidy k (client, err, x) h
  retry_loop-IsTidy mode (suc n) (k, (none, err, x)) t =
      retry_loop-IsTidy mode n _ (again-Held mode k _ (dropped-IsTidy err k none x t))
  retry_loop-IsTidy mode (suc n) (k, (some c, err, x)) (t, cached) =
      let called : XClient = record x { clock = x.clock + 1; calls = x.calls + 1 } in
      attempt-IsTidy called _ (called-IsTidy x t)
        (retry_loop-IsTidy mode n _
          (again-Held mode k _ (remove_client-IsTidy k c called cached (called-IsTidy x t))))
        (w.reply x.clock c)

  fast_call-IsTidy : (g : Text × Got) → HeldAt g → IsTidy (fast_call w g).1
  unfolding fast_call wrap_call
  fast_call-IsTidy (k, (client, some err, x)) h = Held-IsTidy k (client, some err, x) h
  fast_call-IsTidy (k, (none, none, x)) t = dropped-IsTidy (some server_unavailable) k none x t
  fast_call-IsTidy (k, (some c, none, x)) (t, cached) =
      let called : XClient = record x { clock = x.clock + 1; calls = x.calls + 1 } in
      ended called (called-IsTidy x t) cached (w.reply x.clock c)
    where
      tried : XClient → Option Err → Option Err × XClient
      tried y e = elim e [
        | none ↦ (none, y)
        | some e' ↦ (some e', drop_failed (some e') k (some c) y)
      ]

      ended :
          (y : XClient)
          → IsTidy y
          → lookup k y.cached_client ≡ some c
          → (e : Option Err) → IsTidy (tried y e).1
      ended y t cached none = t
      ended y t cached (some e') = dropped-IsTidy (some e') k (some c) y (t, cached)

  by_mode-IsTidy :
      (mode : FailMode) (g : Text × Got) (x : XClient) → HeldAt g → IsTidy (by_mode w mode g x).1
  unfolding by_mode
  by_mode-IsTidy fail_try g x h = retry_loop-IsTidy fail_try (rounds x.retries) g h
  by_mode-IsTidy fail_over g x h = retry_loop-IsTidy fail_over (rounds x.retries) g h
  by_mode-IsTidy fail_fast g x h = fast_call-IsTidy g h
  by_mode-IsTidy fail_backup (k, g) x h = Held-IsTidy k g h

  pub call-IsTidy : (x : XClient) → IsTidy x → IsTidy (call w x).1
  unfolding call
  call-IsTidy x t = by_flag x.is_shutdown
    where
      by_flag :
          (b : Bool)
          → IsTidy
              (if b
                then (some xclient_shutdown, x)
                else by_mode w x.fail_mode (select_client w x) x).1
      by_flag true = t
      by_flag false = by_mode-IsTidy x.fail_mode _ x (select_client-Held x t)

  pub go-IsTidy : (x : XClient) → IsTidy x → IsTidy (go w x).2
  unfolding go
  go-IsTidy x t = by_flag x.is_shutdown
    where
      by_flag :
          (b : Bool)
          → IsTidy (if b then (none, some xclient_shutdown, x) else (select_client w x).1).2
      by_flag true = t
      by_flag false =
          Held-IsTidy (select_client w x).0 (select_client w x).1 (select_client-Held x t)
