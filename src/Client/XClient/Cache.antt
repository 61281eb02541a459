-- ===== src/Client/XClient/Cache.antt =====
-- `getCachedClient`, `removeClient` and `Close` of client/xclient.go.
use a_simple_rpc.Prelude.{
  ℕ, ◌+◌, ◌≡◌, ◌≢◌, ◌⊎◌, inl, inr, refl, true, false, Bool-cases, [], ◌∷◌, Option, none, some,
  arith, text_eq, bytes_eq_refl, All,
}
use a_simple_rpc.Prelude.Bytes.{Text}
use a_simple_rpc.Prelude.Maps.{Map, lookup, delete, lookup-insert, lookup-delete}
use a_simple_rpc.Outcome.{Err, xclient_shutdown}
use a_simple_rpc.Client.Selector.{select}
use a_simple_rpc.Client.XClient.{
  World, Flight, alone, joined, joined_error, XClient, Got, contains, close_client, close_all,
  close, remove_client, is_dead, generate_client, single_flight, store_client, dial_client,
  check_cached, get_cached_client, select_client, call,
}

-- What no step of `Call` changes: configuration, servers, selector, the shutdown flag, and how many
-- calls have been made.
pub record Same (x y : XClient) : Type 0 where
  pub mode : y.fail_mode ≡ x.fail_mode
  pub retries : y.retries ≡ x.retries
  pub selector : y.selector ≡ x.selector
  pub open_ : y.is_shutdown ≡ x.is_shutdown
  pub calls : y.calls ≡ x.calls

pub remove_client-Same : (k : Text) (c : Option ℕ) (x : XClient) → Same x (remove_client k c x)
unfolding remove_client close_client
remove_client-Same k none x = record {
  mode = refl;
  retries = refl;
  selector = refl;
  open_ = refl;
  calls = refl;
}
remove_client-Same k (some c) x = record {
  mode = refl;
  retries = refl;
  selector = refl;
  open_ = refl;
  calls = refl;
}

module _ (w : World) where
  store_client-Same : (k : Text) (x : XClient) (g : Got) → Same x g.2 → Same x (store_client k g).2
  unfolding store_client
  store_client-Same k x (c, some e, y) s = s
  store_client-Same k x (none, none, y) s = s
  store_client-Same k x (some c, none, y) s = record {
    mode = s.mode;
    retries = s.retries;
    selector = s.selector;
    open_ = s.open_;
    calls = s.calls;
  }

  single_flight-Same : (f : Flight) (k : Text) (x : XClient) → Same x (single_flight w f k x).2
  unfolding single_flight generate_client
  single_flight-Same alone k x = record {
    mode = refl;
    retries = refl;
    selector = refl;
    open_ = refl;
    calls = refl;
  }
  single_flight-Same (joined c) k x = record {
    mode = refl;
    retries = refl;
    selector = refl;
    open_ = refl;
    calls = refl;
  }
  single_flight-Same (joined_error e) k x = record {
    mode = refl;
    retries = refl;
    selector = refl;
    open_ = refl;
    calls = refl;
  }

  dial_client-Same : (k : Text) (x : XClient) → Same x (dial_client w k x).2
  unfolding dial_client
  dial_client-Same k x = store_client-Same k x _ (single_flight-Same (w.flight x.clock k) k x)

  check_cached-Same : (c : Option ℕ) (k : Text) (x : XClient) → Same x (check_cached w c k x).2
  unfolding check_cached
  check_cached-Same none k x = dial_client-Same k x
  check_cached-Same (some c) k x = ground (
    arith,
    dial_client-Same k (record x { cached_client = delete k x.cached_client; clock = x.clock + 1 }),
  )

  pub get_cached_client-Same : (k : Text) (x : XClient) → Same x (get_cached_client w k x).2
  unfolding get_cached_client
  get_cached_client-Same k x = ground (arith, check_cached-Same (lookup k x.cached_client) k x)

  pub select_client-Same : (x : XClient) → Same x (select_client w x).1.2
  unfolding select_client
  select_client-Same x = ground (
    arith,
    get_cached_client-Same (select (w.draw x.clock) x.selector) (record x { clock = x.clock + 1 }),
  )

-- Closing the connections of a cache keeps those closed that were, and closes all of them.
contains-close_all :
    (c : ℕ) (m : Map Text ℕ) (x : XClient)
    → contains c x.closed ≡ true
    → contains c (close_all m x).closed ≡ true
unfolding close_all close_client
contains-close_all c [] x h = h
contains-close_all c ((k, d) ∷ m) x h = contains-close_all c m (close_client d x) (ground arith)

close_all-closes :
    (m : Map Text ℕ) (x : XClient) → All (λ e. contains (e.1) (close_all m x).closed ≡ true) m
unfolding close_all close_client
close_all-closes [] x = tt
close_all-closes ((k, c) ∷ m) x = (
  contains-close_all c m (close_client c x) (ground arith),
  close_all-closes m (close_client c x),
)

-- `Close` closes every connection of the cache and empties the cache, and each later `Call` returns
-- `ErrXClientShutdown` and changes nothing.
close_lem :
    (w : World) (x : XClient)
    → All (λ e. contains (e.1) (close x).closed ≡ true) x.cached_client
      × ((close x).cached_client ≡ [])
      × (call w (close x) ≡ (some xclient_shutdown, close x))
unfolding close call
close_lem w x = (close_all-closes x.cached_client x, refl, refl)

-- What `getCachedClient` may answer: the connection that the cache then holds for the server, which
-- was found alive or was made or shared just now; or an error, and no entry for that server.
pub data Answer (w : World) (k : Text) (x : XClient) : Got → Type 0 where
  reused :
      {g : Got} (c : ℕ)
      → lookup k x.cached_client ≡ some c
      → is_dead w x c ≡ false
      → g.0 ≡ some c
      → g.1 ≡ none
      → g.2.cached_client ≡ x.cached_client
      → Answer w k x g
  dialed :
      {g : Got} (c : ℕ)
      → g.0 ≡ some c
      → g.1 ≡ none
      → lookup k g.2.cached_client ≡ some c
      → Answer w k x g
  refused :
      {g : Got} (e : Err)
      → g.0 ≡ none
      → g.1 ≡ some e
      → lookup k g.2.cached_client ≡ none
      → Answer w k x g

module _ (w : World) (k : Text) where
  store_client-Answer :
      (x : XClient) (g : Got)
      → (g.0 ≢ none) ⊎ (g.1 ≢ none)
      → lookup k g.2.cached_client ≡ none
      → Answer w k x (store_client k g)
  unfolding store_client
  store_client-Answer x (c, some e, y) h l = refused e refl refl l
  store_client-Answer x (none, none, y) (inl h) l = absurd (h refl)
  store_client-Answer x (none, none, y) (inr h) l = absurd (h refl)
  store_client-Answer x (some c, none, y) h l =
      dialed c refl refl (rw (lookup-insert k k c y.cached_client, bytes_eq_refl k))

  single_flight-answers :
      (f : Flight) (x : XClient)
      → ((single_flight w f k x).0 ≢ none) ⊎ ((single_flight w f k x).1 ≢ none)
  unfolding single_flight generate_client
  single_flight-answers alone x = inl (λ e. cc)
  single_flight-answers (joined c) x = inl (λ e. cc)
  single_flight-answers (joined_error e) x = inr (λ p. cc)

  single_flight-cache :
      (f : Flight) (x : XClient) → (single_flight w f k x).2.cached_client ≡ x.cached_client
  unfolding single_flight generate_client
  single_flight-cache alone x = refl
  single_flight-cache (joined c) x = refl
  single_flight-cache (joined_error e) x = refl

  dial_client-Answer :
      (x y : XClient) → lookup k y.cached_client ≡ none → Answer w k x (dial_client w k y)
  unfolding dial_client
  dial_client-Answer x y l =
      store_client-Answer x _ (single_flight-answers (w.flight y.clock k) y)
        (rw (single_flight-cache (w.flight y.clock k) y) l)

  check_cached-Answer :
      (c : Option ℕ) (x : XClient)
      → lookup k x.cached_client ≡ c
      → Answer w k x (check_cached w c k x)
  unfolding check_cached
  check_cached-Answer none x l = dial_client-Answer x x l
  check_cached-Answer (some c) x l = elim (Bool-cases (is_dead w x c)) [
    | inl dead ↦
        rw dead (dial_client-Answer x _ (rw (lookup-delete k k x.cached_client, bytes_eq_refl k)))
    | inr live ↦ rw live (reused c l live refl refl refl)
  ]

  -- `getCachedClient` of a client that is not shut down, for a server `k`, answers in one of three ways:
  -- with the connection in the cache, if that is not down, and the cache as it was; with a connection
  -- that the cache then has for `k`; or with an error and no connection, and the cache then has none
  -- for `k`.
  get_cached_client-Answer :
      (x : XClient) → x.is_shutdown ≡ false → Answer w k x (get_cached_client w k x)
  unfolding get_cached_client
  get_cached_client-Answer x open_ =
      simp open_ (check_cached-Answer (lookup k x.cached_client) x refl)
