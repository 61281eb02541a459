-- ===== src/Client/XClient.antt =====
-- client/xclient.go: the client that chooses a server and a connection for each call.
-- What lies outside is a `World` that answers questions: what `rand.Int31n` draws, how `Connect` ends,
-- how a call on a connection ends, which connections have gone down, and what `singleflight` hands over
-- from another goroutine that is dialing the same server. Each answer may depend on the number of
-- questions asked before, so a `World` stands for any behaviour of the network over time.
pub mod Cache
pub mod Retries
pub mod Masking
pub mod Tidy
pub mod Broadcast
use a_simple_rpc.Prelude.{
  ℕ, zero, suc, ◌+◌, Bool, true, false, not, ◌&&◌, ◌||◌, List, [], ◌∷◌, ◌++◌, Option, none, some,
  ◌==◌, if◌then◌else◌, bytes_eq, text_eq, nat_eq,
}
use a_simple_rpc.Prelude.Int.{ℤ, pos, negsuc}
use a_simple_rpc.Prelude.Bytes.{Text}
use a_simple_rpc.Prelude.Maps.{Map, lookup, insert, delete}
use a_simple_rpc.Outcome.{
  Err, xclient_shutdown, no_server, server_unavailable, fail_mode_not_supported, service_error,
  deadline_exceeded, canceled,
}
use a_simple_rpc.Client.Selector.{
  KvPair, SelectMode, Selector, new_selector, update_server, select, servers_of,
  split_network_and_address,
}

-- client/mode.go
pub data FailMode : Type 0 where
  fail_over fail_fast fail_try fail_backup : FailMode

-- `uncoverError`: whether another attempt may help. `errors.As` and `errors.Is` find nothing in a nil
-- error, and no error of the program wraps another.
unfoldable pub uncover_error : Option Err → Bool
uncover_error none = true
uncover_error (some (service_error msg)) = false
uncover_error (some deadline_exceeded) = false
uncover_error (some canceled) = false
uncover_error (some _) = true

-- Connections are numbered in the order in which they are made.
pub data Flight : Type 0 where
  -- Nobody else is dialing this server.
  alone : Flight
  -- Another goroutine's dial is shared, with its connection or its error.
  joined : ℕ → Flight
  joined_error : Err → Flight

pub record World : Type 0 where
  pub draw : ℕ → ℕ → ℕ
  pub dial : ℕ → Text → Text → Option Err
  pub reply : ℕ → ℕ → Option Err
  pub down : ℕ → ℕ → Bool
  pub flight : ℕ → Text → Flight

-- `xClient`. `clock` counts the questions to the world, `calls` those calls made on connections;
-- `closed` are the connections that this client has closed.
pub record XClient : Type 0 where
  pub fail_mode : FailMode
  pub retries : ℤ
  pub servers : Map Text Text
  pub selector : Selector
  pub cached_client : Map Text ℕ
  pub is_shutdown : Bool
  pub next_id : ℕ
  pub closed : List ℕ
  pub clock : ℕ
  pub calls : ℕ

unfoldable pub new_xclient : FailMode → SelectMode → ℤ → List KvPair → XClient
new_xclient fail_mode select_mode retries pairs =
    let servers = servers_of pairs [] in
    record {
      fail_mode = fail_mode;
      retries = retries;
      servers = servers;
      selector = new_selector select_mode servers;
      cached_client = [];
      is_shutdown = false;
      next_id = 0;
      closed = [];
      clock = 0;
      calls = 0;
    }

-- One round of `watch`.
unfoldable pub on_change : List KvPair → XClient → XClient
on_change pairs x =
    let servers = servers_of pairs [] in
    record x { servers = servers; selector = update_server servers x.selector }

abbrev pub contains : ℕ → List ℕ → Bool
contains c [] = false
contains c (d ∷ ds) = d == c || contains c ds

-- A client or nil, an error or nil, and the state afterwards.
abbrev pub Got : Type 0
Got = Option ℕ × Option Err × XClient

abbrev tick : XClient → XClient
tick x = record x { clock = x.clock + 1 }

-- `RPCClient.Close`
unfoldable pub close_client : ℕ → XClient → XClient
close_client c x = record x { closed = c ∷ x.closed }

unfoldable pub close_all : Map Text ℕ → XClient → XClient
close_all [] x = x
close_all ((k, c) ∷ m) x = close_all m (close_client c x)

-- `Close`
unfoldable pub close : XClient → XClient
close x = record (close_all x.cached_client x) { is_shutdown = true; cached_client = [] }

abbrev pub same_client : Option ℕ → Option ℕ → Bool
same_client none none = true
same_client none (some d) = false
same_client (some c) none = false
same_client (some c) (some d) = c == d

abbrev close_some : Option ℕ → XClient → XClient
close_some none x = x
close_some (some c) x = close_client c x

-- `removeClient`
unfoldable pub remove_client : Text → Option ℕ → XClient → XClient
remove_client k client x =
    let cached =
      if same_client client (lookup k x.cached_client)
      then delete k x.cached_client
      else x.cached_client in
    close_some client (record x { cached_client = cached })

-- The cache takes the new client.
unfoldable pub store_client : Text → Got → Got
store_client k (client, some e, x) = (none, some e, x)
store_client k (none, none, x) = (none, none, x)
store_client k (some c, none, x) =
    (some c, none, record x { cached_client = insert k c x.cached_client })

abbrev pub drop_failed : Option Err → Text → Option ℕ → XClient → XClient
drop_failed err k client x = if uncover_error err then remove_client k client x else x

-- The number of rounds of a loop that starts with `retries` and runs while it is at least 0.
abbrev pub rounds : ℤ → ℕ
rounds (pos n) = suc n
rounds (negsuc n) = zero

module _ (w : World) where
  -- `client.IsClosing() || client.IsShutdown()`
  unfoldable pub is_dead : XClient → ℕ → Bool
  is_dead x c = contains c x.closed || w.down x.clock c

  -- `generateClient`: a new connection, which a failed `Connect` leaves unused.
  unfoldable pub generate_client : Text → XClient → Got
  generate_client k x =
      let (network, addr) = split_network_and_address k in
      (some x.next_id, w.dial x.clock network addr, record (tick x) { next_id = x.next_id + 1 })

  -- `slGroup.Do(k, …)`
  unfoldable pub single_flight : Flight → Text → XClient → Got
  single_flight alone k x = generate_client k x
  single_flight (joined c) k x = (some c, none, tick x)
  single_flight (joined_error e) k x = (none, some e, tick x)

  unfoldable pub dial_client : Text → XClient → Got
  unfolding store_client
  dial_client k x = store_client k (single_flight (w.flight x.clock k) k x)

  unfoldable pub check_cached : Option ℕ → Text → XClient → Got
  check_cached none k x = dial_client k x
  check_cached (some c) k x =
      if is_dead x c
      then dial_client k (record (tick x) { cached_client = delete k x.cached_client })
      else (some c, none, tick x)

  -- `getCachedClient`
  unfoldable pub get_cached_client : Text → XClient → Got
  get_cached_client k x =
      if x.is_shutdown
      then (none, some xclient_shutdown, x)
      else check_cached (lookup k x.cached_client) k x

  -- `selectClient`
  unfoldable pub select_client : XClient → Text × Got
  select_client x =
      let k = select (w.draw x.clock) x.selector in
      if bytes_eq k []
      then ([], (none, some no_server, tick x))
      else (k, get_cached_client k (tick x))

  -- `wrapCall`
  unfoldable pub wrap_call : Option ℕ → XClient → Option Err × XClient
  wrap_call none x = (some server_unavailable, x)
  wrap_call (some c) x = (w.reply x.clock c, record (tick x) { calls = x.calls + 1 })

  -- The loops of `FailTry` and `FailOver` differ in how they go on from a failed attempt.
  unfoldable pub again : FailMode → Text → XClient → Text × Got
  again fail_try k x = (k, get_cached_client k x)
  again _ k x = select_client x

  -- `for retries >= 0`, with the number of rounds left; the second function is what stands behind a
  -- failed attempt, or no attempt, in one round.
  unfoldable pub retry_loop : FailMode → ℕ → Text × Got → Option Err × XClient
  retry_loop mode zero (k, (client, err, x)) = (err, x)
  retry_loop mode (suc n) (k, (none, err, x)) =
      retry_loop mode n (again mode k (drop_failed err k none x))
  retry_loop mode (suc n) (k, (some c, err, x)) =
      let (e, x') = wrap_call (some c) x in
      elim e [
        | none ↦ (none, x')
        | some e' ↦
            let next = retry_loop mode n (again mode k (remove_client k (some c) x')) in
            if uncover_error (some e') then next else (some e', x')
      ]

  -- `case FailFast`
  unfoldable pub fast_call : Text × Got → Option Err × XClient
  fast_call (k, (client, some err, x)) = (some err, x)
  fast_call (k, (client, none, x)) =
      let (e, x') = wrap_call client x in
      elim e [ none ↦ (none, x') | some e' ↦ (some e', drop_failed (some e') k client x') ]

  unfoldable pub by_mode : FailMode → Text × Got → XClient → Option Err × XClient
  by_mode fail_try g x = retry_loop fail_try (rounds x.retries) g
  by_mode fail_over g x = retry_loop fail_over (rounds x.retries) g
  by_mode fail_fast g x = fast_call g
  by_mode fail_backup (k, (client, err, x')) x = (some fail_mode_not_supported, x')

  -- `Call`
  unfoldable pub call : XClient → Option Err × XClient
  call x =
      if x.is_shutdown then (some xclient_shutdown, x) else by_mode x.fail_mode (select_client x) x

  -- `Go`, up to the `Go` of the connection that it answers with.
  unfoldable pub go : XClient → Got
  go x = if x.is_shutdown then (none, some xclient_shutdown, x) else (select_client x).1
