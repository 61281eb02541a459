-- ===== src/Client/Discovery/Interface/Implementations.antt =====
-- The implementations of `ServiceDiscovery`: client/peer2peer_discovery.go,
-- client/multi_server_discovery.go and client/consul_discovery.go.
use a_simple_rpc.Prelude.{
  ℕ, suc, ◌<◌, ◌≡◌, refl, false, List, [], ◌∷◌, ◌++◌, Option, none, some, ◌==◌, ==_iff, arith,
  count, remove_all, Bool-cases, inl, inr, All,
}
use a_simple_rpc.Prelude.Bytes.{Text}
use a_simple_rpc.Outcome.{Err}
use a_simple_rpc.Client.Selector.{KvPair}
use a_simple_rpc.Client.Discovery.{
  Discovery, get_service, watch_service, remove_watcher, peer2peer_service, peer2peer_watch,
}
use a_simple_rpc.Client.Discovery.Interface.{ServiceDiscovery, IsDiscovery}

-- `Peer2PeerDiscovery`
pub record Peer2PeerDiscovery : Type 0 where
  pub server : Text
  pub metadata : Text

-- `NewPeer2PeerDiscovery`, whose error is always nil.
unfoldable pub new_peer2peer_discovery : Text → Text → Peer2PeerDiscovery × Option Err
new_peer2peer_discovery server metadata = (record { server = server; metadata = metadata }, none)

unfoldable pub peer2peer : ServiceDiscovery Peer2PeerDiscovery
peer2peer = record {
  pairs = λ d. peer2peer_service d.server d.metadata;
  watch = λ d. (d, peer2peer_watch);
  unwatch = λ ch d. d;
}

pub peer2peer-IsDiscovery : IsDiscovery peer2peer (λ d. []) (λ d. Unit {0})
unfolding peer2peer peer2peer_watch
peer2peer-IsDiscovery = record {
  watched = λ d. refl;
  fresh = λ d ch sound e. refl;
  unwatched = λ d ch. refl;
  watch_pairs = λ d. refl;
  unwatch_pairs = λ d ch. refl;
  watch_sound = λ d sound. sound;
  unwatch_sound = λ d ch sound. sound;
}

-- `MultiServersDiscovery`, with the number of the next channel that `make` gives.
pub record MultiServersDiscovery : Type 0 where
  pub pairs : List KvPair
  pub chans : List ℕ
  pub next_chan : ℕ

unfoldable pub new_multi_servers_discovery : List KvPair → MultiServersDiscovery
new_multi_servers_discovery pairs = record { pairs = pairs; chans = []; next_chan = 0 }

unfoldable pub multi_watch_service : MultiServersDiscovery → MultiServersDiscovery × Option ℕ
multi_watch_service d = (
  record d { chans = d.chans ++ (d.next_chan ∷ []); next_chan = suc d.next_chan },
  some d.next_chan,
)

unfoldable pub multi_remove_watcher : ℕ → MultiServersDiscovery → MultiServersDiscovery
multi_remove_watcher ch d = record d { chans = remove_all ch d.chans }

unfoldable pub multi_get_service : MultiServersDiscovery → List KvPair
multi_get_service d = d.pairs

unfoldable pub multi_servers : ServiceDiscovery MultiServersDiscovery
multi_servers = record {
  pairs = multi_get_service;
  watch = multi_watch_service;
  unwatch = multi_remove_watcher;
}

-- Every channel was made before.
abbrev pub AllMade : List ℕ → ℕ → Type 0
AllMade chans n = All (λ c. c < n) chans

AllMade-count : (chans : List ℕ) (n : ℕ) → AllMade chans n → count n chans ≡ 0
AllMade-count [] n h = refl
AllMade-count (c ∷ chans) n (p, h) =
    let rest = AllMade-count chans n h in
    let apart : (c == n) ≡ false = ground (arith, p, ==_iff c n) in rw apart (omega (arith, rest))

AllMade-watch : (chans : List ℕ) (n : ℕ) → AllMade chans n → AllMade (chans ++ (n ∷ [])) (suc n)
AllMade-watch [] n h = (omega arith, tt)
AllMade-watch (c ∷ chans) n (p, h) = (omega (arith, p), AllMade-watch chans n h)

AllMade-remove :
    (ch : ℕ) (chans : List ℕ) (n : ℕ) → AllMade chans n → AllMade (remove_all ch chans) n
AllMade-remove ch [] n h = tt
AllMade-remove ch (c ∷ chans) n (p, h) = elim (Bool-cases (c == ch)) [
  | inl same ↦ rw same (AllMade-remove ch chans n h)
  | inr other ↦ rw other (p, AllMade-remove ch chans n h)
]

pub multi_servers-IsDiscovery :
    IsDiscovery multi_servers (λ d. d.chans) (λ d. AllMade d.chans d.next_chan)
unfolding multi_servers multi_watch_service multi_remove_watcher multi_get_service
multi_servers-IsDiscovery = record {
  watched = λ d. refl;
  fresh = λ d ch sound e.
      let same : d.next_chan ≡ ch = cc e in rw⁻¹ same (AllMade-count d.chans d.next_chan sound);
  unwatched = λ d ch. refl;
  watch_pairs = λ d. refl;
  unwatch_pairs = λ d ch. refl;
  watch_sound = λ d sound. AllMade-watch d.chans d.next_chan sound;
  unwatch_sound = λ d ch sound. AllMade-remove ch d.chans d.next_chan sound;
}

-- `ConsulDiscovery`
unfoldable pub consul : ServiceDiscovery Discovery
consul = record {
  pairs = get_service;
  watch = λ d. ((watch_service d).0, some (watch_service d).1);
  unwatch = remove_watcher;
}

pub consul-IsDiscovery : IsDiscovery consul (λ d. d.chans) (λ d. AllMade d.chans d.next_chan)
unfolding consul watch_service remove_watcher get_service
consul-IsDiscovery = record {
  watched = λ d. refl;
  fresh = λ d ch sound e.
      let same : d.next_chan ≡ ch = cc e in rw⁻¹ same (AllMade-count d.chans d.next_chan sound);
  unwatched = λ d ch. refl;
  watch_pairs = λ d. refl;
  unwatch_pairs = λ d ch. refl;
  watch_sound = λ d sound. AllMade-watch d.chans d.next_chan sound;
  unwatch_sound = λ d ch sound. AllMade-remove ch d.chans d.next_chan sound;
}
