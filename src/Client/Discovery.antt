-- ===== src/Client/Discovery.antt =====
-- client/consul_discovery.go, and what client/peer2peer_discovery.go gives. A channel is a number. The
-- consul library is an argument: what `ServicesWithFilter` and the watch plan report.
pub mod Delivery
pub mod Stale
pub mod Interface
use a_simple_rpc.Prelude.{
  ℕ, suc, Bool, List, [], ◌∷◌, ◌++◌, Option, none, some, ◌==◌, if◌then◌else◌, length, ltb,
  remove_all,
}
use a_simple_rpc.Prelude.Bytes.{Text, codes}
use a_simple_rpc.Outcome.{Err, service_not_found, Outcome, ok, fail, panic, stuck}
use a_simple_rpc.Client.Selector.{KvPair}

-- The address of a service that consul reports.
pub record Entry : Type 0 where
  pub address : Text
  pub port : ℕ

-- `fmt.Sprintf("%s:%d", …)`, and a `KVPair` for it; `itoa` prints the port.
unfoldable pub pair_of : (ℕ → Text) → Entry → KvPair
pair_of itoa e = (e.address ++ (codes ":" ++ itoa e.port), [])

-- The loops that collect the pairs.
unfoldable pub pairs_of : (ℕ → Text) → List Entry → List KvPair
pairs_of itoa [] = []
pairs_of itoa (e ∷ es) = pair_of itoa e ∷ pairs_of itoa es

-- The fields `pairs` and `chans` of `ConsulDiscovery`, with the number of the next channel that `make`
-- gives.
pub record Discovery : Type 0 where
  pub pairs : List KvPair
  pub chans : List ℕ
  pub next_chan : ℕ

unfoldable pub new_discovery : List KvPair → Discovery
new_discovery pairs = record { pairs = pairs; chans = []; next_chan = 0 }

-- `findServiceAddress`: the error of `api.NewClient`, and what `ServicesWithFilter` gives.
unfoldable pub find_service_address :
    (ℕ → Text) → Option Err → Outcome (List Entry) → Outcome (List KvPair)
find_service_address itoa (some e) services = fail e
find_service_address itoa none (ok entries) = ok (pairs_of itoa entries)
find_service_address itoa none (fail e) = fail e
find_service_address itoa none panic = panic
find_service_address itoa none stuck = stuck

-- `NewConsulDiscovery`, behind `findServiceAddress`.
unfoldable pub new_consul_discovery : Outcome (List KvPair) → Outcome Discovery
new_consul_discovery (ok pairs) = ok (new_discovery pairs)
new_consul_discovery (fail e) = fail service_not_found
new_consul_discovery panic = panic
new_consul_discovery stuck = stuck

unfoldable pub get_service : Discovery → List KvPair
get_service d = d.pairs

unfoldable pub watch_service : Discovery → Discovery × ℕ
watch_service d =
    (record d { chans = d.chans ++ (d.next_chan ∷ []); next_chan = suc d.next_chan }, d.next_chan)

unfoldable pub remove_watcher : ℕ → Discovery → Discovery
remove_watcher ch d = record d { chans = remove_all ch d.chans }

-- `Peer2PeerDiscovery`: the pair of the fields; it gives no channel.
unfoldable pub peer2peer_service : Text → Text → List KvPair
peer2peer_service server metadata = (server, metadata) ∷ []

unfoldable pub peer2peer_watch : Option ℕ
peer2peer_watch = none

-- A goroutine that `plan.Handler` starts for a channel: before it has looked at `c.pairs` for the send,
-- and behind that.
pub data Sender : Type 0 where
  started : ℕ → Sender
  loaded : ℕ → List KvPair → Sender

abbrev pub senders : List ℕ → List Sender
senders [] = []
senders (c ∷ cs) = started c ∷ senders cs

-- `plan.Handler`: the pairs are replaced, and a goroutine starts for each channel.
unfoldable pub handler : (ℕ → Text) → List Entry → Discovery → Discovery × List Sender
handler itoa entries d = (record d { pairs = pairs_of itoa entries }, senders d.chans)

-- A channel of capacity 10: what a send does that does not wait.
unfoldable pub send_on : List KvPair → List (List KvPair) → Option (List (List KvPair))
send_on v queue = if ltb (length queue) 10 then some (queue ++ (v ∷ [])) else none
