-- ===== src/Tests/Discoveries.antt =====
-- client/consul_discovery.go: updates on their way to a client.
use a_simple_rpc.Prelude.{ℕ, ◌≡◌, refl, [], ◌∷◌, arith}
use a_simple_rpc.Prelude.Bytes.{Text, codes}
use a_simple_rpc.Prelude.Int.{pos}
use a_simple_rpc.Client.Selector.{servers_of, random_select}
use a_simple_rpc.Client.XClient.{XClient, fail_over, new_xclient}
use a_simple_rpc.Client.Discovery.Interface.{start_client}
use a_simple_rpc.Client.Discovery.Interface.Implementations.{consul}
use a_simple_rpc.Client.Discovery.Interface.Lost.{Loses, start_client-Loses}
use a_simple_rpc.Client.Discovery.{
  Discovery, Entry, get_service, pairs_of, watch_service, new_discovery, handler, send_on,
}
use a_simple_rpc.Client.Discovery.Delivery.{
  Net, begin, refill, updates, watches, loads, sends, Reach, here, next, IsFaithful,
  Reach-IsFaithful,
}
use a_simple_rpc.Client.Discovery.Stale.{follow, follow-Reach}

abbrev itoa : ℕ → Text
itoa n = n ∷ []

abbrev entry : Entry
entry = record { address = codes "a"; port = 80 }

abbrev notified : Net
notified = record {
  discovery = record { pairs = pairs_of itoa (entry ∷ []); chans = 0 ∷ []; next_chan = 1 };
  queues = refill 0 (pairs_of itoa (entry ∷ []) ∷ []) (λ ch. []);
  running = [];
  history = pairs_of itoa (entry ∷ []) ∷ [] ∷ [];
  delivered = [];
}

notified-Reach : Reach itoa (begin []) notified
unfolding handler watch_service new_discovery send_on
notified-Reach =
    next (next (next (next here watches) (updates (entry ∷ []))) (loads [] [] 0 refl))
      (sends [] [] 0 (pairs_of itoa (entry ∷ [])) (pairs_of itoa (entry ∷ []) ∷ []) refl refl)

Reach-IsFaithful_example : IsFaithful notified
Reach-IsFaithful_example = Reach-IsFaithful itoa [] notified-Reach

abbrev client : XClient
client = new_xclient fail_over random_select (pos 3) []

follow-Reach_example :
    (m : Net) × Reach itoa (begin []) m
    × (m.running ≡ [])
    × (get_service m.discovery ≡ pairs_of itoa [])
    × ((follow (m.queues 0) client).servers ≡ servers_of (pairs_of itoa (entry ∷ [])) [])
follow-Reach_example = follow-Reach itoa [] (entry ∷ []) [] client

-- A discovery with two watchers, and an update while a third client is made.
abbrev watched_twice : Discovery
watched_twice = record { pairs = pairs_of itoa (entry ∷ []); chans = 0 ∷ 1 ∷ []; next_chan = 2 }

start_client-Loses_example :
    let (updated, ss) = handler itoa [] watched_twice in
    Loses watched_twice
      (pairs_of itoa [])
      ss
      (start_client consul fail_over random_select (pos 3) watched_twice updated)
start_client-Loses_example =
    start_client-Loses itoa [] watched_twice fail_over random_select (pos 3)
      (omega arith, (omega arith, tt))
