-- ===== src/Client/Discovery/Stale.antt =====
-- Two updates of a discovery in quick succession, and `watch` of client/xclient.go at the other end of
-- the channel.
use a_simple_rpc.Prelude.{ℕ, ◌≡◌, refl, List, [], ◌∷◌}
use a_simple_rpc.Prelude.Bytes.{Text}
use a_simple_rpc.Client.Selector.{KvPair, servers_of}
use a_simple_rpc.Client.XClient.{XClient, on_change}
use a_simple_rpc.Client.Discovery.{
  Entry, Discovery, get_service, pairs_of, loaded, handler, send_on, watch_service, new_discovery,
}
use a_simple_rpc.Client.Discovery.Delivery.{
  Net, updates, loads, sends, watches, begin, Reach, here, next, refill,
}

-- `watch`, over the lists that its channel delivers.
unfoldable pub follow : List (List KvPair) → XClient → XClient
follow [] x = x
follow (pairs ∷ queue) x = follow queue (on_change pairs x)

module _ (itoa : ℕ → Text) (pairs : List KvPair) (old new : List Entry) where
  abbrev p_old : List KvPair
  p_old = pairs_of itoa old

  abbrev p_new : List KvPair
  p_new = pairs_of itoa new

  abbrev discovers : List KvPair → Discovery
  discovers ps = record { pairs = ps; chans = 0 ∷ []; next_chan = 1 }

  -- One watcher; both updates are in, and the two senders have looked at the pairs they send.
  abbrev both_loaded : Net
  both_loaded = record {
    discovery = discovers p_new;
    queues = λ ch. [];
    running = loaded 0 p_old ∷ loaded 0 p_new ∷ [];
    history = p_new ∷ p_old ∷ pairs ∷ [];
    delivered = [];
  }

  abbrev overtaken : Net
  overtaken = record both_loaded {
    queues = refill 0 (p_new ∷ p_old ∷ []) (refill 0 (p_new ∷ []) (λ ch. []));
    running = [];
  }

  both_loaded-Reach : Reach itoa (begin pairs) both_loaded
  unfolding handler watch_service new_discovery
  both_loaded-Reach =
      next (next (next (next (next here watches) (updates old)) (loads [] [] 0 refl)) (updates new))
        (loads (loaded 0 p_old ∷ []) [] 0 refl)

  -- The second sender is faster than the first.
  overtaken-Reach : Reach itoa (begin pairs) overtaken
  unfolding send_on
  overtaken-Reach =
      next (next both_loaded-Reach (sends (loaded 0 p_old ∷ []) [] 0 p_new (p_new ∷ []) refl refl))
        (sends [] [] 0 p_old (p_new ∷ p_old ∷ []) refl refl)

  -- Whatever two updates a discovery with one watcher gets: there is an order of its goroutines in which
  -- both reach the watcher, no sender is left and the discovery has the newer list, while the client
  -- that follows the channel ends with the older one.
  pub follow-Reach :
      (x : XClient)
      → (m : Net) × Reach itoa (begin pairs) m
        × (m.running ≡ [])
        × (get_service m.discovery ≡ pairs_of itoa new)
        × ((follow (m.queues 0) x).servers ≡ servers_of (pairs_of itoa old) [])
  unfolding follow on_change get_service
  follow-Reach x = (overtaken, overtaken-Reach, refl, refl, refl)
