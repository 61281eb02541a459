-- ===== src/Client/Discovery/Interface/Lost.antt =====
-- `NewXClient` of client/xclient.go on a `ConsulDiscovery` that is updated meanwhile.
use a_simple_rpc.Prelude.{
  ℕ, ◌+◌, ◌≡◌, refl, List, [], ◌∷◌, Option, some, ◌==◌, count, count-snoc, ==_iff, arith, one,
}
use a_simple_rpc.Prelude.Int.{ℤ}
use a_simple_rpc.Prelude.Bytes.{Text}
use a_simple_rpc.Client.Selector.{KvPair, SelectMode, servers_of}
use a_simple_rpc.Client.XClient.{FailMode, XClient, new_xclient}
use a_simple_rpc.Client.Discovery.{
  Entry, Discovery, get_service, watch_service, pairs_of, Sender, started, loaded, senders, handler,
}
use a_simple_rpc.Client.Discovery.Interface.{start_client}
use a_simple_rpc.Client.Discovery.Interface.Implementations.{AllMade, consul, consul-IsDiscovery}

-- How many goroutines send to a channel.
abbrev pub sent_to : ℕ → List Sender → ℕ
sent_to ch [] = 0
sent_to ch (started c ∷ ss) = one (c == ch) + sent_to ch ss
sent_to ch (loaded c v ∷ ss) = one (c == ch) + sent_to ch ss

sent_to-senders : (ch : ℕ) (chs : List ℕ) → sent_to ch (senders chs) ≡ count ch chs
sent_to-senders ch [] = refl
sent_to-senders ch (c ∷ chs) = rw (sent_to-senders ch chs) refl

-- What the update between the two calls makes of the new client `r` and of the goroutines `ss` that it
-- starts.
pub record Loses (d : Discovery) (pairs : List KvPair) (ss : List Sender)
    (r : XClient × Discovery × Option ℕ) : Type 0 where
  pub channel : ℕ
  pub has : r.2 ≡ some channel
  pub watched : count channel r.1.chans ≡ 1
  pub unsent : sent_to channel ss ≡ 0
  pub discovered : get_service r.1 ≡ pairs
  pub servers : r.0.servers ≡ servers_of (get_service d) []

-- An update of a discovery between the two calls of `NewXClient` is lost on the new client. Where the
-- channels of the discovery were made by it: the discovery has the new list, and the client has a
-- channel, on which it watches; but the client's servers are those of the old list, and none of the
-- goroutines that the update starts sends to that channel.
pub start_client-Loses :
    (itoa : ℕ → Text) (entries : List Entry) (d : Discovery) (fail_mode : FailMode)
    (select_mode : SelectMode) (retries : ℤ)
    → AllMade d.chans d.next_chan
    → let (updated, ss) = handler itoa entries d in
      Loses d
        (pairs_of itoa entries)
        ss
        (start_client consul fail_mode select_mode retries d updated)
unfolding start_client consul handler watch_service get_service new_xclient
start_client-Loses itoa entries d fail_mode select_mode retries made =
    let fresh : count d.next_chan d.chans ≡ 0 =
      unfold consul watch_service in consul-IsDiscovery.fresh d d.next_chan made refl in
    record {
      channel = d.next_chan;
      has = refl;
      watched = ground (
        arith,
        fresh,
        count-snoc d.next_chan d.next_chan d.chans,
        ==_iff d.next_chan d.next_chan,
      );
      unsent = rw (sent_to-senders d.next_chan d.chans) fresh;
      discovered = refl;
      servers = refl;
    }
