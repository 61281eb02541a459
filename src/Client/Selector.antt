-- ===== src/Client/Selector.antt =====
-- client/selector.go, the service list of client/discovery.go that it is fed from, and
-- `splitNetworkAndAddress` of client/xclient.go.
use a_simple_rpc.Prelude.{
  ℕ, List, [], ◌∷◌, ◌==◌, if◌then◌else◌, get_or, text_eq, Option, none, some, length,
}
use mathlib.Core.Option
use a_simple_rpc.Prelude.Bytes.{Text, codes}
use a_simple_rpc.Prelude.Maps.{Map, insert}

-- `KVPair`: the address of a server and its metadata.
abbrev pub KvPair : Type 0
KvPair = Text × Text

-- client/mode.go; every mode selects at random.
pub data SelectMode : Type 0 where
  random_select round_robin weighted_round_robin weighted_icmp consistent_hash closest : SelectMode
  select_by_user : SelectMode

-- `randomSelector`: its field `servers`.
abbrev pub Selector : Type 0
Selector = List Text

-- `for k := range servers`
abbrev pub keys : Map Text Text → List Text
keys [] = []
keys ((k, v) ∷ m) = k ∷ keys m

unfoldable pub new_random_selector : Map Text Text → Selector
new_random_selector servers = keys servers

unfoldable pub new_selector : SelectMode → Map Text Text → Selector
unfolding new_random_selector
new_selector random_select servers = new_random_selector servers
new_selector _ servers = new_random_selector servers

unfoldable pub update_server : Map Text Text → Selector → Selector
update_server servers s = keys servers

-- `draw n` is what `rand.Int31n(n)` gives.
unfoldable pub select : (ℕ → ℕ) → Selector → Text
select draw [] = []
select draw (s ∷ ss) = get_or (s ∷ ss) (draw (length (s ∷ ss))) []

-- The loops of `NewXClient` and `watch` that make a map of the pairs: a later pair replaces an earlier
-- one with its key.
unfoldable pub servers_of : List KvPair → Map Text Text → Map Text Text
servers_of [] m = m
servers_of ((k, v) ∷ ps) m = servers_of ps (insert k v m)

abbrev cons_first : ℕ → Text × Text → Text × Text
cons_first c (a, b) = (c ∷ a, b)

-- `strings.SplitN(s, "@", 2)` where `s` has an `@`.
unfoldable pub split_at_sign : Text → Option (Text × Text)
split_at_sign [] = none
split_at_sign (c ∷ s) =
    if c == b'@' then some ([], s) else Option.map (cons_first c) (split_at_sign s)

unfoldable pub split_network_and_address : Text → Text × Text
split_network_and_address server = elim (split_at_sign server) [
  | none ↦ (codes "tcp", server)
  | some p ↦ p
]
