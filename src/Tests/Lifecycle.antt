-- ===== src/Tests/Lifecycle.antt =====
-- server/server.go: a server that is closed while a connection is in hand.
use a_simple_rpc.Prelude.{◌<◌, ◌+◌, ◌≡◌, refl, [], ◌∷◌, none, some, count, arith, nat_eq, text_eq}
use a_simple_rpc.Outcome.{ok}
use a_simple_rpc.Server.Lifecycle.{
  Listening, new_listening, close, store_conn, begin_conn, end_conn, drop_conn, is_shutdown,
}
use a_simple_rpc.Server.Lifecycle.Steps.{
  Net, idle, listens, accepts, stores, spawns, begins, ends, drops, Reach, here, next,
}
use a_simple_rpc.Server.Lifecycle.Closing.{Closed}
use a_simple_rpc.Server.Lifecycle.Invariant.{IsAccounted, Reach-IsAccounted, close-releases}

-- Connection 1 is being served, connection 2 is in hand, and connection 3 is out of the map and not
-- closed yet.
abbrev busy : Net
busy = record {
  server = record new_listening { ln = some 0; action_conn_map = 1 ∷ [] };
  accepted = 2 ∷ 1 ∷ 3 ∷ [];
  in_hand = 2 ∷ [];
  stored = [];
  starting = [];
  serving = 1 ∷ [];
  leaving = [];
  dropped = 3 ∷ [];
}

-- Connection 3 is served, and its goroutine has run the first half of `closeConn`.
abbrev left_open : Net
left_open = record {
  server = record new_listening { ln = some 0 };
  accepted = 3 ∷ [];
  in_hand = [];
  stored = [];
  starting = [];
  serving = [];
  leaving = [];
  dropped = 3 ∷ [];
}

left_open-Reach : Reach idle left_open
unfolding store_conn drop_conn begin_conn end_conn is_shutdown new_listening
left_open-Reach =
    next
      (next
        (next
          (next (next (next (next here (listens 0)) (accepts 3)) (stores [] [] 3 refl))
            (spawns [] [] 3 refl))
          (begins [] [] 3 refl refl))
        (ends [] [] 3 refl refl))
      (drops [] [] 3 refl)

busy-Reach : Reach idle busy
unfolding store_conn begin_conn is_shutdown new_listening
busy-Reach =
    next
      (next
        (next (next (next left_open-Reach (accepts 1)) (stores [] [] 1 refl)) (spawns [] [] 1 refl))
        (begins [] [] 1 refl refl))
      (accepts 2)

Reach-IsAccounted_example : IsAccounted busy
Reach-IsAccounted_example = Reach-IsAccounted busy-Reach

close-releases_example :
    (s : Listening) × ((close none busy.server).0 ≡ ok s)
    × Closed busy.server s
    × (0 < count 3 busy.in_hand + count 3 busy.dropped + count 3 s.closed_conns)
close-releases_example = close-releases none 3 busy-Reach (omega arith)
