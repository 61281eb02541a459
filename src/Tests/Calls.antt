-- ===== src/Tests/Calls.antt =====
-- client/xclient.go in concrete worlds.
use a_simple_rpc.Prelude.{
  ℕ, ◌+◌, ◌≤◌, ◌≡◌, ◌≢◌, refl, inr, false, [], ◌∷◌, Option, none, some, arith, suc, text_eq, nat_eq,
}
use a_simple_rpc.Prelude.Int.{pos}
use a_simple_rpc.Prelude.Bytes.{codes}
use a_simple_rpc.Outcome.{Err, net_closed}
use a_simple_rpc.Client.Selector.{select, random_select}
use a_simple_rpc.Client.XClient.{
  FailMode, fail_over, fail_try, World, alone, XClient, uncover_error, call, new_xclient,
}
use a_simple_rpc.Client.XClient.Retries.{attempts, call-attempts}
use a_simple_rpc.Client.XClient.Tidy.{IsTidy}
use a_simple_rpc.Client.XClient.Tidy.Runs.{calls, gos, closes, run, run-IsTidy}
use a_simple_rpc.Client.XClient.Masking.{AllFail, call-Masks}

-- Servers accept connections and answer every call with `answer`.
abbrev pub world : Option Err → World
world answer = record {
  draw = λ t n. 0;
  dial = λ t network addr. none;
  reply = λ t c. answer;
  down = λ t c. false;
  flight = λ t k. alone;
}

abbrev pub xclient : FailMode → XClient
xclient mode = record {
  fail_mode = mode;
  retries = pos 3;
  servers = (codes "tcp@a:1", []) ∷ [];
  selector = codes "tcp@a:1" ∷ [];
  cached_client = [];
  is_shutdown = false;
  next_id = 0;
  closed = [];
  clock = 0;
  calls = 0;
}

-- A client with a connection in its cache.
abbrev connected : XClient
connected = record (xclient fail_try) { cached_client = (codes "tcp@a:1", 5) ∷ []; next_id = 6 }

call-attempts_example :
    (0 ≤ (call (world (some net_closed)) (xclient fail_over)).1.calls)
    × ((call (world (some net_closed)) (xclient fail_over)).1.calls
        ≤ 0 + attempts fail_over (pos 3))
call-attempts_example = call-attempts (world (some net_closed)) (xclient fail_over)

all_fail : AllFail (world (some net_closed))
all_fail = record {
  dials = λ t network addr. refl;
  not_shared = λ t k. refl;
  fault = λ t c. net_closed;
  faults = λ t c. refl;
  coverable = λ t c. unfold uncover_error in refl;
}

found : (i : ℕ) → select ((world (some net_closed)).draw i) (xclient fail_over).selector ≢ []
unfolding select
found i e = ground (arith, e)

call-Masks_example :
    ((call (world (some net_closed)) (xclient fail_over)).0 ≡ none)
    × ((call (world (some net_closed)) (xclient fail_over)).1.calls ≡ 0 + suc 3)
call-Masks_example =
    call-Masks (world (some net_closed)) (xclient fail_over) 3 all_fail refl found (inr refl) refl

run-IsTidy_example : IsTidy (
    run
      (world (some net_closed))
      (calls ∷ gos ∷ closes ∷ gos ∷ [])
      (new_xclient fail_over random_select (pos 3) ((codes "tcp@a:1", []) ∷ [])))
run-IsTidy_example =
    run-IsTidy (world (some net_closed)) (λ t k. refl) (calls ∷ gos ∷ closes ∷ gos ∷ []) fail_over
      random_select (pos 3) ((codes "tcp@a:1", []) ∷ [])
