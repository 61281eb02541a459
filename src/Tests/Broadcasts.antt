-- ===== src/Tests/Broadcasts.antt =====
-- `Broadcast` of client/xclient.go to servers that close the connection.
use a_simple_rpc.Prelude.{ℕ, ◌≡◌, refl, false, List, [], ◌∷◌, none, some}
use a_simple_rpc.Prelude.Bytes.{codes}
use a_simple_rpc.Outcome.{net_closed}
use a_simple_rpc.Client.XClient.{fail_over, wrap_call}
use a_simple_rpc.Client.XClient.Broadcast.{
  Task, Report, Run, new_run, report, settle_call, take_done, reports, settles, receives, Reach,
  here, next,
}
use a_simple_rpc.Client.XClient.Broadcast.Sound.{IsSound, Reach-IsSound}
use a_simple_rpc.Client.XClient.Broadcast.Lost.{new_run-Lost}
use a_simple_rpc.Tests.Calls.{world, xclient}

abbrev first_task : Task
first_task = (codes "tcp@a:1", some 0)

abbrev tasks : List Task
tasks = (codes "tcp@b:1", some 1) ∷ []

abbrev start : Run ℕ
start = new_run (first_task ∷ tasks) (xclient fail_over)

abbrev told : Run ℕ
told =
    report first_task 7 (wrap_call (world (some net_closed)) (some 0) (xclient fail_over)) tasks
      start

abbrev failure : Report ℕ
failure = record { task = first_task; error = some net_closed; clone = 7 }

-- The error is stored before the loop hears of it.
abbrev ended : Run ℕ
ended = take_done false [] (settle_call failure [] told)

ended-Reach : Reach (world (some net_closed)) start ended
unfolding wrap_call report settle_call
ended-Reach =
    next (next (next here (reports [] tasks first_task 7 refl)) (settles [] [] failure refl))
      (receives false [] refl refl)

Reach-IsSound_example : IsSound ended
Reach-IsSound_example =
    Reach-IsSound (world (some net_closed)) (first_task ∷ tasks) (xclient fail_over) ended-Reach

new_run-Lost_example :
    (r : Run ℕ) × Reach (world (some net_closed)) start r
    × (r.result ≡ some none)
    × (r.failed ≡ net_closed ∷ [])
    × (r.pending ≡ tasks)
new_run-Lost_example =
    new_run-Lost (world (some net_closed)) first_task tasks (xclient fail_over) 7 net_closed
      (unfold wrap_call in refl)
