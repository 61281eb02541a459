-- ===== src/Client/XClient/Broadcast/Lost.antt =====
-- An error that `Broadcast` does not return.
use a_simple_rpc.Prelude.{
  suc, ◌≡◌, refl, Bool, true, false, ◌||◌, List, [], ◌∷◌, Option, none, some, ◌==◌, if◌then◌else◌,
  length, ◌-◌,
}
use a_simple_rpc.Outcome.{Err}
use a_simple_rpc.Client.XClient.{World, XClient, wrap_call}
use a_simple_rpc.Server.Plugin.{MultiError, new_multi_error, error_or_nil}
use a_simple_rpc.Client.XClient.Broadcast.{
  Task, Run, new_run, report, take_done, reports, receives, Reach, here, next,
}

ends :
    (b : Bool)
    → ◌≡◌ {A = Option (Option MultiError)} (if b || true then some none else none) (some none)
ends true = refl
ends false = refl

module _ {V : Type 0} (w : World) where
  -- Whatever the servers, when the first call of a `Broadcast` fails: the goroutines can run in such an
  -- order that `Broadcast` returns nil, with the other calls still under way. The failed call is
  -- reported to the loop before its error is stored.
  pub new_run-Lost :
      (t : Task) (tasks : List Task) (x : XClient) (clone : V) (e : Err)
      → (wrap_call w t.1 x).0 ≡ some e
      → (r : Run V) × Reach w (new_run (t ∷ tasks) x) r
        × (r.result ≡ some none)
        × (r.failed ≡ e ∷ [])
        × (r.pending ≡ tasks)
  unfolding report take_done new_multi_error error_or_nil
  new_run-Lost t tasks x clone e fails =
      let o = wrap_call w t.1 x in
      let r1 = report t clone o tasks (new_run (t ∷ tasks) x) in
      (
        take_done false [] r1,
        next (next here (reports [] tasks t clone refl)) (receives false [] refl (rw fails refl)),
        ends (suc (length tasks) - 1 == 0),
        rw fails refl,
        refl,
      )
