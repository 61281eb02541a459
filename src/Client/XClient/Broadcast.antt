-- ===== src/Client/XClient/Broadcast.antt =====
-- `Broadcast` of client/xclient.go: one goroutine for each server, and the loop that waits for them.
pub mod Sound
pub mod Lost
use a_simple_rpc.Prelude.{
  ℕ, zero, suc, ◌-◌, Bool, true, false, not, ◌||◌, List, [], ◌∷◌, ◌++◌, Option, none, some, ◌==◌,
  if◌then◌else◌, length, ◌≡◌,
}
use a_simple_rpc.Prelude.Bytes.{Text}
use a_simple_rpc.Prelude.Maps.{Map}
use a_simple_rpc.Outcome.{Err, xclient_shutdown, no_server, broadcast_timeout}
use a_simple_rpc.Client.Selector.{keys}
use a_simple_rpc.Client.XClient.{
  World, XClient, Got, get_cached_client, wrap_call, remove_client, uncover_error, drop_failed,
}
use a_simple_rpc.Server.Plugin.{MultiError, new_multi_error, append_error, error_or_nil}

-- A goroutine that calls on a client, and one that has passed the outcome on: the error of its call and
-- its own copy of the reply.
abbrev pub Task : Type 0
Task = Text × Option ℕ

pub record Report (V : Type 0) : Type 0 where
  pub task : Task
  pub error : Option Err
  pub clone : V

-- The variables of `Broadcast`; the caller gives a reply to fill in. `failed` are the errors of the
-- calls so far, the newest first; `result` is none while the loop waits.
pub record Run (V : Type 0) : Type 0 where
  pub xclient : XClient
  pub pending : List Task
  pub reported : List (Report V)
  pub done : List Bool
  pub lc : ℕ
  pub multi_err : MultiError
  pub reply : Option V
  pub failed : List Err
  pub result : Option (Option MultiError)

-- The loop that collects the clients.
abbrev pub collect : Text → Got → List Task → List Task
collect k (client, some e, x) tasks = tasks
collect k (client, none, x) tasks = (k, client) ∷ tasks

unfoldable pub gather : World → List Text → XClient → List Task × XClient
gather w [] x = ([], x)
gather w (k ∷ ks) x =
    let g = get_cached_client w k x in let (tasks, x') = gather w ks g.2 in (collect k g tasks, x')

abbrev pub is_nil : Option Err → Bool
is_nil none = true
is_nil (some e) = false

abbrev pub fail_with : Option Err → List Err → List Err
fail_with none es = es
fail_with (some e) es = e ∷ es

-- What stands before the goroutines: an error, or the tasks.
pub data Begun (V : Type 0) : Type 0 where
  refused : Err → XClient → Begun V
  running : Run V → Begun V

module _ {V : Type 0} where
  abbrev pub new_run : List Task → XClient → Run V
  new_run tasks x = record {
    xclient = x;
    pending = tasks;
    reported = [];
    done = [];
    lc = length tasks;
    multi_err = new_multi_error [];
    reply = none;
    failed = [];
    result = none;
  }

  abbrev pub begun : List Task × XClient → Begun V
  begun ([], x) = refused no_server x
  begun (t ∷ ts, x) = running (new_run (t ∷ ts) x)

  unfoldable pub broadcast : World → XClient → Begun V
  broadcast w x =
      if x.is_shutdown then refused xclient_shutdown x else begun (gather w (keys x.servers) x)

  -- `wrapCall`, and `done <- err == nil`.
  unfoldable pub report : Task → V → Option Err × XClient → List Task → Run V → Run V
  report t clone (e, x) others r = record r {
    xclient = x;
    pending = others;
    reported = record { task = t; error = e; clone = clone } ∷ r.reported;
    done = r.done ++ (is_nil e ∷ []);
    failed = fail_with e r.failed;
  }

  -- `replyOnce.Do`
  abbrev pub once : V → Option V → Option V
  once v none = some v
  once v (some u) = some u

  -- What a goroutine does behind that.
  abbrev pub settle_error : Task → Option Err → V → List (Report V) → Run V → Run V
  settle_error t none clone others r = record r { reported = others; reply = once clone r.reply }
  settle_error (k, client) (some e) clone others r = record r {
    reported = others;
    xclient = drop_failed (some e) k client r.xclient;
    multi_err = append_error e r.multi_err;
  }

  unfoldable pub settle_call : Report V → List (Report V) → Run V → Run V
  settle_call q others r = settle_error q.task q.error q.clone others r

  -- `case result := <-done`
  unfoldable pub take_done : Bool → List Bool → Run V → Run V
  take_done b others r =
      let lc' = r.lc - 1 in
      record r {
        done = others;
        lc = lc';
        result = if (lc' == 0) || not b then some (error_or_nil (some r.multi_err)) else none;
      }

  -- `case <-timeout.C`
  unfoldable pub expire : Run V → Run V
  expire r =
      let m = append_error broadcast_timeout r.multi_err in
      record r { multi_err = m; result = some (error_or_nil (some m)) }

  pub data Step (w : World) (r : Run V) : Run V → Type 0 where
    reports :
        (before after : List Task) (t : Task) (clone : V)
        → r.pending ≡ before ++ (t ∷ after)
        → Step w r (report t clone (wrap_call w t.1 r.xclient) (before ++ after) r)
    settles :
        (before after : List (Report V)) (q : Report V)
        → r.reported ≡ before ++ (q ∷ after)
        → Step w r (settle_call q (before ++ after) r)
    receives :
        (b : Bool) (others : List Bool)
        → r.result ≡ none
        → r.done ≡ b ∷ others
        → Step w r (take_done b others r)
    expires : r.result ≡ none → Step w r (expire r)

  pub data Reach (w : World) (r : Run V) : Run V → Type 0 where
    here : Reach w r r
    next : {m k : Run V} → Reach w r m → Step w m k → Reach w r k
