-- ===== src/Client/XClient/Tidy/Runs.antt =====
-- The life of an xclient: calls, updates of the servers, and `Close`.
use a_simple_rpc.Prelude.{ℕ, ◌≡◌, refl, List, [], ◌∷◌, text_eq}
use a_simple_rpc.Prelude.Bytes.{Text}
use a_simple_rpc.Prelude.Int.{ℤ}
use a_simple_rpc.Prelude.Maps.{lookup}
use a_simple_rpc.Client.Selector.{KvPair, SelectMode}
use a_simple_rpc.Client.XClient.{
  FailMode, World, alone, XClient, close, call, go, new_xclient, on_change,
}
use a_simple_rpc.Client.XClient.Tidy.{IsTidy, same-IsTidy, close-IsTidy}
use a_simple_rpc.Client.XClient.Tidy.Calls.{call-IsTidy, go-IsTidy}

-- What happens to an xclient.
pub data Use : Type 0 where
  calls gos closes : Use
  changes : List KvPair → Use

abbrev pub run : World → List Use → XClient → XClient
run w [] x = x
run w (calls ∷ us) x = run w us (call w x).1
run w (gos ∷ us) x = run w us (go w x).2
run w (closes ∷ us) x = run w us (close x)
run w (changes pairs ∷ us) x = run w us (on_change pairs x)

new_xclient-IsTidy :
    (mode : FailMode) (select_mode : SelectMode) (retries : ℤ) (pairs : List KvPair)
    → IsTidy (new_xclient mode select_mode retries pairs)
unfolding new_xclient lookup
new_xclient-IsTidy mode select_mode retries pairs = record {
  made = tt;
  usable = λ k c e. absurd (cc e);
  apart = λ k j c e f. absurd (cc e);
  past = λ c e. absurd (cc e);
}

on_change-IsTidy : (pairs : List KvPair) (x : XClient) → IsTidy x → IsTidy (on_change pairs x)
unfolding on_change
on_change-IsTidy pairs x t = same-IsTidy x _ refl refl refl t

module _ (w : World) (not_shared : (t : ℕ) (k : Text) → w.flight t k ≡ alone) where
  run-keeps : (us : List Use) (x : XClient) → IsTidy x → IsTidy (run w us x)
  run-keeps [] x t = t
  run-keeps (calls ∷ us) x t = run-keeps us (call w x).1 (call-IsTidy w not_shared x t)
  run-keeps (gos ∷ us) x t = run-keeps us (go w x).2 (go-IsTidy w not_shared x t)
  run-keeps (closes ∷ us) x t = run-keeps us (close x) (close-IsTidy x t)
  run-keeps (changes pairs ∷ us) x t = run-keeps us (on_change pairs x) (on_change-IsTidy pairs x t)

  -- Through any history of `Call` in each fail mode, `Go`, updates of the servers and `Close`, in which no
  -- dial is shared with another goroutine and whatever the network does: the cache of a new xclient never
  -- holds a connection that the xclient has closed, nor one connection under two servers; and what it
  -- holds or has closed are connections that it made.
  pub run-IsTidy :
      (us : List Use) (mode : FailMode) (select_mode : SelectMode) (retries : ℤ)
      (pairs : List KvPair)
      → IsTidy (run w us (new_xclient mode select_mode retries pairs))
  run-IsTidy us mode select_mode retries pairs =
      run-keeps us _ (new_xclient-IsTidy mode select_mode retries pairs)
