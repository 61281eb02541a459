-- ===== src/Client/XClient/Broadcast/Sound.antt =====
-- What the result of `Broadcast` tells of its calls.
use a_simple_rpc.Prelude.{
  ℕ, ◌+◌, ◌-◌, ◌≤◌, ◌<◌, ◌≡◌, ◌⊎◌, inl, inr, refl, ap, subst, Bool, true, false, not, ◌||◌, List,
  [], ◌∷◌, ◌++◌, Option, none, some, ◌==◌, ==_iff, if◌then◌else◌, length, length-append, All,
  All-append, All-map, All-middle, IsAmong, first, later, arith,
}
use a_simple_rpc.Outcome.{Err, broadcast_timeout}
use a_simple_rpc.Client.XClient.{World, XClient}
use a_simple_rpc.Server.Plugin.{MultiError, new_multi_error, append_error, error_or_nil}
use a_simple_rpc.Client.XClient.Broadcast.{
  Task, Report, Run, new_run, is_nil, fail_with, report, settle_error, settle_call, take_done,
  expire, Step, reports, settles, receives, expires, Reach, here, next,
}

-- An error is the timeout, or one of the calls'.
abbrev pub IsSourced : List Err → Err → Type 0
IsSourced failed e = (e ≡ broadcast_timeout) ⊎ IsAmong e failed

-- `false` is passed on for a failed call.
abbrev pub Marks : List Err → Bool → Type 0
Marks failed true = Unit {0}
Marks failed false = 0 < length failed

abbrev pub IsHeld : List Err → Option Err → Type 0
IsHeld failed none = Unit {0}
IsHeld failed (some e) = IsAmong e failed

-- An error that `Broadcast` returns has errors in it, each the timeout or a call's. When it returns nil,
-- no call is under way any more, or a call has failed.
abbrev pub Tells : ℕ → ℕ → ℕ → List Err → Option (Option MultiError) → Type 0
Tells waiting pending lc failed none = waiting + pending ≡ lc
Tells waiting pending lc failed (some none) = (pending ≡ 0) ⊎ (0 < length failed)
Tells waiting pending lc failed (some (some m)) =
    (0 < length m.errors) × All (IsSourced failed) m.errors

pub record IsSound {V : Type 0} (r : Run V) : Type 0 where
  pub marks : All (Marks r.failed) r.done
  pub held : All (λ (q : Report V). IsHeld r.failed q.error) r.reported
  pub sourced : All (IsSourced r.failed) r.multi_err.errors
  pub tells : Tells (length r.done) (length r.pending) r.lc r.failed r.result

module _ (failed : List Err) (new : Option Err) where
  IsAmong-fail_with : (e : Err) → IsAmong e failed → IsAmong e (fail_with new failed)
  IsAmong-fail_with e h = go new
    where
      go : (n : Option Err) → IsAmong e (fail_with n failed)
      go none = h
      go (some x) = later x failed h

  IsSourced-fail_with : (e : Err) → IsSourced failed e → IsSourced (fail_with new failed) e
  IsSourced-fail_with e (inl h) = inl h
  IsSourced-fail_with e (inr h) = inr (IsAmong-fail_with e h)

  longer : length failed ≤ length (fail_with new failed)
  longer = go new
    where
      go : (n : Option Err) → length failed ≤ length (fail_with n failed)
      go none = omega arith
      go (some x) = omega arith

  Marks-fail_with : (b : Bool) → Marks failed b → Marks (fail_with new failed) b
  Marks-fail_with true h = tt
  Marks-fail_with false h = omega (arith, h, longer)

  IsHeld-fail_with : (e : Option Err) → IsHeld failed e → IsHeld (fail_with new failed) e
  IsHeld-fail_with none h = tt
  IsHeld-fail_with (some e) h = IsAmong-fail_with e h

own-Marks : (failed : List Err) (e : Option Err) → Marks (fail_with e failed) (is_nil e)
own-Marks failed none = tt
own-Marks failed (some e) = omega arith

own-IsHeld : (failed : List Err) (e : Option Err) → IsHeld (fail_with e failed) e
own-IsHeld failed none = tt
own-IsHeld failed (some e) = first failed

-- `ErrorOrNil` of the errors so far, when the loop ends.
error_or_nil-Tells :
    (waiting pending lc : ℕ) (failed : List Err) (m : MultiError)
    → All (IsSourced failed) m.errors
    → (pending ≡ 0) ⊎ (0 < length failed) ⊎ (0 < length m.errors)
    → Tells waiting pending lc failed (some (error_or_nil (some m)))
unfolding error_or_nil
error_or_nil-Tells waiting pending lc failed m sourced h = go m.errors refl
  where
    ends :
        (pending ≡ 0) ⊎ (0 < length failed) ⊎ (0 < length m.errors)
        → m.errors ≡ []
        → (pending ≡ 0) ⊎ (0 < length failed)
    ends (inl k) e = inl k
    ends (inr (inl k)) e = inr k
    ends (inr (inr k)) e = absurd (omega (arith, k, ap length e))

    go :
        (es : List Err)
        → m.errors ≡ es
        → Tells waiting pending lc failed (some (elim es [ [] ↦ none | e ∷ es' ↦ some m ]))
    go [] e = ends h e
    go (x ∷ xs) e = (omega (arith, ap length e), sourced)

-- The result of an earlier step still tells the truth when a call reports.
Tells-report :
    (before rest : List Task) (t : Task) (pending : List Task) (done : List Bool) (lc : ℕ)
    (failed : List Err) (e : Option Err) (v : Option (Option MultiError))
    → pending ≡ before ++ (t ∷ rest)
    → Tells (length done) (length pending) lc failed v
    → Tells (length (done ++ (is_nil e ∷ []))) (length (before ++ rest)) lc (fail_with e failed) v
Tells-report before rest t pending done lc failed e none p h = omega (
  arith,
  h,
  ap length p,
  length-append before (t ∷ rest),
  length-append before rest,
  length-append done (is_nil e ∷ []),
)
Tells-report before rest t pending done lc failed e (some none) p (inl h) =
    absurd (omega (arith, h, ap length p, length-append before (t ∷ rest)))
Tells-report before rest t pending done lc failed e (some none) p (inr h) =
    inr (omega (arith, h, longer failed e))
Tells-report before rest t pending done lc failed e (some (some m)) p h = (
  h.0,
  All-map (IsSourced failed) (IsSourced (fail_with e failed)) m.errors
      (IsSourced-fail_with failed e) h.1,
)

module _ {V : Type 0} (w : World) where
  report-IsSound :
      (before rest : List Task) (t : Task) (clone : V) (r : Run V) (o : Option Err × XClient)
      → r.pending ≡ before ++ (t ∷ rest)
      → IsSound r
      → IsSound (report t clone o (before ++ rest) r)
  unfolding report
  report-IsSound before rest t clone r (e, x) p h = record {
    marks =
        All-append (Marks (fail_with e r.failed)) r.done (is_nil e ∷ [])
          (All-map (Marks r.failed) (Marks (fail_with e r.failed)) r.done
            (Marks-fail_with r.failed e) h.marks)
          (own-Marks r.failed e, tt);
    held = (
      own-IsHeld r.failed e,
      All-map (λ (q : Report V). IsHeld r.failed q.error)
          (λ (q : Report V). IsHeld (fail_with e r.failed) q.error) r.reported
          (λ q. IsHeld-fail_with r.failed e q.error) h.held,
    );
    sourced =
        All-map (IsSourced r.failed) (IsSourced (fail_with e r.failed)) r.multi_err.errors
          (IsSourced-fail_with r.failed e) h.sourced;
    tells = Tells-report before rest t r.pending r.done r.lc r.failed e r.result p h.tells;
  }

  settle_call-IsSound :
      (before rest : List (Report V)) (q : Report V) (r : Run V)
      → r.reported ≡ before ++ (q ∷ rest)
      → IsSound r
      → IsSound (settle_call q (before ++ rest) r)
  unfolding settle_call append_error
  settle_call-IsSound before rest q r p h =
      let (mine, others) =
        All-middle (λ (k : Report V). IsHeld r.failed k.error) before q rest
          (subst (All (λ (k : Report V). IsHeld r.failed k.error)) p h.held) in
      go q.error mine others
    where
      go :
          (e : Option Err)
          → IsHeld r.failed e
          → All (λ (k : Report V). IsHeld r.failed k.error) (before ++ rest)
          → IsSound (settle_error q.task e q.clone (before ++ rest) r)
      go none mine others = record {
        marks = h.marks;
        held = others;
        sourced = h.sourced;
        tells = h.tells;
      }
      go (some e) mine others = record {
        marks = h.marks;
        held = others;
        sourced =
            All-append (IsSourced r.failed) r.multi_err.errors (e ∷ []) h.sourced (inr mine, tt);
        tells = h.tells;
      }

  take_done-IsSound :
      (b : Bool) (others : List Bool) (r : Run V)
      → r.result ≡ none
      → r.done ≡ b ∷ others
      → IsSound r
      → IsSound (take_done b others r)
  unfolding take_done
  take_done-IsSound b others r waits p h =
      let marks = subst (All (Marks r.failed)) p h.marks in
      let counted = subst (Tells (length r.done) (length r.pending) r.lc r.failed) waits h.tells in
      record {
        marks = marks.1;
        held = h.held;
        sourced = h.sourced;
        tells = go b (r.lc - 1 == 0) marks.0 refl (omega (arith, counted, ap length p));
      }
    where
      go :
          (c d : Bool)
          → Marks r.failed c
          → (r.lc - 1 == 0) ≡ d
          → length others + length r.pending ≡ r.lc - 1
          → Tells
              (length others)
              (length r.pending)
              (r.lc - 1)
              r.failed
              (if d || not c then some (error_or_nil (some r.multi_err)) else none)
      go c true mark e counted =
          error_or_nil-Tells (length others) (length r.pending) (r.lc - 1) r.failed r.multi_err
            h.sourced (inl (ground (arith, e, counted, ==_iff (r.lc - 1) 0)))
      go false false mark e counted =
          error_or_nil-Tells (length others) (length r.pending) (r.lc - 1) r.failed r.multi_err
            h.sourced (inr (inl mark))
      go true false mark e counted = counted

  expire-IsSound : (r : Run V) → r.result ≡ none → IsSound r → IsSound (expire r)
  unfolding expire append_error
  expire-IsSound r waits h =
      let sourced =
        All-append (IsSourced r.failed) r.multi_err.errors (broadcast_timeout ∷ []) h.sourced
          (inl refl, tt) in
      record {
        marks = h.marks;
        held = h.held;
        sourced = sourced;
        tells =
            error_or_nil-Tells (length r.done) (length r.pending) r.lc r.failed
              (append_error broadcast_timeout r.multi_err) sourced
              (inr
                (inr (omega (arith, length-append r.multi_err.errors (broadcast_timeout ∷ [])))));
      }

  Step-IsSound : {r s : Run V} → Step w r s → IsSound r → IsSound s
  Step-IsSound {r} (reports before rest t clone p) h = report-IsSound before rest t clone r _ p h
  Step-IsSound {r} (settles before rest q p) h = settle_call-IsSound before rest q r p h
  Step-IsSound {r} (receives b others waits p) h = take_done-IsSound b others r waits p h
  Step-IsSound {r} (expires waits) h = expire-IsSound r waits h

  -- Whichever goroutine of a `Broadcast` runs first: when it returns an error, that has at least one
  -- error in it, and each is the timeout or the error of a call; when it returns nil, no call is under
  -- way any more or a call has failed; and while it waits, the reports that it has not received yet and
  -- the calls under way are as many as it still counts.
  pub Reach-IsSound :
      (tasks : List Task) (x : XClient) {r : Run V} → Reach w (new_run tasks x) r → IsSound r
  unfolding new_multi_error
  Reach-IsSound tasks x here = record { marks = tt; held = tt; sourced = tt; tells = omega arith }
  Reach-IsSound tasks x (next k st) = Step-IsSound st (Reach-IsSound tasks x k)
