-- ===== src/Client/Heartbeat/Stopping.antt =====
-- When the heartbeat of a connection ends.
use a_simple_rpc.Prelude.{
  ◌+◌, ◌≤◌, ◌≡◌, refl, Bool, true, ◌||◌, List, [], ◌∷◌, ◌++◌, Option, length, arith, Bool-cases,
  inl, inr,
}
use a_simple_rpc.Outcome.{Err}
use a_simple_rpc.Client.Connection.{Client, close, close_pending}
use a_simple_rpc.Client.Heartbeat.{Beat, is_shutdown, is_closing, abnormal, after_beat, heartbeat}

module _ {V : Type 0} where
  -- The connection is closed, or its `input` has ended.
  abbrev pub is_over : Client V → Bool
  is_over c = is_shutdown c || is_closing c

  close-is_over : (e : Option Err) (c : Client V) → is_over (close e c).0 ≡ true
  unfolding close is_shutdown is_closing
  close-is_over e c =
      let d = close_pending c.pending c in
      elim (Bool-cases (d.closing || d.is_shutdown)) [
        | inl closed ↦ rw closed (ground (arith, closed))
        | inr running ↦ rw running (ground arith)
      ]

  heartbeat-over : (bs : List (Beat V)) (c : Client V) → is_over c ≡ true → heartbeat bs c ≡ (c, 0)
  unfolding heartbeat
  heartbeat-over [] c over = refl
  heartbeat-over (b ∷ bs) c over = rw over refl

  after_beat-is_over :
      (b : Beat V) (c : Client V) → abnormal b ≡ true → is_over (after_beat b c) ≡ true
  unfolding after_beat
  after_beat-is_over b c bad = rw bad (close-is_over b.close_error c)

  -- An abnormal heartbeat is the last: whatever the rounds before it, and whatever else the goroutines
  -- of the connection do, once a heartbeat gets an error or outlives its context, none is sent behind
  -- it, however many ticks follow, and the connection is closed or its `input` has ended.
  pub heartbeat-Stops :
      (before : List (Beat V)) (b : Beat V) (after : List (Beat V)) (c : Client V)
      → abnormal b ≡ true
      → ((heartbeat (before ++ (b ∷ after)) c).1 ≤ length before + 1)
        × (is_over (heartbeat (before ++ (b ∷ after)) c).0 ≡ true)
  unfolding heartbeat
  heartbeat-Stops [] b after c bad = elim (Bool-cases (is_over c)) [
    | inl over ↦ rw over (omega arith, over)
    | inr runs ↦
        let d = after_beat b (b.meanwhile c) in
        let over = after_beat-is_over b (b.meanwhile c) bad in
        rw (runs, heartbeat-over after d over) (omega arith, over)
  ]
  heartbeat-Stops (x ∷ before) b after c bad =
      let (few, over) = heartbeat-Stops before b after (after_beat x (x.meanwhile c)) bad in
      elim (Bool-cases (is_over c)) [
        | inl done ↦ rw done (omega arith, done)
        | inr runs ↦ rw runs (omega (arith, few), over)
      ]
