-- ===== src/Exchange/Matching.antt =====
-- Several calls in flight on one connection of client/client.go: the responses that `input` reads may
-- come in any order, and each goes to the call with its number.
use a_simple_rpc.Prelude.{
  ℕ, ◌≡◌, ◌≢◌, refl, sym, ap, ◌∙◌, false, List, [], ◌∷◌, ◌++◌, Option, none, some, subst, ◌==◌,
  ==_iff, arith, All, append_assoc, append-nil, nat_eq,
}
use a_simple_rpc.Prelude.Maps.{lookup, lookup-delete}
use a_simple_rpc.Outcome.{Err}
use a_simple_rpc.Protocol.Header.{seq}
use a_simple_rpc.Protocol.Message.{Message}
use a_simple_rpc.Client.Call.{Codec, reply_to}
use a_simple_rpc.Client.Connection.{Client, receive, fill_in, call_done, drop_pending}
use a_simple_rpc.Exchange.{Completes, receive-Completes}

-- A response, the number that it has, and the call that waits under it.
pub record Arrival : Type 0 where
  pub number : ℕ
  pub call : ℕ
  pub message : Message

-- Two responses to different calls.
pub record Apart (a b : Arrival) : Type 0 where
  pub numbers : a.number ≢ b.number
  pub calls : a.call ≢ b.call

abbrev pub AllApart : List Arrival → Type 0
AllApart [] = Unit {0}
AllApart (a ∷ as_) = All (Apart a) as_ × AllApart as_

-- The addresses of the calls, in the order of their responses.
abbrev pub calls_of : List Arrival → List ℕ
calls_of [] = []
calls_of (a ∷ as_) = a.call ∷ calls_of as_

module _ {V : Type 0} (cs : Codec V) where
  -- `for err == nil`: an error of a round ends the loop.
  abbrev pub after_round :
      Client V × Option Err → (Client V → Client V × Option Err) → Client V × Option Err
  after_round (c, none) rest = rest c
  after_round (c, some e) rest = (c, some e)

  -- The rounds of `input` over the responses that it reads, with the error that ended them, if one did.
  abbrev pub receive_all : List Arrival → Client V → Client V × Option Err
  receive_all [] c = (c, none)
  receive_all (a ∷ as_) c = after_round (receive cs a.message c) (λ d. receive_all as_ d)

  -- The response has its number, under which its call waits, and its payload can be decoded.
  pub record Awaited (c : Client V) (a : Arrival) : Type 0 where
    pub numbered : seq a.message.header ≡ a.number
    pub waits : lookup a.number c.pending ≡ some a.call
    pub decodes : (reply_to cs a.message (c.calls a.call)).1 ≡ none

  -- The call has what its own response makes of it, and waits no longer.
  pub record Matched (c d : Client V) (a : Arrival) : Type 0 where
    pub replied : d.calls a.call ≡ (reply_to cs a.message (c.calls a.call)).0
    pub gone : lookup a.number d.pending ≡ none

  completes : (c : Client V) (a : Arrival) → Awaited c a → Completes cs c a.number a.call a.message
  completes c a w = receive-Completes cs c a.number a.call a.message w.numbered w.waits

  receive-pending :
      (c : Client V) (a : Arrival) (t : ℕ)
      → Awaited c a
      → a.number ≢ t
      → lookup t (receive cs a.message c).0.pending ≡ lookup t c.pending
  unfolding receive fill_in call_done drop_pending
  receive-pending c a t w apart =
      let other : (a.number == t) ≡ false = ground (arith, ==_iff a.number t, apart) in
      rw (w.numbered, w.waits) (rw (lookup-delete a.number t c.pending, other) refl)

  receive-Awaited :
      (c : Client V) (a b : Arrival)
      → Awaited c a
      → Apart a b
      → Awaited c b
      → Awaited (receive cs a.message c).0 b
  receive-Awaited c a b w apart v = record {
    numbered = v.numbered;
    waits = receive-pending c a b.number w apart.numbers ∙ v.waits;
    decodes =
        ap (λ k. (reply_to cs b.message k).1)
          ((completes c a w).others b.call (λ e. apart.calls (sym e)))
        ∙ v.decodes;
  }

  -- A round without an error, behind which the loop goes on.
  receive-continues : (c : Client V) (a : Arrival) → Awaited c a → (receive cs a.message c).1 ≡ none
  unfolding receive fill_in drop_pending
  receive-continues c a w = rw (w.numbered, w.waits) w.decodes

  receive_all-rest :
      (a : Arrival) (bs : List Arrival) (c : Client V)
      → Awaited c a
      → receive_all (a ∷ bs) c ≡ receive_all bs (receive cs a.message c).0
  receive_all-rest a bs c w =
      ap (λ (e : Option Err). after_round ((receive cs a.message c).0, e) (λ d. receive_all bs d))
        (receive-continues c a w)

  Awaited-rest :
      (c : Client V) (a : Arrival) (bs : List Arrival)
      → Awaited c a
      → All (Apart a) bs
      → All (Awaited c) bs
      → All (Awaited (receive cs a.message c).0) bs
  Awaited-rest c a [] w h v = tt
  Awaited-rest c a (b ∷ bs) w h v = (receive-Awaited c a b w h.0 v.0, Awaited-rest c a bs w h.1 v.1)

  -- Responses to other calls do not touch a call, nor put it back.
  record Untouched (a : Arrival) (c : Client V) (r : Client V × Option Err) : Type 0 where
    call_kept : r.0.calls a.call ≡ c.calls a.call
    number_kept : lookup a.number r.0.pending ≡ lookup a.number c.pending

  receive_all-Untouched :
      (bs : List Arrival) (c : Client V) (a : Arrival)
      → All (Apart a) bs
      → AllApart bs
      → All (Awaited c) bs
      → Untouched a c (receive_all bs c)
  receive_all-Untouched [] c a h apart v = record { call_kept = refl; number_kept = refl }
  receive_all-Untouched (b ∷ bs) c a h apart v =
      let d = (receive cs b.message c).0 in
      let rest = receive_all-Untouched bs d a h.1 apart.1 (Awaited-rest c b bs v.0 apart.0 v.1) in
      subst (Untouched a c) (sym (receive_all-rest b bs c v.0)) (record {
        call_kept = rest.call_kept ∙ (completes c b v.0).others a.call h.0.calls;
        number_kept =
            rest.number_kept ∙ receive-pending c b a.number v.0 (λ e. h.0.numbers (sym e));
      })

  Matched-rest :
      (c d : Client V) (a : Arrival) (bs : List Arrival)
      → Awaited c a
      → All (Apart a) bs
      → All (Matched (receive cs a.message c).0 d) bs
      → All (Matched c d) bs
  Matched-rest c d a [] w h m = tt
  Matched-rest c d a (b ∷ bs) w h m =
      let same = (completes c a w).others b.call (λ e. h.0.calls (sym e)) in
      (
        record {
          replied = m.0.replied ∙ ap (λ k. (reply_to cs b.message k).0) same;
          gone = m.0.gone;
        },
        Matched-rest c d a bs w h.1 m.1,
      )

  -- What the loop leaves: no error, its calls matched, and completed once each.
  pub record AllMatched (bs : List Arrival) (c : Client V) (r : Client V × Option Err)
      : Type 0 where
    pub goes_on : r.1 ≡ none
    pub matched : All (Matched c r.0) bs
    pub once : r.0.completed ≡ c.completed ++ calls_of bs

  -- Each response finds its call. Responses to different calls, under the numbers that these wait under,
  -- and with payloads that the codec decodes for their calls, arrive in any order. The loop of `input`
  -- then reads all of them without an error; behind them every one of the calls has what its own
  -- response makes of it, and no longer waits, and the calls have been completed once each, in the order
  -- of the responses.
  pub receive_all-Matched :
      (bs : List Arrival) (c : Client V)
      → AllApart bs
      → All (Awaited c) bs
      → AllMatched bs c (receive_all bs c)
  receive_all-Matched [] c apart v = record {
    goes_on = refl;
    matched = tt;
    once = sym (append-nil c.completed);
  }
  receive_all-Matched (a ∷ bs) c apart v =
      let d = (receive cs a.message c).0 in
      let now = completes c a v.0 in
      let left = Awaited-rest c a bs v.0 apart.0 v.1 in
      let rest = receive_all-Matched bs d apart.1 left in
      let own = receive_all-Untouched bs d a apart.0 apart.1 left in
      subst (AllMatched (a ∷ bs) c) (sym (receive_all-rest a bs c v.0)) (record {
        goes_on = rest.goes_on;
        matched = (
          record { replied = own.call_kept ∙ now.mine; gone = own.number_kept ∙ now.gone },
          Matched-rest c (receive_all bs d).0 a bs v.0 apart.0 rest.matched,
        );
        once = rest.once ∙ rw now.once (append_assoc c.completed (a.call ∷ []) (calls_of bs));
      })
