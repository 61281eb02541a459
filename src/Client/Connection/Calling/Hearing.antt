-- ===== src/Client/Connection/Calling/Hearing.antt =====
-- Each completion of a call leaves something in the channel of the call.
use a_simple_rpc.Prelude.{
  one, count, count-snoc, ℕ, ◌+◌, ◌≤◌, ◌≡◌, refl, ◌∙◌, sym, false, ◌||◌, not, List, [], ◌∷◌, ◌++◌,
  Option, none, some, ◌==◌, ltb, length, nat_eq, arith, Bool-cases, inl, inr, ==_iff, subst,
}
use a_simple_rpc.Prelude.Maps.{Map}
use a_simple_rpc.Outcome.{shutdown, unsupported_codec, Err}
use a_simple_rpc.Share.{has_codec}
use a_simple_rpc.Protocol.Header.{serialize_type}
use a_simple_rpc.Protocol.Message.{Message}
use a_simple_rpc.Client.Call.{
  Call, Channel, Codec, edit, offer, reply_to, error_reply, normal_reply, decoded_reply,
  is_heartbeat_call, type_for,
}
use a_simple_rpc.Client.Connection.{
  Client, call_done, fail_call, drop_pending, reserve, fail_all, end_input, close_pending, close,
}
use a_simple_rpc.Client.Connection.Goroutines.{Errand, replies, fails, announces, work}

offer-cap : (j : ℕ) (ch : Channel) → (offer j ch).cap ≡ ch.cap
unfolding offer
offer-cap j ch = elim (Bool-cases (ltb (length ch.queue) ch.cap)) [
  | inl room ↦ rw room refl
  | inr full ↦ rw full refl
]

length-snoc : (xs : List ℕ) (j : ℕ) → length (xs ++ (j ∷ [])) ≡ length xs + 1
length-snoc [] j = refl
length-snoc (x ∷ xs) j = omega (arith, length-snoc xs j)

offer-grows : (j : ℕ) (ch : Channel) → length ch.queue ≤ length (offer j ch).queue
unfolding offer
offer-grows j ch = ground (arith, length-snoc ch.queue j)

-- Behind an offer, a channel with room for one holds one.
offer-holds : (j : ℕ) (ch : Channel) → 1 ≤ ch.cap → 1 ≤ length (offer j ch).queue
unfolding offer
offer-holds j ch room = ground (arith, room, length-snoc ch.queue j)

-- The channel of a call has room, and once the call has been completed something is in it.
pub record Hears {V : Type 0} (id ch : ℕ) (c : Client V) : Type 0 where
  pub done_is : (c.calls id).done ≡ ch
  pub room : 1 ≤ (c.channels ch).cap
  pub heard : 1 ≤ count id c.completed → 1 ≤ length (c.channels ch).queue

module _ {V : Type 0} (id ch : ℕ) where
  pub call_done-Hears : (j : ℕ) (c : Client V) → Hears id ch c → Hears id ch (call_done j c)
  unfolding call_done
  call_done-Hears j c h = elim (Bool-cases ((c.calls j).done == ch)) [
    | inl mine ↦ record {
      done_is = h.done_is;
      room = rw mine (rw (offer-cap j (c.channels ch)) h.room);
      heard = λ _. rw mine (offer-holds j (c.channels ch) h.room);
    }
    | inr other ↦
        let apart : (j == id) ≡ false = elim (Bool-cases (j == id)) [
          | inl same ↦
              let done_j : (c.calls j).done ≡ ch = rw ((==_iff j id).0 same) h.done_is in
              absurd (cc (other, (==_iff (c.calls j).done ch).1 done_j))
          | inr differ ↦ differ
        ] in
        record {
          done_is = h.done_is;
          room = rw other h.room;
          heard = λ n. rw other (
              h.heard (
                let snoc = count-snoc id j c.completed in
                let no : one (j == id) ≡ 0 = rw apart refl in omega (arith, n, snoc, no)));
        }
  ]

  -- The calls are edited in ways that keep their channels.
  edited-Hears :
      (f : Call V → Call V) (j : ℕ) (c : Client V)
      → ((c.calls j).done ≡ (f (c.calls j)).done)
      → Hears id ch c
      → Hears id ch (record c { calls = edit j f c.calls })
  edited-Hears f j c keeps h = record {
    done_is = elim (Bool-cases (j == id)) [
      | inl same ↦
          let kept =
            subst (λ k. (c.calls k).done ≡ (f (c.calls k)).done) ((==_iff j id).0 same) keeps in
          rw same (sym kept ∙ h.done_is)
      | inr other ↦ rw other h.done_is
    ];
    room = h.room;
    heard = h.heard;
  }

  fail_call-Hears :
      (j : ℕ) (e : Option Err) (c : Client V) → Hears id ch c → Hears id ch (fail_call j e c)
  unfolding fail_call
  fail_call-Hears j e c h =
      call_done-Hears j (record c { calls = edit j (λ k. record k { error = e }) c.calls })
        (edited-Hears (λ k. record k { error = e }) j c refl h)

  -- The rest of a client does not matter.
  pub same-Hears :
      (c d : Client V)
      → d.calls ≡ c.calls
      → d.channels ≡ c.channels
      → d.completed ≡ c.completed
      → Hears id ch c
      → Hears id ch d
  same-Hears c d calls channels completed h = record {
    done_is = rw calls h.done_is;
    room = rw channels h.room;
    heard = rw (channels, completed) h.heard;
  }

module _ {V : Type 0} (cs : Codec V) where
  decoded_reply-done :
      (r : V × Option Err) (call : Call V) → (decoded_reply cs r call).0.done ≡ call.done
  unfolding decoded_reply
  decoded_reply-done (v, none) call = refl
  decoded_reply-done (v, some e) call = refl

  error_reply-done : (m : Message) (call : Call V) → (error_reply cs m call).done ≡ call.done
  unfolding error_reply
  error_reply-done m call = ground arith

  normal_reply-done : (m : Message) (call : Call V) → (normal_reply cs m call).0.done ≡ call.done
  unfolding normal_reply
  normal_reply-done m call =
      let r = cs.unmarshal (serialize_type m.header) m.payload call.reply in
      ground (
        arith,
        decoded_reply-done r call,
        decoded_reply-done r (record call { res_metadata = m.metadata }),
      )

  reply_to-done : (m : Message) (call : Call V) → (reply_to cs m call).0.done ≡ call.done
  unfolding reply_to
  reply_to-done m call = ground (arith, error_reply-done m call, normal_reply-done m call)

  module _ (id ch : ℕ) where
    pub work-Hears :
        (t : Errand) (j : ℕ) (c : Client V) → Hears id ch c → Hears id ch (work cs t j c)
    work-Hears (replies m) j c h =
        edited-Hears id ch (λ k. (reply_to cs m k).0) j c (sym (reply_to-done m (c.calls j))) h
    work-Hears (fails e) j c h = edited-Hears id ch (λ k. record k { error = some e }) j c refl h
    work-Hears announces j c h = h

module _ {V : Type 0} (id ch : ℕ) where
  pub reserve-Hears : (j : ℕ) (c : Client V) → Hears id ch c → Hears id ch (reserve j c).0
  unfolding reserve
  reserve-Hears j c h = elim (Bool-cases (c.is_shutdown || c.closing)) [
    | inl closed ↦ rw closed (fail_call-Hears id ch j (some shutdown) c h)
    | inr running ↦
        elim (Bool-cases
          (not (has_codec (type_for (is_heartbeat_call (c.calls j)) c.serialize_type)))) [
            | inl bad ↦ rw (running, bad) (fail_call-Hears id ch j (some unsupported_codec) c h)
            | inr good ↦
                rw (running, good)
                  (same-Hears id ch
                    (record c { calls = edit j (λ k. record k { seq_cell = c.seq }) c.calls }) _
                    refl refl refl
                    (edited-Hears id ch (λ k. record k { seq_cell = c.seq }) j c refl h))
          ]
  ]

  pub drop_pending-Hears : (s : ℕ) (c : Client V) → Hears id ch c → Hears id ch (drop_pending s c)
  unfolding drop_pending
  drop_pending-Hears s c h = same-Hears id ch c _ refl refl refl h

  fail_all-Hears :
      (m : Map ℕ ℕ) (e : Option Err) (c : Client V) → Hears id ch c → Hears id ch (fail_all m e c)
  unfolding fail_all
  fail_all-Hears [] e c h = h
  fail_all-Hears ((s, j) ∷ m) e c h = fail_all-Hears m e _ (fail_call-Hears id ch j e c h)

  pub end_input-Hears : (e : Err) (c : Client V) → Hears id ch c → Hears id ch (end_input e c)
  unfolding end_input
  end_input-Hears e c h = fail_all-Hears _ _ _ (same-Hears id ch c _ refl refl refl h)

  close_pending-Hears :
      (m : Map ℕ ℕ) (c : Client V) → Hears id ch c → Hears id ch (close_pending m c)
  unfolding close_pending drop_pending
  close_pending-Hears [] c h = h
  close_pending-Hears ((s, j) ∷ m) c h = close_pending-Hears m _ (
      fail_call-Hears id ch j (some shutdown) _
        (same-Hears id ch c (drop_pending s c) refl refl refl h))

  pub close-Hears : (e : Option Err) (c : Client V) → Hears id ch c → Hears id ch (close e c).0
  unfolding close
  close-Hears e c h =
      let k = close_pending-Hears c.pending c h in
      let d = close_pending c.pending c in
      elim (Bool-cases (d.closing || d.is_shutdown)) [
        | inl closed ↦ rw closed k
        | inr running ↦ rw running (same-Hears id ch d _ refl refl refl k)
      ]
