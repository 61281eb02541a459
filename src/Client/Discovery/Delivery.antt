-- ===== src/Client/Discovery/Delivery.antt =====
-- The goroutines around a discovery: its handler of updates, the senders, and the watchers.
use a_simple_rpc.Prelude.{
  IsAmong, first, later, ℕ, ◌≤◌, ◌≡◌, refl, sym, ap, subst, List, [], ◌∷◌, ◌++◌, none, some, ◌==◌,
  if◌then◌else◌, length, length-append, ltb, arith, All, All-append, All-map, All-middle,
  All-put_middle, Bool, true, false,
}
use a_simple_rpc.Prelude.Bytes.{Text}
use a_simple_rpc.Client.Selector.{KvPair}
use a_simple_rpc.Client.Discovery.{
  Entry, Discovery, new_discovery, watch_service, remove_watcher, pairs_of, Sender, started, loaded,
  senders, handler, send_on,
}

-- The buffered lists of each channel, the senders that run, the lists that the discovery has had, the
-- newest first, and what watchers have taken.
pub record Net : Type 0 where
  pub discovery : Discovery
  pub queues : ℕ → List (List KvPair)
  pub running : List Sender
  pub history : List (List KvPair)
  pub delivered : List (ℕ × List KvPair)

abbrev pub begin : List KvPair → Net
begin pairs = record {
  discovery = new_discovery pairs;
  queues = λ ch. [];
  running = [];
  history = pairs ∷ [];
  delivered = [];
}

abbrev pub refill : ℕ → List (List KvPair) → (ℕ → List (List KvPair)) → ℕ → List (List KvPair)
refill ch q queues j = if ch == j then q else queues j

pub data Step (itoa : ℕ → Text) (n : Net) : Net → Type 0 where
  updates :
      (entries : List Entry)
      → Step itoa n (record n {
        discovery = (handler itoa entries n.discovery).0;
        running = n.running ++ (handler itoa entries n.discovery).1;
        history = pairs_of itoa entries ∷ n.history;
      })
  watches : Step itoa n (record n { discovery = (watch_service n.discovery).0 })
  removes : (ch : ℕ) → Step itoa n (record n { discovery = remove_watcher ch n.discovery })
  loads :
      (before after : List Sender) (ch : ℕ)
      → n.running ≡ before ++ (started ch ∷ after)
      → Step itoa n (record n { running = before ++ (loaded ch n.discovery.pairs ∷ after) })
  sends :
      (before after : List Sender) (ch : ℕ) (v : List KvPair) (q : List (List KvPair))
      → n.running ≡ before ++ (loaded ch v ∷ after)
      → send_on v (n.queues ch) ≡ some q
      → Step itoa n (record n { running = before ++ after; queues = refill ch q n.queues })
  -- After a minute.
  drops :
      (before after : List Sender) (ch : ℕ) (v : List KvPair)
      → n.running ≡ before ++ (loaded ch v ∷ after)
      → Step itoa n (record n { running = before ++ after })
  takes :
      (ch : ℕ) (v : List KvPair) (q : List (List KvPair))
      → n.queues ch ≡ v ∷ q
      → Step itoa n (record n { queues = refill ch q n.queues; delivered = (ch, v) ∷ n.delivered })

pub data Reach (itoa : ℕ → Text) (n : Net) : Net → Type 0 where
  here : Reach itoa n n
  next : {m k : Net} → Reach itoa n m → Step itoa m k → Reach itoa n k

-- What a sender holds is a list that the discovery had.
abbrev pub Holds : List (List KvPair) → Sender → Type 0
Holds history (started ch) = Unit {0}
Holds history (loaded ch v) = IsAmong v history

-- Every list on its way to a watcher was the discovery's, and no channel is over its capacity.
pub record IsFaithful (n : Net) : Type 0 where
  pub current : IsAmong n.discovery.pairs n.history
  pub held : All (Holds n.history) n.running
  pub buffered : (ch : ℕ) → All (λ v. IsAmong v n.history) (n.queues ch)
  pub capacity : (ch : ℕ) → length (n.queues ch) ≤ 10
  pub taken : All (λ (d : ℕ × List KvPair). IsAmong d.1 n.history) n.delivered

module _ (new : List KvPair) where
  Holds-later :
      (history : List (List KvPair)) (s : Sender) → Holds history s → Holds (new ∷ history) s
  Holds-later history (started ch) h = tt
  Holds-later history (loaded ch v) h = later new history h

  IsAmong-later :
      (history xs : List (List KvPair))
      → All (λ v. IsAmong v history) xs
      → All (λ v. IsAmong v (new ∷ history)) xs
  IsAmong-later history xs h =
      All-map (λ v. IsAmong v history) (λ v. IsAmong v (new ∷ history)) xs (λ v. later new history)
        h

senders-held : (history : List (List KvPair)) (chs : List ℕ) → All (Holds history) (senders chs)
senders-held history [] = tt
senders-held history (c ∷ cs) = (tt, senders-held history cs)

-- A send that does not wait.
send_on-some :
    (v : List KvPair) (queue q : List (List KvPair))
    → send_on v queue ≡ some q
    → (q ≡ queue ++ (v ∷ [])) × (length q ≤ 10)
unfolding send_on
send_on-some v queue q e = go (ltb (length queue) 10) refl e
  where
    go :
        (b : Bool)
        → ltb (length queue) 10 ≡ b
        → (if b then some (queue ++ (v ∷ [])) else none) ≡ some q
        → (q ≡ queue ++ (v ∷ [])) × (length q ≤ 10)
    go true l k =
        let same : queue ++ (v ∷ []) ≡ q = cc k in
        (sym same, ground (arith, ap length same, length-append queue (v ∷ []), l))
    go false l k = absurd (cc k)

refill-All :
    (P : List (List KvPair) → Type 0) (ch : ℕ) (q : List (List KvPair))
    (queues : ℕ → List (List KvPair))
    → P q
    → ((j : ℕ) → P (queues j))
    → (j : ℕ) → P (refill ch q queues j)
refill-All P ch q queues p h j = go (ch == j)
  where
    go : (b : Bool) → P (if b then q else queues j)
    go true = p
    go false = h j

module _ (itoa : ℕ → Text) where
  updates-IsFaithful :
      (n : Net) (entries : List Entry)
      → IsFaithful n
      → IsFaithful (record n {
        discovery = (handler itoa entries n.discovery).0;
        running = n.running ++ (handler itoa entries n.discovery).1;
        history = pairs_of itoa entries ∷ n.history;
      })
  unfolding handler
  updates-IsFaithful n entries h =
      let new = pairs_of itoa entries in
      record {
        current = first n.history;
        held =
            All-append (Holds (new ∷ n.history)) n.running (senders n.discovery.chans)
              (All-map (Holds n.history) (Holds (new ∷ n.history)) n.running
                (Holds-later new n.history) h.held)
              (senders-held (new ∷ n.history) n.discovery.chans);
        buffered = λ ch. IsAmong-later new n.history (n.queues ch) (h.buffered ch);
        capacity = h.capacity;
        taken =
            All-map (λ (d : ℕ × List KvPair). IsAmong d.1 n.history)
              (λ (d : ℕ × List KvPair). IsAmong d.1 (new ∷ n.history)) n.delivered
              (λ d. later new n.history) h.taken;
      }

  sends-IsFaithful :
      (n : Net) (before rest : List Sender) (ch : ℕ) (v : List KvPair) (q : List (List KvPair))
      → n.running ≡ before ++ (loaded ch v ∷ rest)
      → send_on v (n.queues ch) ≡ some q
      → IsFaithful n
      → IsFaithful (record n { running = before ++ rest; queues = refill ch q n.queues })
  sends-IsFaithful n before rest ch v q e k h =
      let (same, small) = send_on-some v (n.queues ch) q k in
      let (mine, others) =
        All-middle (Holds n.history) before (loaded ch v) rest
          (subst (All (Holds n.history)) e h.held) in
      let among : All (λ w. IsAmong w n.history) q =
        subst (All (λ w. IsAmong w n.history)) (sym same) (
          All-append (λ w. IsAmong w n.history) (n.queues ch) (v ∷ []) (h.buffered ch)
            (mine, tt)) in
      record {
        current = h.current;
        held = others;
        buffered = refill-All (All (λ w. IsAmong w n.history)) ch q n.queues among h.buffered;
        capacity = refill-All (λ w. length w ≤ 10) ch q n.queues small h.capacity;
        taken = h.taken;
      }

  takes-IsFaithful :
      (n : Net) (ch : ℕ) (v : List KvPair) (q : List (List KvPair))
      → n.queues ch ≡ v ∷ q
      → IsFaithful n
      → IsFaithful (record n { queues = refill ch q n.queues; delivered = (ch, v) ∷ n.delivered })
  takes-IsFaithful n ch v q e h =
      let among = subst (All (λ w. IsAmong w n.history)) e (h.buffered ch) in
      record {
        current = h.current;
        held = h.held;
        buffered = refill-All (All (λ w. IsAmong w n.history)) ch q n.queues among.1 h.buffered;
        capacity =
            refill-All (λ w. length w ≤ 10) ch q n.queues
              (omega (arith, h.capacity ch, ap length e)) h.capacity;
        taken = (among.0, h.taken);
      }

  Step-IsFaithful : {n m : Net} → Step itoa n m → IsFaithful n → IsFaithful m
  unfolding watch_service remove_watcher
  Step-IsFaithful {n} (updates entries) h = updates-IsFaithful n entries h
  Step-IsFaithful watches h = record {
    current = h.current;
    held = h.held;
    buffered = h.buffered;
    capacity = h.capacity;
    taken = h.taken;
  }
  Step-IsFaithful (removes ch) h = record {
    current = h.current;
    held = h.held;
    buffered = h.buffered;
    capacity = h.capacity;
    taken = h.taken;
  }
  Step-IsFaithful {n} (loads before rest ch e) h =
      let split =
        All-middle (Holds n.history) before (started ch) rest
          (subst (All (Holds n.history)) e h.held) in
      record {
        current = h.current;
        held =
            All-put_middle (Holds n.history) before (loaded ch n.discovery.pairs) rest h.current
              split.1;
        buffered = h.buffered;
        capacity = h.capacity;
        taken = h.taken;
      }
  Step-IsFaithful {n} (sends before rest ch v q e k) h = sends-IsFaithful n before rest ch v q e k h
  Step-IsFaithful {n} (drops before rest ch v e) h = record {
    current = h.current;
    held =
        (All-middle (Holds n.history) before (loaded ch v) rest
          (subst (All (Holds n.history)) e h.held)).1;
    buffered = h.buffered;
    capacity = h.capacity;
    taken = h.taken;
  }
  Step-IsFaithful {n} (takes ch v q e) h = takes-IsFaithful n ch v q e h

  -- Whichever goroutine runs first: every list of servers that a watcher of the discovery takes, or
  -- that waits for it, was at some time the discovery's own, and no channel holds more than ten.
  pub Reach-IsFaithful : (pairs : List KvPair) {n : Net} → Reach itoa (begin pairs) n → IsFaithful n
  unfolding new_discovery
  Reach-IsFaithful pairs here = record {
    current = first [];
    held = tt;
    buffered = λ ch. tt;
    capacity = λ ch. omega arith;
    taken = tt;
  }
  Reach-IsFaithful pairs (next r st) = Step-IsFaithful st (Reach-IsFaithful pairs r)
