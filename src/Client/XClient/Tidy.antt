-- ===== src/Client/XClient/Tidy.antt =====
-- The cache of connections over the life of an xclient.
pub mod Entries
pub mod Calls
pub mod Runs
use a_simple_rpc.Prelude.{
  ℕ, zero, suc, ◌+◌, ◌<◌, ◌≡◌, ◌≢◌, All, All-map, subst, refl, sym, ap, ◌∙◌, Bool, true, false,
  ◌||◌, List, [], ◌∷◌, Option, none, some, ◌==◌, ==_iff, if◌then◌else◌, arith, text_eq, nat_eq,
  bytes_eq, bytes_eq_refl, bytes_eq_iff, Bool-cases, inl, inr,
}
use a_simple_rpc.Prelude.Bytes.{Text}
use a_simple_rpc.Prelude.Maps.{Map, lookup, insert, delete, lookup-insert, lookup-delete}
use a_simple_rpc.Outcome.{Err, xclient_shutdown}
use a_simple_rpc.Client.Selector.{KvPair, select}
use a_simple_rpc.Client.XClient.{
  FailMode, fail_over, fail_fast, fail_try, fail_backup, World, Flight, alone, XClient, Got,
  contains, close_client, close_all, close, remove_client, is_dead, generate_client, single_flight,
  store_client, dial_client, check_cached, get_cached_client, select_client, call, go, wrap_call,
  again, retry_loop, fast_call, by_mode, rounds, uncover_error, drop_failed, new_xclient, on_change,
}

-- The cache hands out no connection that the client has closed, and no connection under two names.
pub record IsTidy (x : XClient) : Type 0 where
  pub made : All (λ e. e.1 < x.next_id) x.cached_client
  pub usable : (k : Text) (c : ℕ) → lookup k x.cached_client ≡ some c → contains c x.closed ≡ false
  pub apart :
      (k j : Text) (c : ℕ)
      → lookup k x.cached_client ≡ some c
      → lookup j x.cached_client ≡ some c
      → bytes_eq k j ≡ true
  pub past : (c : ℕ) → contains c x.closed ≡ true → c < x.next_id

-- What holds of every entry of a map holds of what is looked up, and of what is left or put in.
module _ (P : Text × ℕ → Type 0) where
  pub All-lookup :
      (m : Map Text ℕ) (k : Text) (c : ℕ)
      → ((j : Text) → P (j, c) → P (k, c))
      → All P m
      → lookup k m ≡ some c
      → P (k, c)
  unfolding lookup
  All-lookup [] k c any h e = absurd (cc e)
  All-lookup ((j, d) ∷ m) k c any (p, h) e = elim (Bool-cases (bytes_eq j k)) [
    | inl here ↦ let same : d ≡ c = ground (arith, e, here) in any j (subst (λ n. P (j, n)) same p)
    | inr later ↦ All-lookup m k c any h (ground (arith, e, later))
  ]

  All-delete : (m : Map Text ℕ) (k : Text) → All P m → All P (delete k m)
  unfolding delete
  All-delete [] k h = tt
  All-delete ((j, d) ∷ m) k (p, h) = elim (Bool-cases (bytes_eq j k)) [
    | inl here ↦ rw here (All-delete m k h)
    | inr later ↦ rw later (p, All-delete m k h)
  ]

  pub All-insert : (m : Map Text ℕ) (k : Text) (c : ℕ) → P (k, c) → All P m → All P (insert k c m)
  unfolding insert
  All-insert [] k c q h = (q, tt)
  All-insert ((j, d) ∷ m) k c q (p, h) = elim (Bool-cases (bytes_eq j k)) [
    | inl here ↦ rw here (q, h)
    | inr later ↦ rw later (p, All-insert m k c q h)
  ]

-- A client with the same connections and the same cache.
pub same-IsTidy :
    (x y : XClient)
    → y.cached_client ≡ x.cached_client
    → y.closed ≡ x.closed
    → y.next_id ≡ x.next_id
    → IsTidy x
    → IsTidy y
same-IsTidy x y cached closed next_id t = record {
  made = rw (cached, next_id) t.made;
  usable = rw (cached, closed) t.usable;
  apart = rw cached t.apart;
  past = rw (closed, next_id) t.past;
}

lookup-deleted :
    (j k : Text) (m : Map Text ℕ) (c : ℕ) → lookup k (delete j m) ≡ some c → lookup k m ≡ some c
lookup-deleted j k m c e = ground (arith, lookup-delete j k m, e)

pub deleted-IsTidy :
    (k : Text) (x : XClient)
    → IsTidy x
    → IsTidy (record x { cached_client = delete k x.cached_client })
deleted-IsTidy k x t = record {
  made = All-delete (λ e. e.1 < x.next_id) x.cached_client k t.made;
  usable = λ j c e. t.usable j c (lookup-deleted k j x.cached_client c e);
  apart = λ i j c e f.
      t.apart i j c (lookup-deleted k i x.cached_client c e)
        (lookup-deleted k j x.cached_client c f);
  past = t.past;
}

-- A connection that is not in the cache is closed.
close_client-IsTidy :
    (c : ℕ) (x : XClient)
    → c < x.next_id
    → ((k : Text) → lookup k x.cached_client ≢ some c)
    → IsTidy x
    → IsTidy (close_client c x)
unfolding close_client
close_client-IsTidy c x made absent t = record {
  made = t.made;
  usable = λ k d e. elim (Bool-cases (c == d)) [
    | inl same ↦ absurd (absent k (e ∙ ap some (sym ((==_iff c d).0 same))))
    | inr other ↦ rw other (t.usable k d e)
  ];
  apart = t.apart;
  past = λ d h. elim (Bool-cases (c == d)) [
    | inl same ↦ rw⁻¹ ((==_iff c d).0 same) made
    | inr other ↦ t.past d (ground (arith, h, other))
  ];
}

-- `Close` empties the cache.
close_all-past :
    (m : Map Text ℕ) (x : XClient)
    → All (λ e. e.1 < x.next_id) m
    → ((c : ℕ) → contains c x.closed ≡ true → c < x.next_id)
    → (c : ℕ) → contains c (close_all m x).closed ≡ true
    → c < (close_all m x).next_id
unfolding close_all close_client
close_all-past [] x made past = past
close_all-past ((k, d) ∷ m) x (p, made) past =
    close_all-past m (record x { closed = d ∷ x.closed }) made
      λ c h. elim (Bool-cases (d == c)) [
        | inl same ↦ rw⁻¹ ((==_iff d c).0 same) p
        | inr other ↦ past c (ground (arith, h, other))
      ]

pub close-IsTidy : (x : XClient) → IsTidy x → IsTidy (close x)
unfolding close lookup
close-IsTidy x t = record {
  made = tt;
  usable = λ k c e. absurd (cc e);
  apart = λ k j c e f. absurd (cc e);
  past = close_all-past x.cached_client x t.made t.past;
}

-- `removeClient` on what the cache has under this name.
pub remove_client-IsTidy :
    (k : Text) (c : ℕ) (x : XClient)
    → lookup k x.cached_client ≡ some c
    → IsTidy x
    → IsTidy (remove_client k (some c) x)
unfolding remove_client
remove_client-IsTidy k c x cached t =
    let same : (c == c) ≡ true = (==_iff c c).1 refl in
    let self : bytes_eq k k ≡ true = bytes_eq_refl k in
    rw (cached, same)
      (close_client-IsTidy c (record x { cached_client = delete k x.cached_client })
        (All-lookup (λ e. e.1 < x.next_id) x.cached_client k c (λ j p. p) t.made cached)
        (λ j e.
          let here = t.apart k j c cached (lookup-deleted k j x.cached_client c e) in
          ground (arith, lookup-delete k j x.cached_client, e, here))
        (deleted-IsTidy k x t))
