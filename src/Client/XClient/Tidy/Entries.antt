-- ===== src/Client/XClient/Tidy/Entries.antt =====
-- The entries of the cache: what a dial puts in.
use a_simple_rpc.Prelude.{
  ℕ, ◌+◌, ◌<◌, ◌≡◌, ◌≢◌, All-map, refl, sym, ap, ◌∙◌, false, Option, none, some, arith, text_eq,
  nat_eq, bytes_eq, bytes_eq_refl, bytes_eq_iff, ◌⊎◌, Bool-cases, inl, inr,
}
use a_simple_rpc.Prelude.Bytes.{Text}
use a_simple_rpc.Prelude.Maps.{Map, lookup, insert, lookup-insert}
use a_simple_rpc.Outcome.{Err}
use a_simple_rpc.Client.XClient.{XClient, Got, contains, store_client}
use a_simple_rpc.Client.XClient.Tidy.{IsTidy, All-lookup, All-insert}

-- A tidy client that answers with a connection of its cache, or with none.
abbrev pub Held : Text → Got → Type 0
Held k (none, e, x) = IsTidy x
Held k (some c, e, x) = IsTidy x × (lookup k x.cached_client ≡ some c)

pub Held-IsTidy : (k : Text) (g : Got) → Held k g → IsTidy g.2
Held-IsTidy k (none, e, x) t = t
Held-IsTidy k (some c, e, x) t = t.0

-- The next connection is made, and put into the cache.
made-IsTidy :
    (x : XClient) → IsTidy x → IsTidy (record x { next_id = x.next_id + 1; clock = x.clock + 1 })
made-IsTidy x t = record {
  made =
      All-map (λ e. e.1 < x.next_id) (λ e. e.1 < x.next_id + 1) x.cached_client
        (λ e p. omega (arith, p)) t.made;
  usable = t.usable;
  apart = t.apart;
  past = λ c h. omega (arith, t.past c h);
}

lookup-inserted :
    (k j : Text) (c d : ℕ) (m : Map Text ℕ)
    → lookup j (insert k c m) ≡ some d
    → ((k ≡ j) × (c ≡ d)) ⊎ (lookup j m ≡ some d)
lookup-inserted k j c d m e = elim (Bool-cases (bytes_eq k j)) [
  | inl here ↦ inl ((bytes_eq_iff k j).0 here, ground (arith, lookup-insert k j c m, e, here))
  | inr later ↦ inr (ground (arith, lookup-insert k j c m, e, later))
]

inserted-IsTidy :
    (k : Text) (c : ℕ) (x : XClient)
    → c < x.next_id
    → contains c x.closed ≡ false
    → ((j : Text) → lookup j x.cached_client ≢ some c)
    → IsTidy x
    → IsTidy (record x { cached_client = insert k c x.cached_client })
inserted-IsTidy k c x made open_ new t = record {
  made = All-insert (λ e. e.1 < x.next_id) x.cached_client k c made t.made;
  usable = λ j d e. elim (lookup-inserted k j c d x.cached_client e) [
    | inl (_, same) ↦ rw⁻¹ same open_
    | inr old ↦ t.usable j d old
  ];
  apart = λ i j d e f. elim (lookup-inserted k i c d x.cached_client e) [
    | inl (k_i, same) ↦ elim (lookup-inserted k j c d x.cached_client f) [
      | inl (k_j, _) ↦ (bytes_eq_iff i j).1 (sym k_i ∙ k_j)
      | inr old ↦ absurd (new j (old ∙ ap some (sym same)))
    ]
    | inr old ↦ elim (lookup-inserted k j c d x.cached_client f) [
      | inl (_, same) ↦ absurd (new i (old ∙ ap some (sym same)))
      | inr old' ↦ t.apart i j d old old'
    ]
  ];
  past = t.past;
}

-- The connection that was made last, with the error of its dial.
pub stored-Held :
    (k : Text) (x : XClient) (e : Option Err)
    → IsTidy x
    → Held k (
        store_client k
          (some x.next_id, e, record x { next_id = x.next_id + 1; clock = x.clock + 1 }))
unfolding store_client
stored-Held k x (some e) t = made-IsTidy x t
stored-Held k x none t = (
  inserted-IsTidy k x.next_id (record x { next_id = x.next_id + 1; clock = x.clock + 1 })
      (omega arith) unused
      (λ j h. absurd (
        let old =
          All-lookup (λ e. e.1 < x.next_id) x.cached_client j x.next_id (λ i p. p) t.made h in
        omega (arith, old)))
      (made-IsTidy x t),
  rw (lookup-insert k k x.next_id x.cached_client, bytes_eq_refl k) refl,
)
  where
    unused : contains x.next_id x.closed ≡ false
    unused = elim (Bool-cases (contains x.next_id x.closed)) [
      | inl closed ↦ absurd (let old = t.past x.next_id closed in omega (arith, old))
      | inr fresh ↦ fresh
    ]
