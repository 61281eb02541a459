-- ===== src/Client/Discovery/Interface.antt =====
-- The interface `ServiceDiscovery` of client/discovery.go, what its implementations promise, and its
-- client `NewXClient` of client/xclient.go.
pub mod Implementations
pub mod Lost
use a_simple_rpc.Prelude.{
  ℕ, ◌+◌, ◌≡◌, refl, sym, ap, ◌∙◌, Bool, true, false, List, [], ◌∷◌, ◌++◌, Option, none, some, ◌==◌,
  ==_iff, if◌then◌else◌, arith, count, one, remove_all, append-nil, Bool-cases, inl, inr,
}
use a_simple_rpc.Prelude.Int.{ℤ}
use a_simple_rpc.Client.Selector.{KvPair, SelectMode}
use a_simple_rpc.Client.XClient.{FailMode, XClient, new_xclient}

-- `GetService`, `WatchService` with the channel or nil, and `RemoveWatcher`, on a discovery in state D.
-- `Close` does nothing in any of them.
pub record ServiceDiscovery (D : Type 0) : Type 0 where
  pub pairs : D → List KvPair
  pub watch : D → D × Option ℕ
  pub unwatch : ℕ → D → D

abbrev pub channels_of : Option ℕ → List ℕ
channels_of none = []
channels_of (some ch) = ch ∷ []

-- The laws: a discovery has channels that it sends updates on. `IsSound` is what its operations keep.
pub record IsDiscovery {D : Type 0} (s : ServiceDiscovery D) (channels : D → List ℕ)
    (IsSound : D → Type 0) : Type 0 where
  pub watched : (d : D) → channels (s.watch d).0 ≡ channels d ++ channels_of (s.watch d).1
  pub fresh : (d : D) (ch : ℕ) → IsSound d → (s.watch d).1 ≡ some ch → count ch (channels d) ≡ 0
  pub unwatched : (d : D) (ch : ℕ) → channels (s.unwatch ch d) ≡ remove_all ch (channels d)
  pub watch_pairs : (d : D) → s.pairs (s.watch d).0 ≡ s.pairs d
  pub unwatch_pairs : (d : D) (ch : ℕ) → s.pairs (s.unwatch ch d) ≡ s.pairs d
  pub watch_sound : (d : D) → IsSound d → IsSound (s.watch d).0
  pub unwatch_sound : (d : D) (ch : ℕ) → IsSound d → IsSound (s.unwatch ch d)

-- `NewXClient`: the client, the discovery, and the channel on which `watch` runs, if there is one. The
-- discovery has the first state at `GetService` and the second at `WatchService`; updates may come in
-- between.
unfoldable pub start_client :
    {D : Type 0} → ServiceDiscovery D → FailMode → SelectMode → ℤ → D → D → XClient × D × Option ℕ
start_client s fail_mode select_mode retries d later =
    let (later', ch) = s.watch later in
    (new_xclient fail_mode select_mode retries (s.pairs d), later', ch)

-- `RemoveWatcher` of a channel that may be nil.
abbrev pub unwatch_all : {D : Type 0} → ServiceDiscovery D → Option ℕ → D → D
unwatch_all s none d = d
unwatch_all s (some ch) d = s.unwatch ch d

remove_all-last : (ch : ℕ) (xs : List ℕ) → count ch xs ≡ 0 → remove_all ch (xs ++ (ch ∷ [])) ≡ xs
remove_all-last ch [] h = let same : (ch == ch) ≡ true = (==_iff ch ch).1 refl in rw same refl
remove_all-last ch (x ∷ xs) h =
    let rest = remove_all-last ch xs (omega (arith, h)) in
    elim (Bool-cases (x == ch)) [
      | inl same ↦ let one_ : one (x == ch) ≡ 1 = rw same refl in absurd (omega (arith, h, one_))
      | inr other ↦ rw other (ap (λ ys. x ∷ ys) rest)
    ]

module _ {D : Type 0} (s : ServiceDiscovery D) (channels : D → List ℕ) (IsSound : D → Type 0)
    (laws : IsDiscovery s channels IsSound) where
  -- Removing a channel that was just made leaves the pairs and the channels as they were.
  pub unwatch-watch :
      (d : D) (o : Option ℕ)
      → IsSound d
      → (s.watch d).1 ≡ o
      → (channels (unwatch_all s o (s.watch d).0) ≡ channels d)
        × (s.pairs (unwatch_all s o (s.watch d).0) ≡ s.pairs d)
        × IsSound (unwatch_all s o (s.watch d).0)
  unwatch-watch d none sound e = (
    laws.watched d ∙ rw e (append-nil (channels d)),
    laws.watch_pairs d,
    laws.watch_sound d sound,
  )
  unwatch-watch d (some ch) sound e =
      let d' = (s.watch d).0 in
      (
        laws.unwatched d' ch
            ∙ rw (laws.watched d, e) (remove_all-last ch (channels d) (laws.fresh d ch sound e)),
        laws.unwatch_pairs d' ch ∙ laws.watch_pairs d,
        laws.unwatch_sound d' ch (laws.watch_sound d sound),
      )
