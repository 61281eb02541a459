-- ===== src/Client/Connection/Pending.antt =====
-- The map of pending calls of a connection, as a ledger: which sequence numbers are in it, and how
-- often each call.
use a_simple_rpc.Prelude.{
  one, ℕ, suc, ◌+◌, ◌≤◌, ◌<◌, ◌≡◌, refl, [], ◌∷◌, Option, none, some, ◌==◌, ==_iff, Bool-cases, inl,
  inr, nat_eq, arith,
}
use a_simple_rpc.Prelude.Maps.{Map, lookup, insert, delete}

-- How often a call is waiting in a map.
abbrev pub waiting : ℕ → Map ℕ ℕ → ℕ
waiting id [] = 0
waiting id ((s, j) ∷ m) = one (j == id) + waiting id m

abbrev pub found : ℕ → Option ℕ → ℕ
found id none = 0
found id (some j) = one (j == id)

-- The numbers ascend from `lo` on and stay below `hi`.
abbrev pub IsNumbered : ℕ → ℕ → Map ℕ ℕ → Type 0
IsNumbered lo hi [] = lo ≤ hi
IsNumbered lo hi ((s, j) ∷ m) = (lo ≤ s) × IsNumbered (suc s) hi m

pub IsNumbered-le : (lo hi : ℕ) (m : Map ℕ ℕ) → IsNumbered lo hi m → lo ≤ hi
IsNumbered-le lo hi [] h = h
IsNumbered-le lo hi ((s, j) ∷ m) h = omega (arith, IsNumbered-le (suc s) hi m h.1)

pub IsNumbered-insert :
    (lo s j : ℕ) (m : Map ℕ ℕ) → IsNumbered lo s m → IsNumbered lo (suc s) (insert s j m)
unfolding insert
IsNumbered-insert lo s j [] h = (h, omega arith)
IsNumbered-insert lo s j ((k, i) ∷ m) h =
    let below = IsNumbered-le (suc k) s m h.1 in
    let rest = IsNumbered-insert (suc k) s j m h.1 in ground (arith, ==_iff k s)

pub waiting-insert :
    (id lo s j : ℕ) (m : Map ℕ ℕ)
    → IsNumbered lo s m
    → waiting id (insert s j m) ≡ waiting id m + one (j == id)
unfolding insert
waiting-insert id lo s j [] h = omega arith
waiting-insert id lo s j ((k, i) ∷ m) h =
    let below = IsNumbered-le (suc k) s m h.1 in
    let rest = waiting-insert id (suc k) s j m h.1 in ground (arith, ==_iff k s)

-- A number below all of them is not there.
pub delete-absent : (s lo hi : ℕ) (m : Map ℕ ℕ) → s < lo → IsNumbered lo hi m → delete s m ≡ m
unfolding delete
delete-absent s lo hi [] l h = refl
delete-absent s lo hi ((k, i) ∷ m) l h =
    let rest = delete-absent s (suc k) hi m (omega arith) h.1 in ground (arith, ==_iff k s)

lookup-absent : (s lo hi : ℕ) (m : Map ℕ ℕ) → s < lo → IsNumbered lo hi m → lookup s m ≡ none
unfolding lookup
lookup-absent s lo hi [] l h = refl
lookup-absent s lo hi ((k, i) ∷ m) l h =
    let rest = lookup-absent s (suc k) hi m (omega arith) h.1 in ground (arith, ==_iff k s)

IsNumbered-raise : (l lo hi : ℕ) (m : Map ℕ ℕ) → l ≤ lo → IsNumbered lo hi m → IsNumbered l hi m
IsNumbered-raise l lo hi [] le h = omega arith
IsNumbered-raise l lo hi ((k, i) ∷ m) le h = (omega arith, h.1)

pub IsNumbered-delete :
    (s lo hi : ℕ) (m : Map ℕ ℕ) → IsNumbered lo hi m → IsNumbered lo hi (delete s m)
unfolding delete
IsNumbered-delete s lo hi [] h = h
IsNumbered-delete s lo hi ((k, i) ∷ m) h =
    let rest = IsNumbered-delete s (suc k) hi m h.1 in
    let low = IsNumbered-raise lo (suc k) hi (delete s m) (omega arith) rest in ground arith

-- Deleting a number takes out the call that was found under it, and no other.
pub waiting-delete :
    (id s lo hi : ℕ) (m : Map ℕ ℕ)
    → IsNumbered lo hi m
    → waiting id (delete s m) + found id (lookup s m) ≡ waiting id m
unfolding delete lookup
waiting-delete id s lo hi [] h = refl
waiting-delete id s lo hi ((k, i) ∷ m) h = elim (Bool-cases (k == s)) [
  | inl same ↦
      let gone = delete-absent s (suc k) hi m (omega (arith, (==_iff k s).0 same)) h.1 in
      rw (same, gone) (omega arith)
  | inr other ↦ let rest = waiting-delete id s (suc k) hi m h.1 in rw other (omega arith)
]
