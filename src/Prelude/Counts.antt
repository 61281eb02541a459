-- ===== src/Prelude/Counts.antt =====
-- How often a number is in a list, and sets of numbers as lists.
use a_simple_rpc.Prelude.Tests.{if◌then◌else◌, ◌==◌, ==_iff}
use Prim.Native.Nat.{ℕ, ◌+◌}
use mathlib.Core.Path.{◌≡◌, refl}
use mathlib.Core.Bool.{Bool}
use mathlib.Core.List.{List, [], ◌∷◌, ◌++◌}
use native.Mathlib.Omega.{arith}

abbrev pub one : Bool → ℕ
one b = if b then 1 else 0

abbrev pub count : ℕ → List ℕ → ℕ
count id [] = 0
count id (j ∷ js) = one (j == id) + count id js

-- A member, and `delete` on the keys of a map.
abbrev pub remove_all : ℕ → List ℕ → List ℕ
remove_all c [] = []
remove_all c (x ∷ xs) = if x == c then remove_all c xs else x ∷ remove_all c xs

pub count-append : (id : ℕ) (xs ys : List ℕ) → count id (xs ++ ys) ≡ count id xs + count id ys
count-append id [] ys = omega arith
count-append id (x ∷ xs) ys = omega (arith, count-append id xs ys)

pub count-snoc : (id j : ℕ) (xs : List ℕ) → count id (xs ++ (j ∷ [])) ≡ count id xs + one (j == id)
count-snoc id j xs = omega (arith, count-append id xs (j ∷ []))

pub count-remove_all :
    (id c : ℕ) (xs : List ℕ) → count id (remove_all c xs) ≡ (if c == id then 0 else count id xs)
count-remove_all id c [] = ground arith
count-remove_all id c (x ∷ xs) =
    let rest = count-remove_all id c xs in ground (arith, ==_iff c id, ==_iff x c, ==_iff x id)

-- One taken out of the middle of a list.
pub count-middle :
    (id c : ℕ) (all xs ys : List ℕ)
    → all ≡ xs ++ (c ∷ ys)
    → count id all ≡ one (c == id) + count id (xs ++ ys)
count-middle id c all xs ys e =
    rw e (omega (arith, count-append id xs (c ∷ ys), count-append id xs ys))

pub count-nil : (xs : List ℕ) → ((id : ℕ) → count id xs ≡ 0) → xs ≡ []
count-nil [] h = refl
count-nil (x ∷ xs) h = absurd (ground (arith, h x, ==_iff x x))
