-- ===== src/Prelude/Bytes.antt =====
-- Bytes, and encoding/binary's BigEndian: unsigned words as sequences of bytes, highest first.
use a_simple_rpc.Prelude.Tests.{leb, if◌then◌else◌}
use a_simple_rpc.Prelude.Lists.{length, length-append, take, drop, All, All-append}
use Prim.Native.Nat.{ℕ, zero, suc, ◌+◌, ◌-◌, ◌*◌, ◌/◌, ◌%◌, ◌^◌, ◌<◌}
use Prim.Native.Char.{code}
use Prim.Native.String.{String}
use mathlib.Core.Path.{◌≡◌, refl}
use mathlib.Core.Bool.{◌&&◌}
use mathlib.Core.List.{List, [], ◌∷◌, ◌++◌}
use mathlib.Core.Option.{Option, none, some}
use native.Mathlib.Omega.{arith}
use native.Mathlib.Nat.{pow-suc}

abbrev pub Bytes : Type 0
Bytes = List ℕ

-- A Go string: its bytes.
abbrev pub Text : Type 0
Text = List ℕ

-- A literal of the source; all of them are ASCII.
abbrev pub codes : String → Text
codes String.[] = []
codes (String.◌∷◌ c s) = code c ∷ codes s

abbrev pub IsByte : ℕ → Type 0
IsByte b = b < 256

abbrev pub u32 : ℕ → ℕ
u32 n = n % 2 ^ 32

-- The `n` lowest bytes of `v`.
unfoldable pub put_be : ℕ → ℕ → Bytes
put_be zero v = []
put_be (suc n) v = put_be n (v / 256) ++ (v % 256 ∷ [])

unfoldable pub be_from : ℕ → Bytes → ℕ
be_from acc [] = acc
be_from acc (b ∷ bs) = be_from (acc * 256 + b) bs

abbrev pub get_be : Bytes → ℕ
get_be bs = be_from 0 bs

pub length-put_be : (n v : ℕ) → length (put_be n v) ≡ n
unfolding put_be
length-put_be zero v = refl
length-put_be (suc n) v =
    omega (arith, length-append (put_be n (v / 256)) (v % 256 ∷ []), length-put_be n (v / 256))

pub put_be-IsByte : (n v : ℕ) → All IsByte (put_be n v)
unfolding put_be
put_be-IsByte zero v = tt
put_be-IsByte (suc n) v =
    All-append IsByte (put_be n (v / 256)) _ (put_be-IsByte n (v / 256)) (omega arith, tt)

be_from-append :
    (acc : ℕ) (xs : Bytes) (y : ℕ) → be_from acc (xs ++ (y ∷ [])) ≡ be_from acc xs * 256 + y
unfolding be_from
be_from-append acc [] y = refl
be_from-append acc (x ∷ xs) y = be_from-append (acc * 256 + x) xs y

-- A word that fits its width is read back.
pub get_be-put_be : (n v : ℕ) → v < 256 ^ n → get_be (put_be n v) ≡ v
unfolding put_be
get_be-put_be zero v h = unfold be_from in omega arith
get_be-put_be (suc n) v h = omega (
  arith,
  be_from-append 0 (put_be n (v / 256)) (v % 256),
  get_be-put_be n (v / 256) (omega (arith, pow-suc 256 n)),
)

be_from-lt :
    (acc n : ℕ) (bs : Bytes)
    → All IsByte bs
    → acc < 256 ^ n
    → be_from acc bs < 256 ^ (n + length bs)
unfolding be_from
be_from-lt acc n [] h lt = ground arith
be_from-lt acc n (b ∷ bs) h lt =
    let k : n + suc (length bs) ≡ suc n + length bs = omega arith in
    rw k (be_from-lt (acc * 256 + b) (suc n) bs h.1 (omega (arith, pow-suc 256 n, h.0)))

pub get_be-lt : (bs : Bytes) → All IsByte bs → get_be bs < 256 ^ length bs
get_be-lt bs h =
    let k : 0 + length bs ≡ length bs = omega arith in rw k at (be_from-lt 0 0 bs h (omega arith))

-- `copy(dst[at:], src)`: as much of `src` as the rest of `dst` can take.
unfoldable pub copy_at : ℕ → Bytes → Bytes → Bytes
copy_at at src dst = take at dst ++ take (length dst - at) src ++ drop (at + length src) dst

-- Go's `data[lo:hi]` on a slice with these bytes up to its capacity; `none` is a panic.
unfoldable pub slice : Bytes → ℕ → ℕ → Option Bytes
slice bs lo hi =
    if leb lo hi && leb hi (length bs) then some (take (hi - lo) (drop lo bs)) else none
