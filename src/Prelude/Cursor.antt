-- ===== src/Prelude/Cursor.antt =====
-- Reading a byte sequence piece by piece: what a slice expression at a known position gives.
use a_simple_rpc.Prelude.Tests.{le→leb}
use a_simple_rpc.Prelude.Lists.{length, length-append, drop, take-append, drop-append, drop-add}
use a_simple_rpc.Prelude.Bytes.{Bytes, slice}
use Prim.Native.Nat.{ℕ, ◌+◌, ◌-◌}
use mathlib.Core.Path.{◌≡◌, refl, ap}
use mathlib.Core.List.{◌++◌}
use mathlib.Core.Option.{some}
use native.Mathlib.Omega.{arith}

-- At position `n` of `buf`, exactly `rest` is still to come.
pub record At (buf : Bytes) (n : ℕ) (rest : Bytes) : Type 0 where
  pub ends : n + length rest ≡ length buf
  pub left : drop n buf ≡ rest

pub At-zero : (buf : Bytes) → At buf 0 buf
At-zero buf = record { ends = omega arith; left = refl }

module _ (buf : Bytes) (n : ℕ) (mid post : Bytes) (at : At buf n (mid ++ post)) where
  pub slice-At : (hi : ℕ) → hi ≡ n + length mid → slice buf n hi ≡ some mid
  unfolding slice
  slice-At hi e =
      let size : hi - n ≡ length mid = omega arith in
      rw
        (
          le→leb n hi (omega arith),
          le→leb hi (length buf) (omega (arith, at.ends, length-append mid post)),
          at.left,
          size,
        )
        (ap some (take-append mid post))

  pub At-next : (hi : ℕ) → hi ≡ n + length mid → At buf hi post
  At-next hi e = record {
    ends = omega (arith, at.ends, length-append mid post);
    left = rw (e, ← drop-add n (length mid) buf, at.left) (drop-append mid post);
  }
