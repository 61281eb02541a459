-- ===== src/Protocol/Metadata.antt =====
-- `encodeMetadata` and `decodeMetadata` of protocol/message.go.
pub mod RoundTrip
pub mod Ends
use a_simple_rpc.Prelude.{
  ℕ, zero, suc, ◌+◌, ◌-◌, ◌%◌, ◌^◌, Bool, List, [], ◌∷◌, ◌++◌, Option, none, some, length, ltb,
  if◌then◌else◌,
}
use a_simple_rpc.Prelude.Bytes.{Bytes, Text, u32, put_be, get_be, slice}
use a_simple_rpc.Prelude.Maps.{Map, insert}
use a_simple_rpc.Prelude.{text_eq}
use a_simple_rpc.Outcome.{Err, meta_kv_missing, Outcome, ok, panic, stuck}

-- One round of the `range` loop: the length and the bytes of a key, then of its value.
unfoldable pub encode_entry : Text × Text → Bytes
encode_entry (k, v) = put_be 4 (u32 (length k)) ++ (k ++ (put_be 4 (u32 (length v)) ++ v))

-- The order of the list is the order in which `range` meets the entries.
unfoldable pub encode_metadata : Map Text Text → Bytes
encode_metadata [] = []
encode_metadata (e ∷ m) = encode_entry e ++ encode_metadata m

-- The map read so far and the error, as `decodeMetadata` returns them together.
abbrev pub Decoded : Type 0
Decoded = Map Text Text × Option Err

-- A piece `data[lo:hi]` and what follows; `none` is a slice out of bounds.
unfoldable pub with_slice {ℓ} : {A : Type ℓ} → Bytes → ℕ → ℕ → (Bytes → Outcome A) → Outcome A
with_slice bs lo hi k = elim (slice bs lo hi) [ none ↦ panic | some piece ↦ k piece ]

-- The loop `for n < l`, with all of its variables of type uint32. `buf` holds the bytes of `data` up
-- to its capacity, which bounds a slice expression.
unfoldable pub metadata_loop : ℕ → ℕ → Bytes → ℕ → Map Text Text → Outcome Decoded
metadata_loop zero l buf n m = stuck
metadata_loop (suc fuel) l buf n m =
    let next = metadata_loop fuel l buf in
    if ltb n l
    then (with_slice buf n (u32 (n + 4)) λ key_len.
        let sl = get_be key_len in
        let n1 = u32 (n + 4) in
        if ltb (u32 (l + 2 ^ 32 - 4)) (u32 (n1 + sl))
        then ok (m, some meta_kv_missing)
        else (with_slice buf n1 (u32 (n1 + sl)) λ k.
            let n2 = u32 (n1 + sl) in
            with_slice buf n2 (u32 (n2 + 4)) λ value_len.
              let vl = get_be value_len in
              let n3 = u32 (n2 + 4) in
              if ltb l (u32 (n3 + vl))
              then ok (m, some meta_kv_missing)
              else (with_slice buf n3 (u32 (n3 + vl)) λ v. next (u32 (n3 + vl)) (insert k v m))))
    else ok (m, none)

-- Every round moves `n` on within `buf`, so one round more than `buf` has bytes is enough.
unfoldable pub decode_metadata : ℕ → Bytes → Outcome Decoded
decode_metadata l buf = metadata_loop (suc (length buf)) l buf 0 []
