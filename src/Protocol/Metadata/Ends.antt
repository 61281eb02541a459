-- ===== src/Protocol/Metadata/Ends.antt =====
-- The loop of `decodeMetadata` ends on every input.
use a_simple_rpc.Prelude.{
  ℕ, zero, suc, ◌+◌, ◌≤◌, ◌<◌, ◌≡◌, inl, inr, Bool, true, false, [], none, some, arith, length,
  Bool-cases, Option-cases, ltb, if◌then◌else◌, text_eq,
}
use a_simple_rpc.Prelude.Bytes.{Bytes, Text, u32, get_be, slice}
use a_simple_rpc.Prelude.Maps.{Map, insert}
use a_simple_rpc.Outcome.{meta_kv_missing, Outcome, ok, panic}
use a_simple_rpc.Protocol.Metadata.{Decoded, with_slice, metadata_loop, decode_metadata}

-- What `decodeMetadata` can do: return the map, with no error or with this one, or panic.
pub data Ends : Outcome Decoded → Type 0 where
  returned : {m : Map Text Text} → Ends (ok (m, none))
  missing : {m : Map Text Text} → Ends (ok (m, some meta_kv_missing))
  panicked : Ends panic

slice-bounds :
    (buf : Bytes) (lo hi : ℕ) (p : Bytes) → slice buf lo hi ≡ some p → (lo ≤ hi) × (hi ≤ length buf)
unfolding slice
slice-bounds buf lo hi p e = ground arith

with_slice-Ends :
    (buf : Bytes) (lo hi : ℕ) (k : Bytes → Outcome Decoded)
    → ((p : Bytes) → lo ≤ hi → hi ≤ length buf → Ends (k p))
    → Ends (with_slice buf lo hi k)
unfolding with_slice
with_slice-Ends buf lo hi k h = elim (Option-cases (slice buf lo hi)) [
  | inl out ↦ rw (out, with_slice) panicked
  | inr (p, found) ↦ let b = slice-bounds buf lo hi p found in rw (found, with_slice) (h p b.0 b.1)
]

-- A test whose first branch is the error.
or_missing :
    (b : Bool) (m : Map Text Text) (rest : Outcome Decoded)
    → Ends rest
    → Ends (if b then ok (m, some meta_kv_missing) else rest)
or_missing true m rest h = missing
or_missing false m rest h = h

metadata_loop-Ends :
    (fuel l : ℕ) (buf : Bytes) (n : ℕ) (m : Map Text Text)
    → n ≤ length buf
    → length buf < fuel + n
    → Ends (metadata_loop fuel l buf n m)
unfolding metadata_loop
metadata_loop-Ends zero l buf n m le short = absurd (omega arith)
metadata_loop-Ends (suc fuel) l buf n m le short = elim (Bool-cases (ltb n l)) [
  | inr over ↦ rw over returned
  | inl more ↦ rw more (
      with_slice-Ends buf n (u32 (n + 4)) _ λ kl a b. or_missing _ m _ (
        with_slice-Ends buf (u32 (n + 4)) (u32 (u32 (n + 4) + get_be kl)) _ λ k c d.
          with_slice-Ends buf (u32 (u32 (n + 4) + get_be kl))
            (u32 (u32 (u32 (n + 4) + get_be kl) + 4)) _
            λ vl e f. or_missing _ m _ (
              with_slice-Ends buf (u32 (u32 (u32 (n + 4) + get_be kl) + 4))
                (u32 (u32 (u32 (u32 (n + 4) + get_be kl) + 4) + get_be vl)) _
                λ v g h.
                  metadata_loop-Ends fuel l buf
                    (u32 (u32 (u32 (u32 (n + 4) + get_be kl) + 4) + get_be vl)) (insert k v m) h
                    (omega (arith, a, c, e, g)))))
]

pub decode_metadata-Ends : (l : ℕ) (buf : Bytes) → Ends (decode_metadata l buf)
unfolding decode_metadata
decode_metadata-Ends l buf =
    metadata_loop-Ends (suc (length buf)) l buf 0 [] (omega arith) (omega arith)
