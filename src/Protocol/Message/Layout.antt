-- ===== src/Protocol/Message/Layout.antt =====
-- What `Encode` writes, as one sequence of bytes.
use a_simple_rpc.Prelude.{
  ℕ, zero, suc, ◌+◌, ◌-◌, ◌≡◌, refl, sym, ap, subst, ◌∙◌, List, [], ◌∷◌, ◌++◌, arith, length, drop,
  replicate, length-append, length-replicate, take-append, drop-append, drop-add, ◌≤◌, take_all,
  append-nil, append_assoc,
}
use a_simple_rpc.Prelude.Bytes.{Bytes, u32, put_be, length-put_be, copy_at}
use a_simple_rpc.Protocol.Metadata.{encode_metadata}
use a_simple_rpc.Protocol.Message.{Message, write_all, writes, total_length, encode}

drop-replicate : (n r b : ℕ) → drop n (replicate (n + r) b) ≡ replicate r b
drop-replicate zero r b = ap (λ (k : ℕ). replicate k b) (omega arith)
drop-replicate (suc n) r b =
    let e : suc n + r ≡ suc (n + r) = omega arith in rw e (drop-replicate n r b)

-- A write at the end of what is already written.
fill :
    (pre src : Bytes) (at n r : ℕ)
    → at ≡ length pre
    → n ≡ length src + r
    → copy_at at src (pre ++ replicate n 0) ≡ (pre ++ src) ++ replicate r 0
unfolding copy_at
fill pre src at n r e k =
    let zeros : Bytes = replicate n 0 in
    let size : length zeros ≡ n = length-replicate n 0 in
    let room : length src ≤ length (pre ++ zeros) - length pre =
      omega (arith, length-append pre zeros, size) in
    rw (
      e,
      take-append pre zeros,
      take_all _ src room,
      ← drop-add (length pre) (length src) (pre ++ zeros),
      drop-append pre zeros,
      k,
      drop-replicate (length src) r 0,
      append_assoc,
    )

-- Writes that follow one another from `at` on, and their bytes in sequence.
abbrev Consecutive : ℕ → List (ℕ × Bytes) → Type 0
Consecutive at [] = Unit {0}
Consecutive at ((p, src) ∷ ws) = (p ≡ at) × Consecutive (at + length src) ws

abbrev contents : List (ℕ × Bytes) → Bytes
contents [] = []
contents ((p, src) ∷ ws) = src ++ contents ws

write_all-contents :
    (ws : List (ℕ × Bytes)) (pre : Bytes) (n : ℕ)
    → Consecutive (length pre) ws
    → n ≡ length (contents ws)
    → write_all ws (pre ++ replicate n 0) ≡ pre ++ contents ws
unfolding write_all
write_all-contents [] pre n c e = rw e
write_all-contents ((p, src) ∷ ws) pre n c e =
    rw
      (fill pre src p n (length (contents ws)) c.0
        (omega (arith, e, length-append src (contents ws))))
      (write_all-contents ws (pre ++ src) (length (contents ws))
          (subst (λ k. Consecutive k ws) (sym (length-append pre src)) c.1) refl
        ∙ append_assoc pre src (contents ws))

-- A length and the bytes that it announces.
unfoldable pub block : Bytes → Bytes
block bs = put_be 4 (u32 (length bs)) ++ bs

pub length-block : (bs : Bytes) → length (block bs) ≡ 4 + length bs
unfolding block
length-block bs =
    omega (arith, length-append (put_be 4 (u32 (length bs))) bs, length-put_be 4 (u32 (length bs)))

unfoldable pub body : Message → Bytes
body m =
    block m.service_path
    ++ (block m.service_method ++ (block (encode_metadata m.metadata) ++ block m.payload))

len4 : (n : ℕ) → length (put_be 4 n) ≡ 4
len4 n = length-put_be 4 n

writes-Consecutive : (m : Message) → length m.header ≡ 12 → Consecutive 0 (writes m)
unfolding writes
writes-Consecutive m h = omega (arith, len4)

writes_size :
    (m : Message) → length m.header ≡ 12 → 12 + 4 + total_length m ≡ length (contents (writes m))
unfolding writes
writes_size m h = omega (arith, h, len4, length-append {0})

-- For a header of 12 bytes `Encode` writes, with nothing between or behind: the header, the length
-- of the rest modulo 2^32, and the service path, the service method, the metadata and the payload,
-- each behind its own length modulo 2^32.
pub encode-body :
    (m : Message)
    → length m.header ≡ 12
    → encode m ≡ m.header ++ (put_be 4 (u32 (total_length m)) ++ body m)
unfolding encode body block
encode-body m h =
    write_all-contents (writes m) [] (12 + 4 + total_length m) (writes-Consecutive m h)
      (writes_size m h)
    ∙ unfold writes in simp (append_assoc, append-nil)
