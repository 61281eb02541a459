-- ===== src/Protocol/Message/Steps.antt =====
-- The parts of `Decode` on input that holds what they look for.
use a_simple_rpc.Prelude.{
  ℕ, suc, ◌+◌, ◌-◌, ◌^◌, ◌≡◌, ◌<◌, ◌≤◌, refl, sym, [], ◌∷◌, ◌++◌, none, arith, length, drop,
  take_all, drop_all, append-nil, replicate, length-replicate, leb→le, Bool-cases, ◌⊎◌, inl, inr,
  length-append, take-append, drop-append, leb, le→leb,
}
use a_simple_rpc.Prelude.Bytes.{Bytes, u32, put_be, copy_at, get_be, length-put_be, get_be-put_be}
use a_simple_rpc.Prelude.Cursor.{At, slice-At}
use a_simple_rpc.Outcome.{ok}
use a_simple_rpc.Protocol.Message.{
  Reader, State, read_full, piece, read_header, read_length, check_length, fill_buf,
}

pub read_full-append :
    (n : ℕ) (r : Reader) (got rest : Bytes)
    → r.stream ≡ got ++ rest
    → n ≡ length got
    → read_full n r ≡ (got, none, record r { stream = rest })
unfolding read_full
read_full-append n r got rest e k = rw (
  e,
  k,
  le→leb (length got) (length (got ++ rest)) (omega (arith, length-append got rest)),
  take-append got rest,
  drop-append got rest,
)

pub piece-At :
    (buf : Bytes) (n : ℕ) (mid post : Bytes) (hi : ℕ) (s : State)
    → At buf n (mid ++ post)
    → hi ≡ n + length mid
    → piece buf n hi s ≡ (s, ok mid)
unfolding piece
piece-At buf n mid post hi s at e = rw (slice-At buf n mid post at hi e)

-- A length that fits 32 bits is read back from its four bytes.
pub word : (n : ℕ) → n < 2 ^ 32 → get_be (put_be 4 (u32 n)) ≡ n
word n h = let e : u32 n ≡ n = omega arith in rw e (get_be-put_be 4 n (omega arith))

copy_at-zero :
    (src dst : Bytes) → length src ≤ length dst → copy_at 0 src dst ≡ src ++ drop (length src) dst
unfolding copy_at
copy_at-zero src dst h =
    let e : 0 + length src ≡ length src = omega arith in
    rw (e, take_all (length dst - 0) src (omega arith))

-- The first byte of the header, and then the other eleven.
pub read_header-first :
    (s : State) (x b : ℕ) (xs more : Bytes)
    → s.message.header ≡ x ∷ xs
    → s.reader.stream ≡ b ∷ more
    → read_header 0 1 s ≡ (
      record {
        message = record (s.message) { header = b ∷ xs };
        reader = record (s.reader) { stream = more };
      },
      ok tt,
    )
unfolding read_header
read_header-first s x b xs more h e = rw (
  read_full-append 1 s.reader (b ∷ []) more e refl,
  h,
  copy_at-zero (b ∷ []) (x ∷ xs) (omega arith),
)

pub read_header-rest :
    (s : State) (b : ℕ) (xs t more : Bytes)
    → s.message.header ≡ b ∷ xs
    → length xs ≡ 11
    → length t ≡ 11
    → s.reader.stream ≡ t ++ more
    → read_header 1 11 s ≡ (
      record {
        message = record (s.message) { header = b ∷ t };
        reader = record (s.reader) { stream = more };
      },
      ok tt,
    )
unfolding read_header copy_at
read_header-rest s b xs t more h hx ht e =
    let room : suc (length xs) - 1 ≡ 11 = omega arith in
    let rest : 1 + length t ≡ 12 = omega arith in
    rw (
      read_full-append 11 s.reader t more e (sym ht),
      h,
      room,
      rest,
      take_all 11 t (omega arith),
      drop_all 11 xs (omega arith),
      append-nil,
    )

pub read_length-append :
    (s : State) (n : ℕ) (more : Bytes)
    → n < 2 ^ 32
    → s.reader.stream ≡ put_be 4 (u32 n) ++ more
    → read_length s ≡ (record s { reader = record (s.reader) { stream = more } }, ok n)
unfolding read_length
read_length-append s n more h e = rw (
  read_full-append 4 s.reader (put_be 4 (u32 n)) more e (sym (length-put_be 4 (u32 n))),
  word n h,
)

pub check_length-ok :
    (max n : ℕ) (s : State) → (max ≡ 0) ⊎ (n ≤ max) → check_length max n s ≡ (s, ok tt)
unfolding check_length
check_length-ok max n s h = ground arith

pub fill_buf-append :
    (n : ℕ) (s : State) (got more : Bytes)
    → s.reader.stream ≡ got ++ more
    → n ≡ length got
    → fill_buf n s ≡ (
      record {
        message = record (s.message) { buf = got ++ drop n s.message.buf };
        reader = record (s.reader) { stream = more };
      },
      ok tt,
    )
unfolding fill_buf
fill_buf-append n s got more e k = elim (Bool-cases (leb n (length s.message.buf))) [
  | inl reuse ↦ rw (
    reuse,
    read_full-append n s.reader got more e k,
    copy_at-zero got s.message.buf (omega (arith, leb→le n (length s.message.buf) reuse)),
    k,
  )
  | inr fresh ↦ rw (
    fresh,
    read_full-append n s.reader got more e k,
    copy_at-zero got (replicate n 0) (omega (arith, length-replicate {A = ℕ} n 0)),
    k,
    drop_all {A = ℕ} (length got) (replicate (length got) 0)
        (omega (arith, length-replicate {A = ℕ} (length got) 0)),
    drop_all (length got) s.message.buf (ground (arith, k)),
  )
]
