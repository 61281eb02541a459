-- ===== src/Protocol/Message.antt =====
-- `Message` of protocol/message.go with `NewMessage`, `Clone`, `Encode`, `Decode` and `Read`.
-- A reader is the bytes that it will still give and the error that it gives after them. A method
-- that changes the message through its pointer, or reads, is a step on both.
pub mod Layout
pub mod Steps
pub mod Body
pub mod RoundTrip
pub mod Frames
pub mod Malformed
pub mod Totality
pub mod Meaning
pub mod Progress
pub mod Ends
use a_simple_rpc.Prelude.{
  ℕ, zero, suc, ◌+◌, ◌-◌, Bool, true, false, not, ◌&&◌, List, [], ◌∷◌, ◌++◌, Option, none, some,
  length, take, drop, replicate, ltb, leb, if◌then◌else◌,
}
use a_simple_rpc.Prelude.Bytes.{Bytes, Text, u32, put_be, get_be, slice, copy_at}
use a_simple_rpc.Prelude.Maps.{Map}
use a_simple_rpc.Outcome.{
  Err, eof, unexpected_eof, message_too_long, wrong_magic, Outcome, ok, fail, panic, stuck,
}
use a_simple_rpc.Protocol.Header.{Header, new_header, check_magic_number, byte}
use a_simple_rpc.Protocol.Metadata.{Decoded, encode_metadata, decode_metadata}

-- `buf` is the field `data`: its bytes up to its capacity.
pub record Message : Type 0 where
  pub header : Header
  pub service_path : Text
  pub service_method : Text
  pub metadata : Map Text Text
  pub payload : Bytes
  pub buf : Bytes

unfoldable pub new_message : Message
new_message = record {
  header = new_header;
  service_path = [];
  service_method = [];
  metadata = [];
  payload = [];
  buf = [];
}

-- The metadata and the payload are not copied.
unfoldable pub clone : Message → Message
clone m = record new_message {
  header = m.header;
  service_path = m.service_path;
  service_method = m.service_method;
}

-- Writes into a slice, each at its position.
unfoldable pub write_all : List (ℕ × Bytes) → Bytes → Bytes
write_all [] dst = dst
write_all ((at, src) ∷ ws) dst = write_all ws (copy_at at src dst)

-- spLen + sp + smLen + sm + metaL + meta + payloadLen + payload
abbrev pub total_length : Message → ℕ
total_length m =
    (4 + length m.service_path)
    + (4 + length m.service_method)
    + (4 + length (encode_metadata m.metadata))
    + (4 + length m.payload)

-- The `copy` and `PutUint32` calls of `Encode`, in their order, with the positions that it computes.
unfoldable pub writes : Message → List (ℕ × Bytes)
writes m =
    let meta = encode_metadata m.metadata in
    let sp_l = length m.service_path in
    let sm_l = length m.service_method in
    let meta_start = 12 + 4 + (4 + sp_l) + (4 + sm_l) in
    let payload_start = meta_start + (4 + length meta) in
    (0, m.header)
    ∷ (12, put_be 4 (u32 (total_length m)))
    ∷ (16, put_be 4 (u32 sp_l))
    ∷ (20, m.service_path)
    ∷ (20 + sp_l, put_be 4 (u32 sm_l))
    ∷ (24 + sp_l, m.service_method)
    ∷ (meta_start, put_be 4 (u32 (length meta)))
    ∷ (meta_start + 4, meta)
    ∷ (payload_start, put_be 4 (u32 (length m.payload)))
    ∷ (payload_start + 4, m.payload)
    ∷ []

unfoldable pub encode : Message → Bytes
encode m = write_all (writes m) (replicate (12 + 4 + total_length m) 0)

pub record Reader : Type 0 where
  pub stream : Bytes
  pub end : Err

-- io.ReadFull reports an end inside the wanted bytes as `unexpected_eof`.
unfoldable pub end_error : Bytes → Err → Err
end_error [] e = e
end_error (b ∷ bs) eof = unexpected_eof
end_error (b ∷ bs) e = e

-- `io.ReadFull(r, buf)` for a `buf` of `n` bytes: what it read, its error, the reader afterwards.
unfoldable pub read_full : ℕ → Reader → Bytes × Option Err × Reader
read_full n r =
    if leb n (length r.stream)
    then (take n r.stream, none, record r { stream = drop n r.stream })
    else (r.stream, some (end_error r.stream r.end), record r { stream = [] })

pub record State : Type 0 where
  pub message : Message
  pub reader : Reader

abbrev pub M : Type 0 → Type 0
M A = State → State × Outcome A

-- An error returned early, or a panic, skips what follows and keeps the changes made so far.
abbrev pub continue : {A B : Type 0} → (A → M B) → State × Outcome A → State × Outcome B
continue f (s, ok a) = f a s
continue f (s, fail e) = (s, fail e)
continue f (s, panic) = (s, panic)
continue f (s, stuck) = (s, stuck)

infixl 5 ◌>>=◌ ◌>>◌
abbrev pub ◌>>=◌ : {A B : Type 0} → M A → (A → M B) → M B
◌>>=◌ m f s = continue f (m s)

abbrev pub ◌>>◌ : {B : Type 0} → M (Unit {0}) → M B → M B
m >> k = m >>= λ _. k

abbrev pub modify : (Message → Message) → M (Unit {0})
modify f s = (record s { message = f s.message }, ok tt)

abbrev pub or_fail : Option Err → Outcome (Unit {0})
or_fail none = ok tt
or_fail (some e) = fail e

-- `io.ReadFull(r, m.Header[at:at+n])`
unfoldable pub read_header : ℕ → ℕ → M (Unit {0})
read_header at n s =
    let (got, e, r) = read_full n s.reader in
    (
      record {
        message = record (s.message) { header = copy_at at got s.message.header };
        reader = r;
      },
      or_fail e,
    )

unfoldable pub check_magic : M (Unit {0})
check_magic s = (
  s,
  if check_magic_number s.message.header
      then ok tt
      else fail (wrong_magic (byte s.message.header 0)),
)

abbrev pub number : Option Err → Bytes → Outcome ℕ
number none got = ok (get_be got)
number (some e) got = fail e

-- The four bytes of `lenData`, as a uint32.
unfoldable pub read_length : M ℕ
read_length s = let (got, e, r) = read_full 4 s.reader in (record s { reader = r }, number e got)

-- `MaxMessageLength` is a variable of the package, and 0 stands for no limit.
unfoldable pub check_length : ℕ → ℕ → M (Unit {0})
check_length max total s = (s, if ltb 0 max && ltb max total then fail message_too_long else ok tt)

-- `m.data` is reused where its capacity suffices; then `io.ReadFull(r, data)`.
unfoldable pub fill_buf : ℕ → M (Unit {0})
fill_buf total s =
    let buf = if leb total (length s.message.buf) then s.message.buf else replicate total 0 in
    let (got, e, r) = read_full total s.reader in
    (record { message = record (s.message) { buf = copy_at 0 got buf }; reader = r }, or_fail e)

-- `data[lo:hi]`
unfoldable pub piece : Bytes → ℕ → ℕ → M Bytes
piece data_ lo hi s = (s, elim (slice data_ lo hi) [ none ↦ panic | some p ↦ ok p ])

-- `m.Metadata` is assigned also where `decodeMetadata` returns an error, and not where it panics.
unfoldable pub store_metadata : Outcome Decoded → M (Unit {0})
store_metadata (ok (md, e)) s =
    (record s { message = record (s.message) { metadata = md } }, or_fail e)
store_metadata (fail e) s = (s, fail e)
store_metadata panic s = (s, panic)
store_metadata stuck s = (s, stuck)

-- The slice `data[lo:hi]` keeps the capacity of `data`.
unfoldable pub read_metadata : Bytes → ℕ → ℕ → ℕ → M (Unit {0})
read_metadata data_ mdl lo hi s =
    if ltb 0 mdl
    then (piece data_ lo hi >>= λ _. store_metadata (decode_metadata mdl (drop lo data_))) s
    else (s, ok tt)

-- From the service path on. An `int` has 64 bits, and no sum here can leave it.
unfoldable pub decode_body : Bytes → M (Unit {0})
decode_body data_ = do
  sp_l ← piece data_ 0 4
  let end1 = 4 + get_be sp_l
  sp ← piece data_ 4 end1
  modify (λ m. record m { service_path = sp })
  sm_l ← piece data_ end1 (end1 + 4)
  let end2 = end1 + 4 + get_be sm_l
  sm ← piece data_ (end1 + 4) end2
  modify (λ m. record m { service_method = sm })
  md_l ← piece data_ end2 (end2 + 4)
  let end3 = end2 + 4 + get_be md_l
  read_metadata data_ (get_be md_l) (end2 + 4) end3
  py_l ← piece data_ end3 (end3 + 4)
  payload ← piece data_ (end3 + 4) (end3 + 4 + get_be py_l)
  modify (λ m. record m { payload = payload })

unfoldable pub current_buf : M Bytes
current_buf s = (s, ok s.message.buf)

-- The body of `Decode`, up to and with its last statement.
unfoldable pub decode_steps : ℕ → M (Unit {0})
decode_steps max = do
  read_header 0 1
  check_magic
  read_header 1 11
  total ← read_length
  check_length max total
  fill_buf total
  data_ ← current_buf
  decode_body data_

-- The deferred function swallows a panic, and the unnamed result is then its zero value: no error.
unfoldable pub recover : Outcome (Unit {0}) → Outcome (Unit {0})
recover (ok a) = ok a
recover (fail e) = fail e
recover panic = ok tt
recover stuck = stuck

unfoldable pub decode : ℕ → State → State × Outcome (Unit {0})
decode max s = let (s', o) = decode_steps max s in (s', recover o)

abbrev pub read_result : State × Outcome (Unit {0}) → Outcome Message × Reader
read_result (s, ok a) = (ok s.message, s.reader)
read_result (s, fail e) = (fail e, s.reader)
read_result (s, panic) = (panic, s.reader)
read_result (s, stuck) = (stuck, s.reader)

-- `Read`: a new message, or the error of `Decode`.
unfoldable pub read : ℕ → Reader → Outcome Message × Reader
read max r = read_result (decode max (record { message = new_message; reader = r }))
