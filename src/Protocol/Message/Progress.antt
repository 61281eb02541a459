-- ===== src/Protocol/Message/Progress.antt =====
-- Each `Read` that gives a message takes bytes from the stream.
use a_simple_rpc.Prelude.{
  ℕ, suc, ◌≤◌, ◌<◌, ◌≡◌, refl, ap, Bool, true, false, leb, le→leb, if◌then◌else◌, Option, none,
  some, [], ◌∷◌, length, length-drop, drop, take, arith,
}
use a_simple_rpc.Prelude.Bytes.{Bytes, copy_at}
use a_simple_rpc.Outcome.{Err, Outcome, ok, fail, panic, stuck}
use a_simple_rpc.Protocol.Header.{new_header}
use a_simple_rpc.Protocol.Message.{
  Message, Reader, State, M, continue, ◌>>=◌, ◌>>◌, read_header, check_magic, read_length,
  check_length, fill_buf, current_buf, decode_body, decode_steps, recover, decode, read_result,
  read, read_full, end_error, new_message,
}
use a_simple_rpc.Protocol.Message.Ends.{BodyEnds, done, failed, paniced, decode_body-BodyEnds}

-- The bytes still to come never become more.
record Shrinks {A : Type 0} (m : M A) : Type 0 where
  shrinks : (s : State) → length (m s).0.reader.stream ≤ length s.reader.stream

read_full-length : (n : ℕ) (r : Reader) → length (read_full n r).2.stream ≤ length r.stream
unfolding read_full
read_full-length n r = go (leb n (length r.stream))
  where
    go :
        (b : Bool)
        → length
            (if◌then◌else◌ {A = Bytes × Option Err × Reader} b
              (take n r.stream, none, record r { stream = drop n r.stream })
              (r.stream, some (end_error r.stream r.end), record r { stream = [] })).2.stream
          ≤ length r.stream
    go true = omega (arith, length-drop n r.stream)
    go false = omega arith

continue-length :
    {A B : Type 0} (f : A → M B) (x : State × Outcome A) (n : ℕ)
    → length x.0.reader.stream ≤ n
    → ((a : A) → Shrinks (f a))
    → length (continue f x).0.reader.stream ≤ n
continue-length f (s, ok a) n h k = omega (arith, h, (k a).shrinks s)
continue-length f (s, fail e) n h k = h
continue-length f (s, panic) n h k = h
continue-length f (s, stuck) n h k = h

then-Shrinks :
    {A B : Type 0} {m : M A} {f : A → M B}
    → Shrinks m
    → ((a : A) → Shrinks (f a))
    → Shrinks (m >>= f)
then-Shrinks {m = m} {f = f} h k = record {
  shrinks = λ s. continue-length f (m s) (length s.reader.stream) (h.shrinks s) k;
}

seq-Shrinks : {B : Type 0} {m : M (Unit {0})} {k : M B} → Shrinks m → Shrinks k → Shrinks (m >> k)
seq-Shrinks h k = then-Shrinks h (λ a. k)

read_header-Shrinks : (at n : ℕ) → Shrinks (read_header at n)
unfolding read_header
read_header-Shrinks at n = record { shrinks = λ s. read_full-length n s.reader }

check_magic-Shrinks : Shrinks check_magic
unfolding check_magic
check_magic-Shrinks = record { shrinks = λ s. omega arith }

read_length-Shrinks : Shrinks read_length
unfolding read_length
read_length-Shrinks = record { shrinks = λ s. read_full-length 4 s.reader }

check_length-Shrinks : (max n : ℕ) → Shrinks (check_length max n)
unfolding check_length
check_length-Shrinks max n = record { shrinks = λ s. omega arith }

fill_buf-Shrinks : (n : ℕ) → Shrinks (fill_buf n)
unfolding fill_buf
fill_buf-Shrinks n = record { shrinks = λ s. read_full-length n s.reader }

current_buf-Shrinks : Shrinks current_buf
unfolding current_buf
current_buf-Shrinks = record { shrinks = λ s. omega arith }

body-length :
    {A : Type 0} (r : Reader) (x : State × Outcome A)
    → BodyEnds r x
    → length x.0.reader.stream ≤ length r.stream
body-length r x (done a e k) = omega (arith, ap (λ q. length q.stream) k)
body-length r x (failed e k) = omega (arith, ap (λ q. length q.stream) k)
body-length r x (paniced e k) = omega (arith, ap (λ q. length q.stream) k)

decode_body-Shrinks : (bs : Bytes) → Shrinks (decode_body bs)
decode_body-Shrinks bs = record {
  shrinks = λ s. body-length s.reader _ (decode_body-BodyEnds s.reader bs s refl);
}

-- What follows the first byte.
abbrev behind_first : ℕ → M (Unit {0})
behind_first max = do
  check_magic
  read_header 1 11
  total ← read_length
  check_length max total
  fill_buf total
  data_ ← current_buf
  decode_body data_

behind_first-Shrinks : (max : ℕ) → Shrinks (behind_first max)
behind_first-Shrinks max = seq-Shrinks check_magic-Shrinks (
    seq-Shrinks (read_header-Shrinks 1 11) (
      then-Shrinks read_length-Shrinks λ total. seq-Shrinks (check_length-Shrinks max total) (
        seq-Shrinks (fill_buf-Shrinks total)
          (then-Shrinks current_buf-Shrinks λ data_. decode_body-Shrinks data_))))

result-reader : (s : State) (o : Outcome (Unit {0})) → (read_result (s, o)).1 ≡ s.reader
result-reader s (ok a) = refl
result-reader s (fail e) = refl
result-reader s panic = refl
result-reader s stuck = refl

finish :
    (x : State × Outcome (Unit {0})) (n : ℕ) (m : Message) (r' : Reader)
    → length x.0.reader.stream ≤ n
    → read_result (x.0, recover x.1) ≡ (ok m, r')
    → length r'.stream ≤ n
finish x n m r' h e = omega (
  arith,
  h,
  ap (λ p. length p.1.stream) e,
  ap (λ q. length q.stream) (result-reader x.0 (recover x.1)),
)

abbrev begin_at : Bytes → Err → State
begin_at bs e = record { message = new_message; reader = record { stream = bs; end = e } }

-- The state behind the first byte.
abbrev behind : ℕ → Bytes → Err → State
behind b bs e = record {
  message = record new_message { header = copy_at 0 (b ∷ []) new_message.header };
  reader = record { stream = bs; end = e };
}

decode_steps-first :
    (max b : ℕ) (bs : Bytes) (e : Err)
    → decode_steps max (begin_at (b ∷ bs) e) ≡ behind_first max (behind b bs e)
unfolding decode_steps read_header read_full
decode_steps-first max b bs e = rw (le→leb 1 (suc (length bs)) (omega arith)) refl

decode_steps-none : (max : ℕ) (e : Err) → decode_steps max (begin_at [] e) ≡ (begin_at [] e, fail e)
unfolding decode_steps read_header read_full end_error copy_at new_message new_header
decode_steps-none max e = refl

-- A `Read` that gives a message leaves fewer bytes than there were.
pub read-shorter :
    (max : ℕ) (bs : Bytes) (e : Err) (m : Message) (r' : Reader)
    → read max (record { stream = bs; end = e }) ≡ (ok m, r')
    → length r'.stream < length bs
unfolding read decode recover
read-shorter max [] e m r' h = absurd (cc (rw (decode_steps-none max e) at h))
read-shorter max (b ∷ bs) e m r' h =
    let le =
      finish (behind_first max (behind b bs e)) (length bs) m r'
        ((behind_first-Shrinks max).shrinks (behind b bs e))
        (rw (decode_steps-first max b bs e) at h) in
    omega (arith, le)
