-- ===== src/Protocol/Message/Totality.antt =====
-- `Read` ends on every input.
use a_simple_rpc.Prelude.{ℕ, true, false, if◌then◌else◌, Option, none, some, Bool, refl}
use a_simple_rpc.Prelude.Bytes.{Bytes}
use a_simple_rpc.Outcome.{Err, Outcome, ok, fail, panic, stuck}
use a_simple_rpc.Protocol.Message.{
  Reader, State, M, continue, ◌>>=◌, ◌>>◌, or_fail, number, read_header, check_magic, read_length,
  check_length, fill_buf, current_buf, decode_body, decode_steps, recover, decode, read_result,
  read,
}
use a_simple_rpc.Protocol.Message.Ends.{BodyEnds, done, failed, paniced, decode_body-BodyEnds}

-- A value, an error or a panic: no loop is out of fuel.
data Halts {A : Type 0} : Outcome A → Type 0 where
  valued : (a : A) → Halts (ok a)
  erred : (e : Err) → Halts (fail e)
  panicked : Halts panic

-- A value or an error.
pub data Returns {A : Type 0} : Outcome A → Type 0 where
  value : (a : A) → Returns (ok a)
  err : (e : Err) → Returns (fail e)

record Total {A : Type 0} (m : M A) : Type 0 where
  halts : (s : State) → Halts (m s).1

continue-Halts :
    {A B : Type 0} (f : A → M B) (x : State × Outcome A)
    → Halts x.1
    → ((a : A) (s : State) → Halts (f a s).1)
    → Halts (continue f x).1
continue-Halts f (s, ok a) (valued b) h = h a s
continue-Halts f (s, fail e) (erred x) h = erred e
continue-Halts f (s, panic) panicked h = panicked
continue-Halts f (s, stuck) x h = elim x [ ]

then-Total :
    {A B : Type 0} {m : M A} {f : A → M B} → Total m → ((a : A) → Total (f a)) → Total (m >>= f)
then-Total {m = m} {f = f} h k = record {
  halts = λ s. continue-Halts f (m s) (h.halts s) (λ a. (k a).halts);
}

seq-Total : {B : Type 0} {m : M (Unit {0})} {k : M B} → Total m → Total k → Total (m >> k)
seq-Total h k = then-Total h (λ a. k)

or_fail-Halts : (e : Option Err) → Halts (or_fail e)
or_fail-Halts none = valued tt
or_fail-Halts (some e) = erred e

number-Halts : (e : Option Err) (got : Bytes) → Halts (number e got)
number-Halts none got = valued _
number-Halts (some e) got = erred e

guard-Halts : (b : Bool) (e : Err) → Halts (if b then fail e else ok (tt {0}))
guard-Halts true e = erred e
guard-Halts false e = valued tt

magic-Halts : (b : Bool) (e : Err) → Halts (if b then ok (tt {0}) else fail e)
magic-Halts true e = valued tt
magic-Halts false e = erred e

read_header-Total : (at n : ℕ) → Total (read_header at n)
unfolding read_header
read_header-Total at n = record { halts = λ s. or_fail-Halts _ }

check_magic-Total : Total check_magic
unfolding check_magic
check_magic-Total = record { halts = λ s. magic-Halts _ _ }

read_length-Total : Total read_length
unfolding read_length
read_length-Total = record { halts = λ s. number-Halts _ _ }

check_length-Total : (max n : ℕ) → Total (check_length max n)
unfolding check_length
check_length-Total max n = record { halts = λ s. guard-Halts _ _ }

fill_buf-Total : (n : ℕ) → Total (fill_buf n)
unfolding fill_buf
fill_buf-Total n = record { halts = λ s. or_fail-Halts _ }

body-Halts : {A : Type 0} (r : Reader) (s : State) (o : Outcome A) → BodyEnds r (s, o) → Halts o
body-Halts r s (ok a) h = valued a
body-Halts r s (fail e) h = erred e
body-Halts r s panic h = panicked
body-Halts r s stuck (done a e k) = absurd (cc e)
body-Halts r s stuck (failed e k) = absurd (cc e)
body-Halts r s stuck (paniced e k) = absurd (cc e)

decode_body-Total : (bs : Bytes) → Total (decode_body bs)
decode_body-Total bs = record {
  halts = λ s. body-Halts s.reader _ _ (decode_body-BodyEnds s.reader bs s refl);
}

current_buf-Total : Total current_buf
unfolding current_buf
current_buf-Total = record { halts = λ s. valued _ }

decode_steps-Total : (max : ℕ) → Total (decode_steps max)
unfolding decode_steps
decode_steps-Total max = seq-Total (read_header-Total 0 1) (
    seq-Total check_magic-Total (
      seq-Total (read_header-Total 1 11) (
        then-Total read_length-Total λ total. seq-Total (check_length-Total max total) (
          seq-Total (fill_buf-Total total)
            (then-Total current_buf-Total λ data_. decode_body-Total data_)))))

result-Returns :
    (s : State) (o : Outcome (Unit {0})) → Halts o → Returns (read_result (s, recover o)).0
unfolding recover
result-Returns s (ok a) h = value s.message
result-Returns s (fail e) h = err e
result-Returns s panic h = value s.message
result-Returns s stuck h = elim h [ ]

-- Whatever the stream holds, however it ends and whatever the limit is, `Read` ends with a message or
-- with an error: its loop comes to an end on every metadata, and no panic leaves it.
pub read-Returns : (max : ℕ) (r : Reader) → Returns (read max r).0
unfolding read decode
read-Returns max r = result-Returns _ _ ((decode_steps-Total max).halts _)
