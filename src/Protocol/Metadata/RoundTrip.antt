-- ===== src/Protocol/Metadata/RoundTrip.antt =====
-- `decodeMetadata` reads back what `encodeMetadata` wrote.
use a_simple_rpc.Prelude.{
  ℕ, zero, suc, ◌+◌, ◌-◌, ◌^◌, ◌≤◌, ◌<◌, ◌≡◌, ◌≢◌, refl, sym, ap, ◌∙◌, [], ◌∷◌, ◌++◌, none, arith,
  length, length-append, lt→ltb, le→ltb, append-nil, append_assoc, bytes_eq_iff, text_eq,
}
use a_simple_rpc.Prelude.Bytes.{Bytes, Text, u32, put_be, get_be, length-put_be, get_be-put_be}
use a_simple_rpc.Prelude.Maps.{Map, insert}
use a_simple_rpc.Prelude.Cursor.{At, At-zero, slice-At, At-next}
use a_simple_rpc.Outcome.{Outcome, ok}
use a_simple_rpc.Protocol.Metadata.{
  encode_entry, encode_metadata, with_slice, metadata_loop, decode_metadata,
}

-- `k` is no key of `m`.
abbrev pub Fresh : Text → Map Text Text → Type 0
Fresh k [] = Unit {0}
Fresh k ((j, v) ∷ m) = (j ≢ k) × Fresh k m

-- A Go map has each key once.
abbrev pub Distinct : Map Text Text → Type 0
Distinct [] = Unit {0}
Distinct ((k, v) ∷ m) = Fresh k m × Distinct m

insert-Fresh : (k v : Text) (m : Map Text Text) → Fresh k m → insert k v m ≡ m ++ ((k, v) ∷ [])
unfolding insert
insert-Fresh k v [] h = refl
insert-Fresh k v ((j, w) ∷ m) h = ground (arith, bytes_eq_iff j k, insert-Fresh k v m h.1)

-- No key of `m` is one of `acc`.
abbrev Apart : Map Text Text → Map Text Text → Type 0
Apart acc [] = Unit {0}
Apart acc ((k, v) ∷ m) = Fresh k acc × Apart acc m

Fresh-snoc :
    (j k v : Text) (acc : Map Text Text) → Fresh j acc → k ≢ j → Fresh j (acc ++ ((k, v) ∷ []))
Fresh-snoc j k v [] f h = (h, tt)
Fresh-snoc j k v ((i, w) ∷ acc) f h = (f.0, Fresh-snoc j k v acc f.1 h)

Apart-snoc :
    (acc : Map Text Text) (k v : Text) (m : Map Text Text)
    → Apart acc m
    → Fresh k m
    → Apart (acc ++ ((k, v) ∷ [])) m
Apart-snoc acc k v [] a f = tt
Apart-snoc acc k v ((j, w) ∷ m) a f =
    (Fresh-snoc j k v acc a.0 (λ e. f.0 (sym e)), Apart-snoc acc k v m a.1 f.1)

Apart-nil : (m : Map Text Text) → Apart [] m
Apart-nil [] = tt
Apart-nil ((k, v) ∷ m) = (tt, Apart-nil m)

length-entry : (k v : Text) → length (encode_entry (k, v)) ≡ 8 + length k + length v
unfolding encode_entry
length-entry k v = omega (
  arith,
  length-append (put_be 4 (u32 (length k))) (k ++ (put_be 4 (u32 (length v)) ++ v)),
  length-append k (put_be 4 (u32 (length v)) ++ v),
  length-append (put_be 4 (u32 (length v))) v,
  length-put_be 4 (u32 (length k)),
  length-put_be 4 (u32 (length v)),
)

pub with_slice-At {ℓ} :
    {A : Type ℓ} (buf : Bytes) (n : ℕ) (mid post : Bytes) (hi : ℕ)
    → At buf n (mid ++ post)
    → hi ≡ n + length mid
    → (k : Bytes → Outcome A) → with_slice buf n hi k ≡ k mid
unfolding with_slice
with_slice-At buf n mid post hi at e k = rw (slice-At buf n mid post at hi e, with_slice)

-- One round on a well-formed entry.
metadata_loop_step :
    (fuel l n : ℕ) (buf : Bytes) (k v : Text) (rest : Bytes) (acc : Map Text Text)
    → l < 2 ^ 32
    → n + 8 + length k + length v ≤ l
    → At buf n (put_be 4 (u32 (length k)) ++ (k ++ (put_be 4 (u32 (length v)) ++ (v ++ rest))))
    → metadata_loop (suc fuel) l buf n acc
      ≡ metadata_loop fuel l buf (n + 8 + length k + length v) (insert k v acc)
unfolding metadata_loop
metadata_loop_step fuel l n buf k v rest acc hl hn at0 = rw (
  lt→ltb n l (omega arith),
  fits (n + 4) (omega arith),
  with_slice-At buf n kl _ (n + 4) at0 (omega (arith, len4 k)),
  g k (omega arith),
  fits (n + 4 + length k) (omega arith),
  le→ltb (u32 (l + 2 ^ 32 - 4)) (n + 4 + length k) (omega arith),
  with_slice-At buf (n + 4) k _ (n + 4 + length k) at1 refl,
  fits (n + 4 + length k + 4) (omega arith),
  with_slice-At buf (n + 4 + length k) vl _ (n + 4 + length k + 4) at2 (omega (arith, len4 v)),
  g v (omega arith),
  fits (n + 4 + length k + 4 + length v) (omega arith),
  le→ltb l (n + 4 + length k + 4 + length v) (omega arith),
  with_slice-At buf (n + 4 + length k + 4) v rest (n + 4 + length k + 4 + length v) at3 refl,
  total,
)
  where
    kl : Bytes
    kl = put_be 4 (u32 (length k))

    vl : Bytes
    vl = put_be 4 (u32 (length v))

    fits : (x : ℕ) → x < 2 ^ 32 → u32 x ≡ x
    fits x h = omega arith

    len4 : (t : Text) → length (put_be 4 (u32 (length t))) ≡ 4
    len4 t = length-put_be 4 (u32 (length t))

    g : (t : Text) → length t < 2 ^ 32 → get_be (put_be 4 (u32 (length t))) ≡ length t
    g t h = get_be-put_be 4 (u32 (length t)) (omega arith) ∙ fits (length t) h

    at1 : At buf (n + 4) (k ++ (put_be 4 (u32 (length v)) ++ (v ++ rest)))
    at1 = At-next buf n kl _ at0 (n + 4) (omega (arith, len4 k))

    at2 : At buf (n + 4 + length k) (put_be 4 (u32 (length v)) ++ (v ++ rest))
    at2 = At-next buf (n + 4) k _ at1 (n + 4 + length k) refl

    at3 : At buf (n + 4 + length k + 4) (v ++ rest)
    at3 = At-next buf (n + 4 + length k) vl _ at2 (n + 4 + length k + 4) (omega (arith, len4 v))

    total : n + 4 + length k + 4 + length v ≡ n + 8 + length k + length v
    total = omega arith

pub length-entries :
    (k v : Text) (m : Map Text Text)
    → length (encode_metadata ((k, v) ∷ m)) ≡ 8 + length k + length v + length (encode_metadata m)
unfolding encode_metadata
length-entries k v m =
    omega (arith, length-append (encode_entry (k, v)) (encode_metadata m), length-entry k v)

regroup_entry :
    (k v : Text) (m : Map Text Text) (rest : Bytes)
    → encode_metadata ((k, v) ∷ m) ++ rest ≡ encode_entry (k, v) ++ (encode_metadata m ++ rest)
unfolding encode_metadata
regroup_entry k v m rest = append_assoc (encode_entry (k, v)) (encode_metadata m) rest

regroup :
    (k v : Text) (m : Map Text Text) (rest : Bytes)
    → encode_metadata ((k, v) ∷ m) ++ rest
      ≡ put_be 4 (u32 (length k))
        ++ (k ++ (put_be 4 (u32 (length v)) ++ (v ++ (encode_metadata m ++ rest))))
unfolding encode_metadata encode_entry
regroup k v m rest = simp append_assoc

metadata_loop-encode :
    (m : Map Text Text) (fuel l n : ℕ) (buf rest : Bytes) (acc : Map Text Text)
    → l < 2 ^ 32
    → n + length (encode_metadata m) ≡ l
    → length m < fuel
    → At buf n (encode_metadata m ++ rest)
    → Distinct m
    → Apart acc m
    → metadata_loop fuel l buf n acc ≡ ok (acc ++ m, none)
metadata_loop-encode m zero l n buf rest acc hl hn hf at d a = absurd (omega arith)
metadata_loop-encode [] (suc fuel) l n buf rest acc hl hn hf at d a =
    unfold metadata_loop encode_metadata in
    rw (le→ltb n l (unfold encode_metadata in omega (arith, hn)), append-nil)
metadata_loop-encode ((k, v) ∷ m) (suc fuel) l n buf rest acc hl hn hf at d a =
    metadata_loop_step fuel l n buf k v (encode_metadata m ++ rest) acc hl
      (omega (arith, length-entries k v m)) (rw (regroup k v m rest) at at)
    ∙ rw (insert-Fresh k v acc a.0) (
        metadata_loop-encode m fuel l (n + 8 + length k + length v) buf rest (acc ++ ((k, v) ∷ []))
          hl (omega (arith, length-entries k v m)) (omega arith)
          (At-next buf n (encode_entry (k, v)) (encode_metadata m ++ rest)
            (rw (regroup_entry k v m rest) at at) _ (omega (arith, length-entry k v)))
          d.1 (Apart-snoc acc k v m a.1 d.0)
        ∙ ap (λ (x : Map Text Text). ok (x, none)) (append_assoc acc ((k, v) ∷ []) m))

length-le-encode : (m : Map Text Text) → length m ≤ length (encode_metadata m)
length-le-encode [] = omega arith
length-le-encode ((k, v) ∷ m) = omega (arith, length-entries k v m, length-le-encode m)

-- Where the entries of a map, in any order in which `range` meets them, take less than 2^32 bytes
-- together and no key stands twice, `decodeMetadata` called with that length on a slice that begins
-- with what `encodeMetadata` wrote, whatever its capacity shows behind, returns that map, the
-- entries in the same order, and no error.
pub decode-encode_metadata :
    (m : Map Text Text) (rest : Bytes)
    → length (encode_metadata m) < 2 ^ 32
    → Distinct m
    → decode_metadata (length (encode_metadata m)) (encode_metadata m ++ rest) ≡ ok (m, none)
unfolding decode_metadata
decode-encode_metadata m rest h d =
    metadata_loop-encode m _ _ 0 _ rest [] h (omega arith)
      (omega (arith, length-le-encode m, length-append (encode_metadata m) rest)) (At-zero _) d
      (Apart-nil m)
