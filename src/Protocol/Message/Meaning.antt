-- ===== src/Protocol/Message/Meaning.antt =====
-- A message as its reader sees it: Go's maps have no order, and `range` in `encodeMetadata` meets the
-- entries in any order.
use a_simple_rpc.Prelude.{
  ℕ, ◌≡◌, refl, subst, sym, ap, ◌∙◌, ◌∷◌, ◌++◌, arith, length, text_eq, bytes_eq_iff,
}
use mathlib.Core.List.{Permᴰ}
use mathlib.Core.List.Permᴰ.{nil, cons, swap, trans}
use mathlib.Core.Quot
use mathlib.Core.Quot.{Quot}
use a_simple_rpc.Prelude.Bytes.{Bytes, Text}
use a_simple_rpc.Prelude.Maps.{Map, lookup}
use a_simple_rpc.Outcome.{ok}
use a_simple_rpc.Protocol.Header.{Header}
use a_simple_rpc.Protocol.Metadata.{encode_metadata}
use a_simple_rpc.Protocol.Metadata.RoundTrip.{Distinct, Fresh, length-entries}
use a_simple_rpc.Protocol.Message.{Message, Reader, encode, read, total_length}
use a_simple_rpc.Protocol.Message.Layout.{body}
use a_simple_rpc.Protocol.Message.RoundTrip.{IsSendable, read-encode}

-- Two lists of entries that answer every lookup alike.
abbrev pub SameEntries : Map Text Text → Map Text Text → Type 0
SameEntries m m' = (k : Text) → lookup k m ≡ lookup k m'

-- A map without its order.
abbrev pub Entries : Type 0
Entries = Quot SameEntries

-- What a message says, without its buffer and without the order of its metadata.
pub record Meaning : Type 0 where
  pub header_ : Header
  pub path : Text
  pub method : Text
  pub entries : Entries
  pub payload_ : Bytes

abbrev pub meaning : Message → Meaning
meaning m = record {
  header_ = m.header;
  path = m.service_path;
  method = m.service_method;
  entries = Quot.mk m.metadata;
  payload_ = m.payload;
}

-- Another order of the same entries.
Fresh-reordered : (k : Text) {m m' : Map Text Text} → Permᴰ m m' → Fresh k m → Fresh k m'
Fresh-reordered k nil h = tt
Fresh-reordered k (cons e p) h = rw⁻¹ e (h.0, Fresh-reordered k p h.1)
Fresh-reordered k (swap e₁ e₂) h = rw⁻¹ (e₁, e₂) (h.1.0, (h.0, h.1.1))
Fresh-reordered k (trans p q) h = Fresh-reordered k q (Fresh-reordered k p h)

Distinct-reordered : {m m' : Map Text Text} → Permᴰ m m' → Distinct m → Distinct m'
Distinct-reordered nil h = tt
Distinct-reordered (cons {a = (k, v)} e p) h =
    rw⁻¹ e (Fresh-reordered k p h.0, Distinct-reordered p h.1)
Distinct-reordered (swap {a = (k, v)} {b = (j, w)} {b' = y} {l = l} e₁ e₂) h =
    subst (λ x. Distinct (x ∷ y ∷ l)) e₂
      (subst (λ x. Distinct ((j, w) ∷ x ∷ l)) e₁
        (((λ same. h.0.0 (sym same)), h.1.0), (h.0.1, h.1.1)))
Distinct-reordered (trans p q) h = Distinct-reordered q (Distinct-reordered p h)

SameEntries-reordered : {m m' : Map Text Text} → Permᴰ m m' → Distinct m → SameEntries m m'
unfolding lookup
SameEntries-reordered nil h k = refl
SameEntries-reordered (cons {a = (j, v)} e p) h k =
    let rest = SameEntries-reordered p h.1 k in rw⁻¹ e (rw rest refl)
SameEntries-reordered (swap {a = (i, v)} {b = (j, w)} {l = l} e₁ e₂) h k =
    let apart = h.0.0 in rw⁻¹ (e₁, e₂) (ground (arith, apart, bytes_eq_iff i k, bytes_eq_iff j k))
SameEntries-reordered (trans p q) h k =
    SameEntries-reordered p h k ∙ SameEntries-reordered q (Distinct-reordered p h) k

size-reordered :
    {m m' : Map Text Text} → Permᴰ m m' → length (encode_metadata m) ≡ length (encode_metadata m')
size-reordered nil = refl
size-reordered (cons {a = (k, v)} {l₁ = m} {l₂ = m'} e p) =
    rw⁻¹ e (omega (arith, length-entries k v m, length-entries k v m', size-reordered p))
size-reordered (swap {a = (k, v)} {b = (j, w)} {l = l} e₁ e₂) =
    rw⁻¹ (e₁, e₂)
      (omega (
        arith,
        length-entries k v ((j, w) ∷ l),
        length-entries j w ((k, v) ∷ l),
        length-entries j w l,
        length-entries k v l,
      ))
size-reordered (trans p q) = size-reordered p ∙ size-reordered q

-- The order in which `Encode` meets the metadata is nothing to the reader: for a message that can be
-- sent, and any other order of its metadata, both encodings are equally long, `Read` takes exactly one
-- message from each, and both have the meaning of the message that was sent.
pub read-meaning :
    (max : ℕ) (m : Message) (md : Map Text Text) (r : Reader)
    → IsSendable max m
    → Permᴰ m.metadata md
    → (total_length (record m { metadata = md }) ≡ total_length m)
      × (a b : Message) × (read max (record r { stream = encode m ++ r.stream }) ≡ (ok a, r))
      × (read max (record r { stream = encode (record m { metadata = md }) ++ r.stream })
          ≡ (ok b, r))
      × (meaning a ≡ meaning m)
      × (meaning b ≡ meaning m)
read-meaning max m md r s p =
    let m' : Message = record m { metadata = md } in
    let size = size-reordered p in
    let same_size : total_length m' ≡ total_length m = omega (arith, size) in
    let s' : IsSendable max m' = record {
      header_size = s.header_size;
      magic = s.magic;
      fits = omega (arith, s.fits, same_size);
      allowed = rw same_size s.allowed;
      distinct = Distinct-reordered p s.distinct;
    } in
    let same : ◌≡◌ {A = Entries} (Quot.mk m.metadata) (Quot.mk md) =
      Quot.sound (SameEntries-reordered p s.distinct) in
    (
      same_size,
      record m { buf = body m },
      record m' { buf = body m' },
      read-encode max m r.stream r.end s,
      read-encode max m' r.stream r.end s',
      refl,
      ap (λ (e : Entries). record (meaning m) { entries = e }) (sym same),
    )
