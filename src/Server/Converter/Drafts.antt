-- ===== src/Server/Converter/Drafts.antt =====
-- What each field of the HTTP header does to the message that is being made.
use a_simple_rpc.Prelude.{
  ℕ, ◌<◌, ◌^◌, ◌%◌, ◌≡◌, refl, sym, ap, ◌∙◌, true, false, not, List, [], ◌∷◌, Option, none, some,
  arith,
}
use a_simple_rpc.Prelude.Int.{ℤ, pos, negsuc}
use a_simple_rpc.Prelude.Bytes.{Text}
use a_simple_rpc.Prelude.Maps.{Map}
use a_simple_rpc.Outcome.{Err, Outcome, ok, fail}
use a_simple_rpc.Protocol.Header.{IsHeader, set_seq, set_heartbeat, set_oneway, set_serialize_type}
use a_simple_rpc.Protocol.Header.View.{
  View, view, Setter, to_seq, to_heartbeat, to_oneway, to_serialize, apply, apply_view, view-apply,
}
use a_simple_rpc.Protocol.Message.{Message}
use a_simple_rpc.Server.Converter.{
  is_empty, Parsers, to_byte, first_values, with_seq, with_type, with_metadata, when_given,
}

-- The value that a field of the header stands for: a default where it is empty, or what a parser gives.
pub data Reads {A : Type 0} (v : Text) (parsed : Outcome A) (default : A) : A → Type 0 where
  absent : is_empty v ≡ true → Reads v parsed default default
  given : (a : A) → is_empty v ≡ false → parsed ≡ ok a → Reads v parsed default a

-- `strconv.Atoi` as a result.
abbrev pub number_of : ℤ × Option Err → Outcome ℤ
number_of (n, none) = ok n
number_of (n, some e) = fail e

-- A message on its way: its header as a view, and its metadata.
pub record Draft (m : Message) (w : View) (md : Map Text Text) : Type 0 where
  pub headed : IsHeader m.header
  pub viewed : view m.header ≡ w
  pub meta : m.metadata ≡ md

pub record Passes (o : Outcome Message) (w : View) (md : Map Text Text) : Type 0 where
  pub made : Message
  pub passed : o ≡ ok made
  pub draft : Draft made w md

-- One setter applied to the header.
set-Draft :
    (s : Setter) (m : Message) (w : View) (md : Map Text Text)
    → Draft m w md
    → IsHeader (apply s m.header) × (view (apply s m.header) ≡ apply_view s (view m.header))
    → Draft (record m { header = apply s m.header }) (apply_view s w) md
set-Draft s m w md d h = record {
  headed = h.0;
  viewed = h.1 ∙ ap (apply_view s) d.viewed;
  meta = d.meta;
}

pub seq-Passes :
    (p : Parsers) (v : Text) (id : ℕ) (m : Message) (w : View) (md : Map Text Text)
    → ((v : Text) (n : ℕ) → p.parse_uint v ≡ ok n → n < 2 ^ 64)
    → record w { seq_ = 0 } ≡ w
    → Reads v (p.parse_uint v) 0 id
    → Draft m w md
    → Passes (when_given v (λ v m. with_seq m (p.parse_uint v)) m) (record w { seq_ = id }) md
seq-Passes p v id m w md small unset (absent e) d = record {
  made = m;
  passed = rw e refl;
  draft = record { headed = d.headed; viewed = d.viewed ∙ sym unset; meta = d.meta };
}
seq-Passes p v id m w md small unset (given a e parsed) d = record {
  made = record m { header = set_seq m.header id };
  passed = unfold with_seq in rw (e, parsed) refl;
  draft =
      unfold apply apply_view in
      set-Draft (to_seq id) m w md d (view-apply (to_seq id) m.header d.headed (small v id parsed));
}

pub heartbeat-Passes :
    (v : Text) (m : Message) (w : View) (md : Map Text Text)
    → record w { heartbeat = false } ≡ w
    → Draft m w md
    → Passes
        (when_given v (λ v m. ok (record m { header = set_heartbeat m.header true })) m)
        (record w { heartbeat = not (is_empty v) })
        md
heartbeat-Passes [] m w md unset d = record {
  made = m;
  passed = refl;
  draft = record { headed = d.headed; viewed = d.viewed ∙ sym unset; meta = d.meta };
}
heartbeat-Passes (c ∷ cs) m w md unset d = record {
  made = record m { header = set_heartbeat m.header true };
  passed = refl;
  draft =
      unfold apply apply_view in
      set-Draft (to_heartbeat true) m w md d (view-apply (to_heartbeat true) m.header d.headed tt);
}

pub oneway-Passes :
    (v : Text) (m : Message) (w : View) (md : Map Text Text)
    → record w { oneway = false } ≡ w
    → Draft m w md
    → Passes
        (when_given v (λ v m. ok (record m { header = set_oneway m.header true })) m)
        (record w { oneway = not (is_empty v) })
        md
oneway-Passes [] m w md unset d = record {
  made = m;
  passed = refl;
  draft = record { headed = d.headed; viewed = d.viewed ∙ sym unset; meta = d.meta };
}
oneway-Passes (c ∷ cs) m w md unset d = record {
  made = record m { header = set_oneway m.header true };
  passed = refl;
  draft =
      unfold apply apply_view in
      set-Draft (to_oneway true) m w md d (view-apply (to_oneway true) m.header d.headed tt);
}

to_byte-lt : (n : ℤ) → to_byte n < 256
to_byte-lt (pos n) = omega arith
to_byte-lt (negsuc n) = omega arith

with_type-ok :
    (m : Message) (r : ℤ × Option Err) (st : ℤ)
    → number_of r ≡ ok st
    → with_type m r ≡ ok (record m { header = set_serialize_type m.header (to_byte st) })
unfolding with_type
with_type-ok m (n, none) st e =
    let same : n ≡ st = cc e in
    ap (λ k. ok (record m { header = set_serialize_type m.header (to_byte k) })) same
with_type-ok m (n, some x) st e = absurd (cc e)

pub type-Passes :
    (p : Parsers) (v : Text) (st : ℤ) (m : Message) (w : View) (md : Map Text Text)
    → record w { serialize = 0 } ≡ w
    → Reads v (number_of (p.atoi v)) (pos 0) st
    → Draft m w md
    → Passes
        (when_given v (λ v m. with_type m (p.atoi v)) m)
        (record w { serialize = to_byte st % 16 })
        md
type-Passes p v st m w md unset (absent e) d = record {
  made = m;
  passed = rw e refl;
  draft = record { headed = d.headed; viewed = d.viewed ∙ sym unset; meta = d.meta };
}
type-Passes p v st m w md unset (given a e parsed) d = record {
  made = record m { header = set_serialize_type m.header (to_byte st) };
  passed = rw e (with_type-ok m (p.atoi v) st parsed);
  draft =
      unfold apply apply_view in
      set-Draft (to_serialize (to_byte st)) m w md d
        (view-apply (to_serialize (to_byte st)) m.header d.headed (to_byte-lt st));
}

pub metadata-Passes :
    (p : Parsers) (v : Text) (md : Map Text (List Text)) (m : Message) (w : View)
    → Reads v (p.parse_query v) [] md
    → Draft m w []
    → Passes (when_given v (λ v m. with_metadata m (p.parse_query v)) m) w (first_values md [])
unfolding first_values
metadata-Passes p v md m w (absent e) d = record { made = m; passed = rw e refl; draft = d }
metadata-Passes p v md m w (given a e parsed) d = record {
  made = record m { metadata = first_values md [] };
  passed = unfold with_metadata in rw (e, parsed) refl;
  draft = record { headed = d.headed; viewed = d.viewed; meta = refl };
}
