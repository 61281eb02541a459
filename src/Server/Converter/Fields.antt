-- ===== src/Server/Converter/Fields.antt =====
-- The message that comes of an HTTP request, field by field.
use a_simple_rpc.Prelude.{ℕ, ◌<◌, ◌^◌, ◌%◌, ◌≡◌, refl, Bool, false, not, List, [], arith}
use a_simple_rpc.Prelude.Int.{ℤ, pos}
use a_simple_rpc.Prelude.Bytes.{Bytes, Text, be_from}
use a_simple_rpc.Prelude.Maps.{Map}
use a_simple_rpc.Outcome.{ok}
use a_simple_rpc.Protocol.Header.{
  version, message_type, is_heartbeat, is_oneway, message_status_type, serialize_type, seq,
  IsHeader, request, new_header, set_message_type,
}
use a_simple_rpc.Protocol.Header.View.{View, view}
use a_simple_rpc.Protocol.Message.{Message, new_message}
use a_simple_rpc.Server.Converter.{
  HttpHeader, x_heartbeat, x_oneway, x_serialize_type, x_message_id, x_service_path,
  x_service_method, x_meta, header_get, is_empty, Parsers, to_byte, and_then, first_values,
  http_request_to_message,
}
use a_simple_rpc.Server.Converter.Drafts.{
  Reads, number_of, Draft, seq-Passes, heartbeat-Passes, oneway-Passes, type-Passes,
  metadata-Passes,
}

-- The header of a request with these fields.
abbrev pub asked : Bool → Bool → ℕ → ℕ → View
asked hb ow st id = record {
  magic = 8;
  version_ = 0;
  type_ = 0;
  heartbeat = hb;
  oneway = ow;
  status = 0;
  serialize = st;
  seq_ = id;
}

blank-Draft :
    Draft
      (record new_message { header = set_message_type new_message.header request })
      (asked false false 0 0)
      []
unfolding new_message new_header set_message_type view version message_type is_heartbeat is_oneway
    message_status_type serialize_type seq be_from
blank-Draft = record {
  headed = record { size = refl; bytes = omega arith };
  viewed = refl;
  meta = refl;
}

pub record Converted (h : HttpHeader) (payload : Bytes) (id : ℕ) (st : ℤ)
    (md : Map Text (List Text)) (m : Message) : Type 0 where
  pub whole_header : IsHeader m.header
  pub header_view :
      view m.header
      ≡ asked
          (not (is_empty (header_get x_heartbeat h)))
          (not (is_empty (header_get x_oneway h)))
          (to_byte st % 16)
          id
  pub path : m.service_path ≡ header_get x_service_path h
  pub method : m.service_method ≡ header_get x_service_method h
  pub metadata_ : m.metadata ≡ first_values md []
  pub payload_ : m.payload ≡ payload

-- An HTTP request whose message id, serialization type and metadata are empty or can be parsed becomes a
-- request message: it has the names and the payload given, the parsed number, the low four bits of the
-- parsed serialization type and the first value of each metadata name, and it is marked a heartbeat or
-- one-way if the HTTP header has any text for that, also one that says no.
pub http_request_to_message-Converted :
    (p : Parsers) (h : HttpHeader) (payload : Bytes) (id : ℕ) (st : ℤ) (md : Map Text (List Text))
    → ((v : Text) (n : ℕ) → p.parse_uint v ≡ ok n → n < 2 ^ 64)
    → Reads (header_get x_message_id h) (p.parse_uint (header_get x_message_id h)) 0 id
    → Reads
        (header_get x_serialize_type h)
        (number_of (p.atoi (header_get x_serialize_type h)))
        (pos 0)
        st
    → Reads (header_get x_meta h) (p.parse_query (header_get x_meta h)) [] md
    → (m : Message) × (http_request_to_message p h payload ≡ ok m) × Converted h payload id st md m
unfolding http_request_to_message and_then
http_request_to_message-Converted p h payload id st md small reads_id reads_st reads_md =
    let a =
      seq-Passes p (header_get x_message_id h) id _ (asked false false 0 0) [] small refl reads_id
        blank-Draft in
    let b =
      heartbeat-Passes (header_get x_heartbeat h) a.made (asked false false 0 id) [] refl a.draft in
    let hb = not (is_empty (header_get x_heartbeat h)) in
    let c = oneway-Passes (header_get x_oneway h) b.made (asked hb false 0 id) [] refl b.draft in
    let ow = not (is_empty (header_get x_oneway h)) in
    let d =
      type-Passes p (header_get x_serialize_type h) st c.made (asked hb ow 0 id) [] refl reads_st
        c.draft in
    let e =
      metadata-Passes p (header_get x_meta h) md d.made (asked hb ow (to_byte st % 16) id) reads_md
        d.draft in
    (
      record e.made {
        service_path = header_get x_service_path h;
        service_method = header_get x_service_method h;
        payload = payload;
      },
      rw (a.passed, b.passed, c.passed, d.passed, e.passed) refl,
      record {
        whole_header = e.draft.headed;
        header_view = e.draft.viewed;
        path = refl;
        method = refl;
        metadata_ = e.draft.meta;
        payload_ = refl;
      },
    )
