-- ===== src/Protocol/Message/Body.antt =====
-- The part of `Decode` behind the length, on a body that `Encode` wrote.
use a_simple_rpc.Prelude.{
  ℕ, ◌+◌, ◌^◌, ◌≡◌, ◌<◌, refl, [], ◌∷◌, ◌++◌, arith, length, lt→ltb, append_assoc,
}
use a_simple_rpc.Prelude.Bytes.{Bytes, Text, u32, put_be, length-put_be}
use a_simple_rpc.Prelude.Maps.{Map}
use a_simple_rpc.Prelude.Cursor.{At, At-next}
use a_simple_rpc.Outcome.{ok}
use a_simple_rpc.Protocol.Metadata.{encode_metadata}
use a_simple_rpc.Protocol.Metadata.RoundTrip.{Distinct, length-entries, decode-encode_metadata}
use a_simple_rpc.Protocol.Message.{
  Message, State, total_length, piece, store_metadata, read_metadata, decode_body,
}
use a_simple_rpc.Protocol.Message.Layout.{block, body}
use a_simple_rpc.Protocol.Message.Steps.{piece-At, word}

-- One length and the bytes behind it, read at `n`: the position, the length's value, what follows.
module _ (buf : Bytes) (n : ℕ) (bs post : Bytes) (fits : length bs < 2 ^ 32)
    (at : At buf n (block bs ++ post)) where
  At-length : At buf n (put_be 4 (u32 (length bs)) ++ (bs ++ post))
  unfolding block
  At-length = rw append_assoc at at

  At-bytes : At buf (n + 4) (bs ++ post)
  At-bytes =
      At-next buf n (put_be 4 (u32 (length bs))) (bs ++ post) At-length (n + 4)
        (omega (arith, length-put_be 4 (u32 (length bs))))

  At-end : At buf (n + 4 + length bs) post
  At-end = At-next buf (n + 4) bs post At-bytes (n + 4 + length bs) refl

  piece-length : (s : State) → piece buf n (n + 4) s ≡ (s, ok (put_be 4 (u32 (length bs))))
  piece-length s =
      piece-At buf n (put_be 4 (u32 (length bs))) (bs ++ post) (n + 4) s At-length
        (omega (arith, length-put_be 4 (u32 (length bs))))

  piece_bytes : (s : State) (k : ℕ) → k ≡ length bs → piece buf (n + 4) (n + 4 + k) s ≡ (s, ok bs)
  piece_bytes s k e = piece-At buf (n + 4) bs post (n + 4 + k) s At-bytes (omega arith)

-- What `Decode` leaves of the metadata: a message with none keeps those of an earlier use.
abbrev pub decoded_metadata : Map Text Text → Map Text Text → Map Text Text
decoded_metadata old [] = old
decoded_metadata old (e ∷ m) = e ∷ m

read_metadata-block :
    (buf : Bytes) (n : ℕ) (m : Map Text Text) (post : Bytes) (s : State)
    → length (encode_metadata m) < 2 ^ 32
    → Distinct m
    → At buf n (encode_metadata m ++ post)
    → read_metadata buf (length (encode_metadata m)) n (n + length (encode_metadata m)) s ≡ (
      record s {
        message = record (s.message) { metadata = decoded_metadata s.message.metadata m };
      },
      ok tt,
    )
unfolding read_metadata
read_metadata-block buf n [] post s h d at = unfold encode_metadata in refl
read_metadata-block buf n ((k, v) ∷ m) post s h d at =
    rw
      (
        lt→ltb 0 (length (encode_metadata ((k, v) ∷ m))) (omega (arith, length-entries k v m)),
        piece-At buf n (encode_metadata ((k, v) ∷ m)) post _ s at refl,
        at.left,
        decode-encode_metadata ((k, v) ∷ m) post h d,
      )
      (unfold store_metadata in refl)

module _ (buf : Bytes) (m : Message) (slack : Bytes) (s : State) (at : At buf 0 (body m ++ slack))
    (fits : total_length m < 2 ^ 32) (distinct : Distinct m.metadata) where
  meta : Bytes
  meta = encode_metadata m.metadata

  -- What `Decode` has read from the body.
  abbrev pub decoded_body : Message
  decoded_body = record (s.message) {
    service_path = m.service_path;
    service_method = m.service_method;
    metadata = decoded_metadata s.message.metadata m.metadata;
    payload = m.payload;
  }

  abbrev after_path : State
  after_path = record s { message = record (s.message) { service_path = m.service_path } }

  abbrev after_method : State
  after_method = record after_path {
    message = record (after_path.message) { service_method = m.service_method };
  }

  abbrev after_metadata : State
  after_metadata = record after_method {
    message = record (after_method.message) {
      metadata = decoded_metadata s.message.metadata m.metadata;
    };
  }

  abbrev at1 : ℕ
  at1 = 4 + length m.service_path

  abbrev at2 : ℕ
  at2 = at1 + 4 + length m.service_method

  abbrev at3 : ℕ
  at3 = at2 + 4 + length meta

  At-path : At buf 0 (
      block m.service_path
      ++ (block m.service_method ++ (block meta ++ (block m.payload ++ slack))))
  unfolding body meta
  At-path = simp append_assoc at at

  At-method : At buf at1 (block m.service_method ++ (block meta ++ (block m.payload ++ slack)))
  At-method = At-end buf 0 m.service_path _ (omega arith) At-path

  At-metadata : At buf at2 (block meta ++ (block m.payload ++ slack))
  At-metadata = At-end buf at1 m.service_method _ (omega arith) At-method

  At-payload : At buf at3 (block m.payload ++ slack)
  unfolding meta
  At-payload = At-end buf at2 meta _ (omega arith) At-metadata

  pub decode_body-body : decode_body buf s ≡ (record s { message = decoded_body }, ok tt)
  unfolding decode_body meta
  decode_body-body = rw (
    piece-length buf 0 m.service_path _ (omega arith) At-path s,
    word (length m.service_path) (omega arith),
    piece_bytes buf 0 m.service_path _ (omega arith) At-path s (length m.service_path) refl,
    piece-length buf at1 m.service_method _ (omega arith) At-method after_path,
    word (length m.service_method) (omega arith),
    piece_bytes buf at1 m.service_method _ (omega arith) At-method after_path
        (length m.service_method) refl,
    piece-length buf at2 meta _ (omega arith) At-metadata after_method,
    word (length meta) (omega arith),
    read_metadata-block buf (at2 + 4) m.metadata (block m.payload ++ slack) after_method
        (omega arith) distinct (At-bytes buf at2 meta _ (omega arith) At-metadata),
    piece-length buf at3 m.payload slack (omega arith) At-payload after_metadata,
    word (length m.payload) (omega arith),
    piece_bytes buf at3 m.payload slack (omega arith) At-payload after_metadata (length m.payload)
        refl,
  )
