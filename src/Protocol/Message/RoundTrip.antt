-- ===== src/Protocol/Message/RoundTrip.antt =====
-- `Decode` reads back what `Encode` wrote.
use a_simple_rpc.Prelude.{
  ℕ, ◌^◌, ◌≡◌, ◌<◌, ◌≤◌, ◌⊎◌, refl, sym, ap, ap₂, ◌∙◌, [], ◌∷◌, ◌++◌, true, arith, length, drop,
  drop-nil, length-append, append_assoc, append-nil,
}
use a_simple_rpc.Prelude.Bytes.{Bytes, Text, u32, put_be}
use a_simple_rpc.Prelude.Maps.{Map}
use a_simple_rpc.Prelude.Cursor.{At-zero}
use a_simple_rpc.Outcome.{Err, ok}
use a_simple_rpc.Protocol.Header.{check_magic_number, new_header}
use a_simple_rpc.Protocol.Metadata.{encode_metadata}
use a_simple_rpc.Protocol.Metadata.RoundTrip.{Distinct}
use a_simple_rpc.Protocol.Message.{
  Message, State, total_length, encode, check_magic, current_buf, decode_steps, decode, recover,
  read, new_message,
}
use a_simple_rpc.Protocol.Message.Layout.{block, body, encode-body, length-block}
use a_simple_rpc.Protocol.Message.Body.{decode_body-body, decoded_metadata}
use a_simple_rpc.Protocol.Message.Steps.{
  read_header-first, read_header-rest, read_length-append, check_length-ok, fill_buf-append,
}

-- The message that `Decode` leaves when it reads the encoding of `m` into `old`.
abbrev pub decoded : Message → Message → Message
decoded old m = record m {
  metadata = decoded_metadata old.metadata m.metadata;
  buf = body m ++ drop (total_length m) old.buf;
}

-- A message whose encoding can be told apart from others: a header that `Decode` takes, a length that
-- four bytes can hold and `MaxMessageLength` allows, and each key once.
pub record IsSendable (max : ℕ) (m : Message) : Type 0 where
  pub header_size : length m.header ≡ 12
  pub magic : check_magic_number m.header ≡ true
  pub fits : total_length m < 2 ^ 32
  pub allowed : (max ≡ 0) ⊎ (total_length m ≤ max)
  pub distinct : Distinct m.metadata

length-body : (m : Message) → length (body m) ≡ total_length m
unfolding body
length-body m = omega (
  arith,
  length-append (block m.service_path)
      (block m.service_method ++ (block (encode_metadata m.metadata) ++ block m.payload)),
  length-append (block m.service_method) (block (encode_metadata m.metadata) ++ block m.payload),
  length-append (block (encode_metadata m.metadata)) (block m.payload),
  length-block m.service_path,
  length-block m.service_method,
  length-block (encode_metadata m.metadata),
  length-block m.payload,
)

module _ (max : ℕ) (m : Message) (sendable : IsSendable max m) (rest : Bytes) (s : State) (x b : ℕ)
    (xs t : Bytes) (header_is : m.header ≡ b ∷ t) (old_header : s.message.header ≡ x ∷ xs)
    (old_size : length xs ≡ 11) (stream_is : s.reader.stream ≡ encode m ++ rest) where
  -- What is still to be read after the header, and after the length.
  abbrev after_header : Bytes
  after_header = put_be 4 (u32 (total_length m)) ++ (body m ++ rest)

  abbrev after_length : Bytes
  after_length = body m ++ rest

  abbrev s1 : State
  s1 = record {
    message = record (s.message) { header = b ∷ xs };
    reader = record (s.reader) { stream = t ++ after_header };
  }

  abbrev s2 : State
  s2 = record {
    message = record (s.message) { header = b ∷ t };
    reader = record (s.reader) { stream = after_header };
  }

  abbrev s3 : State
  s3 = record s2 { reader = record (s.reader) { stream = after_length } }

  abbrev s4 : State
  s4 = record {
    message = record (s2.message) { buf = body m ++ drop (total_length m) s.message.buf };
    reader = record (s.reader) { stream = rest };
  }

  tail_size : length t ≡ 11
  tail_size = omega (arith, sendable.header_size, ap length header_is)

  stream_split : s.reader.stream ≡ b ∷ (t ++ after_header)
  stream_split = stream_is ∙ rw (encode-body m sendable.header_size, header_is) (simp append_assoc)

  magic_is : check_magic_number (b ∷ xs) ≡ true
  unfolding check_magic_number
  magic_is = rw header_is at (sendable.magic)

  decode_steps-encode : decode_steps max s ≡ (
    record { message = decoded s.message m; reader = record (s.reader) { stream = rest } },
    ok tt,
  )
  unfolding decode_steps check_magic current_buf
  decode_steps-encode =
      rw
        (
          read_header-first s x b xs (t ++ after_header) old_header stream_split,
          magic_is,
          read_header-rest s1 b xs t after_header refl old_size tail_size refl,
          read_length-append s2 (total_length m) after_length sendable.fits refl,
          check_length-ok max (total_length m) s3 sendable.allowed,
          fill_buf-append (total_length m) s3 (body m) rest refl (sym (length-body m)),
          decode_body-body (s4.message.buf) m (drop (total_length m) s.message.buf) s4 (At-zero _)
              sendable.fits sendable.distinct,
        )
        (ap
          (λ (hd : Bytes). (
            record {
              message = record (decoded s.message m) { header = hd };
              reader = record (s.reader) { stream = rest };
            },
            ok tt,
          ))
          (sym header_is))

header_split : (h : Bytes) → length h ≡ 12 → (b : ℕ) × (t : Bytes) × (h ≡ b ∷ t) × (length t ≡ 11)
header_split [] e = absurd (omega arith)
header_split (b ∷ t) e = (b, t, refl, omega arith)

-- `Decode` on a stream that begins with the encoding of a message: the magic number in its 12-byte
-- header, a length below 2^32 that the limit allows, each metadata key once. Whatever the message it
-- reads into held before, and whatever buffer it reuses, it returns no error, takes exactly the
-- encoding from the reader, and leaves the message that was encoded; only where that has no metadata
-- do those of the earlier use stay.
pub decode-encode :
    (max : ℕ) (m : Message) (rest : Bytes) (s : State)
    → IsSendable max m
    → length s.message.header ≡ 12
    → s.reader.stream ≡ encode m ++ rest
    → decode max s ≡ (
      record { message = decoded s.message m; reader = record (s.reader) { stream = rest } },
      ok tt,
    )
unfolding decode recover
decode-encode max m rest s sendable size e =
    let (b, t, header_is, _) = header_split m.header sendable.header_size in
    let (x, xs, old_header, old_size) = header_split s.message.header size in
    rw (decode_steps-encode max m sendable rest s x b xs t header_is old_header old_size e)

decoded-new_message : (m : Message) → decoded new_message m ≡ record m { buf = body m }
unfolding new_message
decoded-new_message m =
    ap₂ (λ (md : Map Text Text) (b : Bytes). record m { metadata = md; buf = b }) (kept m.metadata)
      (rw (drop-nil {A = ℕ} (total_length m), append-nil))
  where
    kept : (md : Map Text Text) → decoded_metadata [] md ≡ md
    kept [] = refl
    kept (e ∷ md) = refl

-- `Read` on a stream that begins with the encoding of a message whose header has 12 bytes and the magic
-- number, whose length is below 2^32 and within the limit, and whose metadata has each key once: it
-- returns that message, with the same header, service path, service method, metadata and payload, and
-- leaves the reader at the first byte behind the encoding.
pub read-encode :
    (max : ℕ) (m : Message) (rest : Bytes) (e : Err)
    → IsSendable max m
    → read max (record { stream = encode m ++ rest; end = e })
      ≡ (ok (record m { buf = body m }), record { stream = rest; end = e })
unfolding read
read-encode max m rest e sendable =
    rw
      (decode-encode max m rest
        (record { message = new_message; reader = record { stream = encode m ++ rest; end = e } })
        sendable (unfold new_message new_header in refl) refl)
      (rw (decoded-new_message m))
