-- ===== src/Protocol/Message/Malformed.antt =====
-- What `Read` makes of a frame whose body is cut short.
use a_simple_rpc.Prelude.{ℕ, ◌≤◌, ◌<◌, ◌≡◌, ◌⊎◌, refl, true, ◌∷◌, none, arith, length}
use a_simple_rpc.Prelude.Bytes.{Bytes, slice}
use a_simple_rpc.Outcome.{Err, ok, panic}
use a_simple_rpc.Protocol.Header.{check_magic_number}
use a_simple_rpc.Protocol.Message.{State, new_message, decode_body, piece, recover, decode, read}
use a_simple_rpc.Protocol.Message.Frames.{start, s4, buf_is, decode_steps-frame}

slice-short : (data_ : Bytes) → length data_ < 4 → slice data_ 0 4 ≡ none
unfolding slice
slice-short data_ h = ground (arith, h)

decode_body-short :
    (data_ : Bytes) (s : State) → length data_ < 4 → decode_body data_ s ≡ (s, panic)
unfolding decode_body piece
decode_body-short data_ s h = rw (slice-short data_ h) refl

module _ (b : ℕ) (t data_ rest : Bytes) (e : Err) where
  -- A frame with the magic number whose length field, which the limit allows, announces the fewer than
  -- four bytes that follow: slicing the length of the service path out of them panics, and `Read`
  -- returns no error all the same, with a message that has the header and nothing else, its body taken
  -- from the stream.
  pub read-short :
      (max : ℕ)
      → length t ≡ 11
      → check_magic_number (b ∷ t) ≡ true
      → (max ≡ 0) ⊎ (length data_ ≤ max)
      → length data_ < 4
      → read max (start b t data_ rest e).reader ≡ (
        ok (record new_message { header = b ∷ t; buf = data_ }),
        record { stream = rest; end = e },
      )
  unfolding read decode recover check_magic_number
  read-short max size magic allowed short =
      rw
        (
          decode_steps-frame b t data_ rest e max size magic allowed (omega (arith, short)),
          decode_body-short (s4 b t data_ rest e).message.buf (s4 b t data_ rest e)
              (rw (buf_is b t data_ rest e) short),
          buf_is b t data_ rest e,
        )
        refl
