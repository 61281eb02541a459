-- ===== src/Protocol/Message/Frames.antt =====
-- `Decode` of a whole frame: the header, the length of the body, and as many bytes, whatever they are.
use a_simple_rpc.Prelude.{
  ℕ, ◌^◌, ◌≤◌, ◌<◌, ◌≡◌, ◌⊎◌, replicate, refl, sym, subst, true, [], ◌∷◌, ◌++◌, length, drop,
  drop-nil, append-nil,
}
use a_simple_rpc.Prelude.Bytes.{Bytes, u32, put_be}
use a_simple_rpc.Outcome.{Err, meta_kv_missing, Outcome, ok, fail, panic, stuck}
use a_simple_rpc.Protocol.Header.{check_magic_number, new_header}
use a_simple_rpc.Protocol.Message.{
  Message, Reader, State, new_message, decode_body, decode_steps, check_magic, current_buf, recover,
  decode, read, read_result,
}
use a_simple_rpc.Protocol.Message.Steps.{
  read_header-first, read_header-rest, read_length-append, check_length-ok, fill_buf-append,
}
use a_simple_rpc.Protocol.Message.Ends.{BodyEnds, done, failed, paniced, decode_body-BodyEnds}

-- What `Read` returns for a frame: a message, or the error of the metadata.
pub data FrameResult : Outcome Message → Type 0 where
  message : (m : Message) → FrameResult (ok m)
  no_metadata : FrameResult (fail meta_kv_missing)

result-FrameResult :
    (r : Reader) (s : State) (o : Outcome (Unit {0}))
    → BodyEnds r (s, o)
    → FrameResult (read_result (s, recover o)).0 × ((read_result (s, recover o)).1 ≡ r)
unfolding recover
result-FrameResult r s (ok a) (done b e k) = (message s.message, k)
result-FrameResult r s panic (paniced e k) = (message s.message, k)
result-FrameResult r s (fail x) (failed e k) =
    let same : x ≡ meta_kv_missing = cc e in
    (subst (λ y. FrameResult (fail y)) (sym same) no_metadata, k)
result-FrameResult r s (ok a) (failed e k) = absurd (cc e)
result-FrameResult r s (ok a) (paniced e k) = absurd (cc e)
result-FrameResult r s (fail x) (done b e k) = absurd (cc e)
result-FrameResult r s (fail x) (paniced e k) = absurd (cc e)
result-FrameResult r s panic (done b e k) = absurd (cc e)
result-FrameResult r s panic (failed e k) = absurd (cc e)
result-FrameResult r s stuck (done b e k) = absurd (cc e)
result-FrameResult r s stuck (failed e k) = absurd (cc e)
result-FrameResult r s stuck (paniced e k) = absurd (cc e)

module _ (b : ℕ) (t data_ rest : Bytes) (e : Err) where
  abbrev pub frame : Bytes
  frame = b ∷ (t ++ (put_be 4 (u32 (length data_)) ++ (data_ ++ rest)))

  abbrev pub start : State
  start = record { message = new_message; reader = record { stream = frame; end = e } }

  abbrev s1 : State
  s1 = record {
    message = record new_message { header = b ∷ replicate 11 0 };
    reader = record { stream = t ++ (put_be 4 (u32 (length data_)) ++ (data_ ++ rest)); end = e };
  }

  abbrev s2 : State
  s2 = record {
    message = record new_message { header = b ∷ t };
    reader = record { stream = put_be 4 (u32 (length data_)) ++ (data_ ++ rest); end = e };
  }

  abbrev s3 : State
  s3 = record s2 { reader = record { stream = data_ ++ rest; end = e } }

  abbrev pub s4 : State
  s4 = record {
    message = record new_message { header = b ∷ t; buf = data_ ++ drop (length data_) [] };
    reader = record { stream = rest; end = e };
  }

  pub buf_is : s4.message.buf ≡ data_
  buf_is = rw (drop-nil {A = ℕ} (length data_)) (append-nil data_)

  pub decode_steps-frame :
      (max : ℕ)
      → length t ≡ 11
      → check_magic_number (b ∷ replicate 11 0) ≡ true
      → (max ≡ 0) ⊎ (length data_ ≤ max)
      → length data_ < 2 ^ 32
      → decode_steps max start ≡ decode_body s4.message.buf s4
  unfolding decode_steps check_magic current_buf new_message new_header
  decode_steps-frame max size magic allowed small =
      rw
        (
          read_header-first start 8 b (replicate 11 0)
              (t ++ (put_be 4 (u32 (length data_)) ++ (data_ ++ rest))) refl refl,
          magic,
          read_header-rest s1 b (replicate 11 0) t
              (put_be 4 (u32 (length data_)) ++ (data_ ++ rest)) refl refl size refl,
          read_length-append s2 (length data_) (data_ ++ rest) small refl,
          check_length-ok max (length data_) s3 allowed,
          fill_buf-append (length data_) s3 data_ rest refl refl,
        )
        refl

  -- `Read` of a frame with the magic number, whose length is below 2^32 and within the limit, whatever
  -- bytes follow its header: the frame is taken from the stream and not a byte more, so that the next
  -- `Read` begins at the next frame, and the result is a message or `ErrMetaKVMissing`.
  pub read-FrameResult :
      (max : ℕ)
      → length t ≡ 11
      → check_magic_number (b ∷ t) ≡ true
      → (max ≡ 0) ⊎ (length data_ ≤ max)
      → length data_ < 2 ^ 32
      → FrameResult (read max start.reader).0
        × ((read max start.reader).1 ≡ record { stream = rest; end = e })
  unfolding read decode check_magic_number
  read-FrameResult max size magic allowed small =
      rw (decode_steps-frame max size magic allowed small) (
        result-FrameResult (record { stream = rest; end = e }) _ _
          (decode_body-BodyEnds (record { stream = rest; end = e }) s4.message.buf s4 refl))
