-- ===== src/Tests/Wire.antt =====
-- protocol/message.go on concrete headers and messages.
use a_simple_rpc.Prelude.{◌<◌, ◌^◌, ◌≡◌, refl, inl, List, [], ◌∷◌, ◌++◌, arith, text_eq, replicate}
use mathlib.Core.List.Permᴰ.{swap}
use a_simple_rpc.Prelude.Bytes.{Text, u32, put_be, codes}
use a_simple_rpc.Outcome.{eof, ok}
use a_simple_rpc.Protocol.Header.{
  IsHeader, new_header, check_magic_number, set_message_type, message_type,
}
use a_simple_rpc.Protocol.Header.View.{view, to_type, apply, apply_view, view-apply}
use a_simple_rpc.Protocol.Metadata.{encode_entry, encode_metadata}
use a_simple_rpc.Protocol.Metadata.RoundTrip.{Distinct}
use a_simple_rpc.Protocol.Message.{Message, new_message, encode, total_length, read}
use a_simple_rpc.Protocol.Message.Layout.{body}
use a_simple_rpc.Protocol.Message.RoundTrip.{IsSendable, read-encode}
use a_simple_rpc.Protocol.Message.Meaning.{meaning, read-meaning}
use a_simple_rpc.Protocol.Message.Malformed.{read-short}
use a_simple_rpc.Protocol.Message.Frames.{FrameResult, start, read-FrameResult}
use a_simple_rpc.Protocol.Message.Totality.{Returns, read-Returns}

new_header-IsHeader : IsHeader new_header
unfolding new_header
new_header-IsHeader = omega arith

-- A response header cannot be made a request header again.
type_stays : message_type (set_message_type (set_message_type new_header 1) 0) ≡ 1
unfolding message_type set_message_type new_header
type_stays = refl

view-apply_example :
    IsHeader (apply (to_type 1) new_header)
    × (view (apply (to_type 1) new_header) ≡ apply_view (to_type 1) (view new_header))
view-apply_example = view-apply (to_type 1) new_header new_header-IsHeader (omega arith)

abbrev trace : List (Text × Text)
trace = (codes "trace", codes "7") ∷ (codes "user", codes "ann") ∷ []

trace-Distinct : Distinct trace
trace-Distinct = (((λ e. ground (arith, e)), tt), (tt, tt))

abbrev sample : Message
sample = record {
  header = new_header;
  service_path = codes "Arith";
  service_method = codes "Mul";
  metadata = trace;
  payload = 1 ∷ 2 ∷ [];
  buf = [];
}

sample_fits : total_length sample < 2 ^ 32
unfolding encode_metadata encode_entry put_be
sample_fits = omega arith

sample-IsSendable : IsSendable 0 sample
sample-IsSendable = record {
  header_size = unfold new_header in refl;
  magic = unfold new_header check_magic_number in refl;
  fits = sample_fits;
  allowed = inl refl;
  distinct = trace-Distinct;
}

read-encode_example :
    read 0 (record { stream = encode sample ++ (8 ∷ []); end = eof })
    ≡ (ok (record sample { buf = body sample }), record { stream = 8 ∷ []; end = eof })
read-encode_example = read-encode 0 sample (8 ∷ []) eof sample-IsSendable

-- The metadata in the other order.
abbrev reordered : List (Text × Text)
reordered = (codes "user", codes "ann") ∷ (codes "trace", codes "7") ∷ []

read-meaning_example :
    (total_length (record sample { metadata = reordered }) ≡ total_length sample)
    × (a b : Message) × (read 0 (record { stream = encode sample ++ (8 ∷ []); end = eof })
        ≡ (ok a, record { stream = 8 ∷ []; end = eof }))
    × (read 0 (record {
      stream = encode (record sample { metadata = reordered }) ++ (8 ∷ []);
      end = eof;
    })
        ≡ (ok b, record { stream = 8 ∷ []; end = eof }))
    × (meaning a ≡ meaning sample)
    × (meaning b ≡ meaning sample)
read-meaning_example =
    read-meaning 0 sample reordered (record { stream = 8 ∷ []; end = eof }) sample-IsSendable
      (swap refl refl)

-- A body of one byte.
read-short_example :
    read 0 (record {
      stream =
          8
          ∷ ((0 ∷ 0 ∷ 0 ∷ 0 ∷ 0 ∷ 0 ∷ 0 ∷ 0 ∷ 0 ∷ 0 ∷ 0 ∷ [])
              ++ (put_be 4 (u32 1) ++ (7 ∷ 9 ∷ [])));
      end = eof;
    })
    ≡ (
      ok (record new_message {
        header = 8 ∷ 0 ∷ 0 ∷ 0 ∷ 0 ∷ 0 ∷ 0 ∷ 0 ∷ 0 ∷ 0 ∷ 0 ∷ 0 ∷ [];
        buf = 7 ∷ [];
      }),
      record { stream = 9 ∷ []; end = eof },
    )
read-short_example =
    read-short 8 (0 ∷ 0 ∷ 0 ∷ 0 ∷ 0 ∷ 0 ∷ 0 ∷ 0 ∷ 0 ∷ 0 ∷ 0 ∷ []) (7 ∷ []) (9 ∷ []) eof 0 refl
      (unfold check_magic_number in refl) (inl refl) (omega arith)

-- Metadata that ends in the middle of a value.
read-FrameResult_example :
    FrameResult (read 0 (start 8 (replicate 11 0) (1 ∷ 2 ∷ 3 ∷ 4 ∷ 5 ∷ []) (9 ∷ []) eof).reader).0
    × ((read 0 (start 8 (replicate 11 0) (1 ∷ 2 ∷ 3 ∷ 4 ∷ 5 ∷ []) (9 ∷ []) eof).reader).1
        ≡ record { stream = 9 ∷ []; end = eof })
read-FrameResult_example =
    read-FrameResult 8 (replicate 11 0) (1 ∷ 2 ∷ 3 ∷ 4 ∷ 5 ∷ []) (9 ∷ []) eof 0 refl
      (unfold check_magic_number in refl) (inl refl) (omega arith)

-- A stream that ends inside a header.
read-Returns_example : Returns (read 0 (record { stream = 8 ∷ 0 ∷ []; end = eof })).0
read-Returns_example = read-Returns 0 (record { stream = 8 ∷ 0 ∷ []; end = eof })
