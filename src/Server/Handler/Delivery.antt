-- ===== src/Server/Handler/Delivery.antt =====
-- From the handler of a request to the reader at the other end of the connection.
use a_simple_rpc.Prelude.{
  ◌<◌, ◌^◌, ◌≡◌, refl, sym, ap, true, ◌++◌, Option, none, some, text_eq, nat_eq, inl, subst,
}
use a_simple_rpc.Prelude.Bytes.{Bytes, Text}
use a_simple_rpc.Prelude.Maps.{Map}
use a_simple_rpc.Outcome.{Err, ok}
use a_simple_rpc.Protocol.Header.{IsHeader, check_magic_number}
use a_simple_rpc.Protocol.Header.View.{View, view}
use a_simple_rpc.Protocol.Metadata.RoundTrip.{Distinct}
use a_simple_rpc.Protocol.Message.{Message, encode, read, total_length}
use a_simple_rpc.Protocol.Message.Layout.{body}
use a_simple_rpc.Protocol.Message.RoundTrip.{IsSendable, read-encode}
use a_simple_rpc.Server.Pool.{Pools}
use a_simple_rpc.Server.Handler.{Service, Backend, handle_request}
use a_simple_rpc.Server.Handler.Responses.{IsResponse, Good, error_metadata, handle_request-Good}

module _ {V : Type 0} (b : Backend V) (services : Map Text Service) (req : Message)
    (ps : Pools V) where
  error_metadata-Distinct : (e : Option Err) → Distinct (error_metadata b e)
  error_metadata-Distinct none = tt
  error_metadata-Distinct (some e) = (tt, tt)

  -- A response to a request that `Decode` took, read by the client: if `handleRequest` returns, and its
  -- message takes less than 2^32 bytes, then a reader of the written bytes, with no limit on the length,
  -- gets exactly one message and is left behind it; that message has the request's header, with its
  -- sequence number, marked a response and marked an error where there is one, the names of the
  -- request, the payload that the handler filled in, and the text of the error as its metadata.
  pub read-IsResponse :
      (res : Message) (e : Option Err) (rest : Bytes) (end : Err)
      → IsHeader req.header
      → check_magic_number req.header ≡ true
      → (handle_request b services req ps).0 ≡ ok (res, e)
      → total_length res < 2 ^ 32
      → (m : Message) × (read 0 (record { stream = encode res ++ rest; end = end })
          ≡ (ok m, record { stream = rest; end = end }))
        × IsResponse b req m e
        × (m.payload ≡ res.payload)
  unfolding view check_magic_number
  read-IsResponse res e rest end whole magic handled fits =
      (record res { buf = body res }, read-encode 0 res rest end sendable, kept, refl)
    where
      good : IsResponse b req res e
      good = subst (Good b req) handled (handle_request-Good b req whole services ps)

      sendable : IsSendable 0 res
      sendable = record {
        header_size = good.whole_header.size;
        magic = rw (ap (λ (v : View). v.magic) good.header_view) magic;
        fits = fits;
        allowed = inl refl;
        distinct = subst Distinct (sym good.metadata_is) (error_metadata-Distinct e);
      }

      kept : IsResponse b req (record res { buf = body res }) e
      kept = record {
        same_path = good.same_path;
        same_method = good.same_method;
        whole_header = good.whole_header;
        header_view = good.header_view;
        metadata_is = good.metadata_is;
      }
