-- ===== src/Share.antt =====
-- share/share.go, the table of codecs that client and server look in, and the key of
-- protocol/message.go under which they pass an error.
use a_simple_rpc.Prelude.{ℕ, Bool, ◌==◌, ◌||◌}
use a_simple_rpc.Prelude.Bytes.{Text, codes}
use a_simple_rpc.Protocol.Header.{json, proto_buffer}

-- `Codecs`: whether it has a codec for this serialization type.
unfoldable pub has_codec : ℕ → Bool
has_codec st = st == json || st == proto_buffer

-- `ServiceError`
unfoldable pub service_error_key : Text
service_error_key = codes "__a_simple_rpc_error__"
