-- ===== src/Client/Call.antt =====
-- The objects of client/client.go: calls, their channels, the message for a call, and what a response
-- does to a call.
use a_simple_rpc.Prelude.{
  ℕ, Bool, true, not, ◌&&◌, List, [], ◌∷◌, ◌++◌, Option, none, some, ◌==◌, if◌then◌else◌, ltb,
  length, bytes_eq, text_eq,
}
use a_simple_rpc.Prelude.Bytes.{Bytes, Text, codes}
use a_simple_rpc.Prelude.Maps.{Map, lookup}
use a_simple_rpc.Outcome.{Err, service_error}
use a_simple_rpc.Share.{has_codec, service_error_key}
use a_simple_rpc.Protocol.Header.{
  request, normal, error, json, set_message_type, set_serialize_type, set_seq, set_heartbeat,
  message_status_type, serialize_type,
}
use a_simple_rpc.Protocol.Message.{Message, new_message}

-- `Call`. `done` is the address of the channel; `seq_cell` is the variable that `Call` puts into the
-- context and `send` fills with the sequence number.
pub record Call (V : Type 0) : Type 0 where
  pub service_path : Text
  pub service_method : Text
  pub metadata : Map Text Text
  pub res_metadata : Map Text Text
  pub args : V
  pub reply : V
  pub error : Option Err
  pub done : ℕ
  pub seq_cell : ℕ

-- A `chan *Call`: how many calls it can hold, and those that nobody has received yet.
pub record Channel : Type 0 where
  pub cap : ℕ
  pub queue : List ℕ

-- `Encode` and `Decode` of the codec of a serialization type.
pub record Codec (V : Type 0) : Type 0 where
  pub marshal : ℕ → V → Bytes × Option Err
  pub unmarshal : ℕ → Bytes → V → V × Option Err
  pub error_text : Err → Text

-- An object at an address is changed in place.
abbrev pub edit {ℓ} : {A : Type ℓ} → ℕ → (A → A) → (ℕ → A) → ℕ → A
edit i f heap j = if i == j then f (heap j) else heap j

-- A send under `select` with a default: into a full channel it does nothing.
unfoldable pub offer : ℕ → Channel → Channel
offer id ch =
    if ltb (length ch.queue) ch.cap then record ch { queue = ch.queue ++ (id ∷ []) } else ch

-- What `Error` of the two error values says.
unfoldable pub unsupported_codec_text : Text
unsupported_codec_text = codes "unsupported codec"

unfoldable pub unsupported_status_text : Text
unsupported_status_text = codes "unsupported msg status type"

-- A missing key of a map of strings gives the empty string.
abbrev text_or : Option Text → Text
text_or none = []
text_or (some t) = t

-- A heartbeat is sent as JSON.
unfoldable pub type_for : Bool → ℕ → ℕ
type_for heartbeat st = if heartbeat then json else st

-- A heartbeat is a call without names.
unfoldable pub is_heartbeat_call : {V : Type 0} → Call V → Bool
is_heartbeat_call call = bytes_eq call.service_path [] && bytes_eq call.service_method []

module _ {V : Type 0} where
  -- The message for a call, without its payload.
  unfoldable pub call_message : ℕ → ℕ → Call V → Message
  call_message st s call =
      let h = set_seq (set_serialize_type (set_message_type new_message.header request) st) s in
      record new_message {
        header = if is_heartbeat_call call then set_heartbeat h true else h;
        service_path = call.service_path;
        service_method = call.service_method;
        metadata = call.metadata;
      }

  -- `input` on a response that the server marked an error; an error of the codec is dropped.
  unfoldable pub error_reply : Codec V → Message → Call V → Call V
  error_reply cs msg call =
      let call' =
        if ltb 0 (length msg.metadata)
        then record call {
          res_metadata = msg.metadata;
          error = some (service_error (text_or (lookup service_error_key msg.metadata)));
        }
        else call in
      if ltb 0 (length msg.payload) && has_codec (serialize_type msg.header)
      then record call' {
        reply = (cs.unmarshal (serialize_type msg.header) msg.payload call'.reply).0;
      }
      else call'

  unfoldable pub decoded_reply : Codec V → V × Option Err → Call V → Call V × Option Err
  decoded_reply cs (v, none) call = (record call { reply = v }, none)
  decoded_reply cs (v, some e) call =
      (record call { reply = v; error = some (service_error (cs.error_text e)) }, some e)

  -- `input` on a normal response: the call, and the error that ends the loop.
  unfoldable pub normal_reply : Codec V → Message → Call V → Call V × Option Err
  normal_reply cs msg call =
      let call' =
        if ltb 0 (length msg.metadata) then record call { res_metadata = msg.metadata } else call in
      if not (ltb 0 (length msg.payload))
      then (call', none)
      else if not (has_codec (serialize_type msg.header))
      then (record call' { error = some (service_error unsupported_codec_text) }, none)
      else decoded_reply cs (cs.unmarshal (serialize_type msg.header) msg.payload call'.reply) call'

  unfoldable pub reply_to : Codec V → Message → Call V → Call V × Option Err
  reply_to cs msg call =
      if message_status_type msg.header == error
      then (error_reply cs msg call, none)
      else if message_status_type msg.header == normal
      then normal_reply cs msg call
      else (record call { error = some (service_error unsupported_status_text) }, none)
