-- ===== src/Tests/Rounds.antt =====
-- Remote calls and heartbeats with concrete libraries.
use a_simple_rpc.Prelude.{
  ◌≤◌, ℕ, ◌≡◌, refl, true, false, [], ◌∷◌, Option, none, some, arith, nat_eq, text_eq, bytes_eq,
}
use a_simple_rpc.Prelude.Bytes.{Bytes, codes}
use a_simple_rpc.Prelude.Maps.{lookup, insert}
use a_simple_rpc.Outcome.{Err, eof, external, ok}
use a_simple_rpc.Share.{has_codec}
use a_simple_rpc.Protocol.Metadata.{encode_metadata}
use a_simple_rpc.Protocol.Message.{new_message}
use a_simple_rpc.Client.Call.{is_heartbeat_call, call_message, type_for}
use a_simple_rpc.Client.Connection.{Client, send, reserve, send_reserved, transmit}
use a_simple_rpc.Server.Pool.{get, get_from, take_one, put, put_reset, put_in}
use a_simple_rpc.Codecs.{
  Libraries, codecs, encode_on, marshal_on, client_codec, settled, json_codec,
}
use a_simple_rpc.Codecs.RoundTrip.{Keeps}
use a_simple_rpc.Exchange.Serving.{CanServe}
use a_simple_rpc.Exchange.Round.{CanSend, Round, send-Round}
use a_simple_rpc.Client.Heartbeat.{Beat, heartbeat_call, heartbeat, abnormal, is_error}
use a_simple_rpc.Client.Heartbeat.Stopping.{is_over, heartbeat-Stops}
use a_simple_rpc.Exchange.Heartbeat.{CanBeat, heartbeat-Round}
use a_simple_rpc.Tests.Requests.{services, pools, backend}
use a_simple_rpc.Tests.Connections.{mul, fresh}

-- A number is written as one byte.
abbrev from_byte : Bytes → ℕ → ℕ × Option Err
from_byte (x ∷ []) v = (x, none)
from_byte _ v = (v, some (external (codes "no number")))

abbrev bytes_libraries : Libraries ℕ
bytes_libraries = record {
  type_of = λ v. 0;
  type_text = λ t. codes "*int";
  is_marshaler = λ t. false;
  is_unmarshaler = λ t. false;
  is_message = λ t. false;
  gogo_marshal = λ v. (v ∷ [], none);
  gogo_unmarshal = from_byte;
  pb_marshal = λ v. (v ∷ [], none);
  pb_unmarshal = from_byte;
  json_marshal = λ v. (v ∷ [], none);
  json_decode = λ use_number. from_byte;
  error_text = λ e. codes "failed";
}

abbrev IsZero : ℕ → Type 0
IsZero v = v ≡ 0

abbrev IsAny : ℕ → Type 0
IsAny v = Unit {0}

from_byte_lem :
    (v w : ℕ) (bytes : Bytes)
    → ◌≡◌ {A = Bytes × Option Err} (v ∷ [], none) (bytes, none)
    → from_byte bytes w ≡ (v, none)
from_byte_lem v w bytes e = let is : v ∷ [] ≡ bytes = cc e in rw⁻¹ is refl

bytes_libraries-Keeps : Keeps bytes_libraries IsZero IsAny
bytes_libraries-Keeps = record {
  both = λ t. refl;
  gogo_law = λ v w bytes any blank same e. from_byte_lem v w bytes e;
  pb_law = λ v w bytes any same e. from_byte_lem v w bytes e;
  json_law = λ v w bytes any blank same e. from_byte_lem v w bytes e;
}

can_send : CanSend bytes_libraries fresh 3 (6 ∷ [])
unfolding is_heartbeat_call bytes_eq has_codec codecs marshal_on lookup json_codec encode_metadata
    call_message new_message
can_send = record {
  up = refl;
  opened = refl;
  named = refl;
  known = refl;
  numbered = omega arith;
  distinct = tt;
  encoded = refl;
  short = omega arith;
}

abbrev can_serve : CanServe bytes_libraries IsZero IsAny (backend (ok none)) services pools 1 mul
unfolding lookup bytes_eq get get_from take_one put put_reset put_in insert encode_on codecs
    json_codec settled
can_serve = record {
  svc = record {
    name = codes "Arith";
    method_map = (codes "Mul", record { arg_type = 1; reply_type = 2; is_pointer = true }) ∷ [];
  };
  mt = record { arg_type = 1; reply_type = 2; is_pointer = true };
  argv0 = 0;
  replyv = 0;
  ps1 = pools;
  ps2 = pools;
  ps3 = (1, 0 ∷ []) ∷ (2, []) ∷ [];
  ps4 = (1, 0 ∷ []) ∷ (2, 0 ∷ []) ∷ [];
  bytes = 36 ∷ [];
  invoked = record { args = 6; reply = 36; result = ok none };
  service_is = refl;
  method_is = refl;
  argument = refl;
  blank = refl;
  same_type = refl;
  whole = tt;
  reply = refl;
  invoked_is = refl;
  succeeds = refl;
  returned = refl;
  kept = refl;
  encoded = refl;
  filled = refl;
  short = omega arith;
}

-- The client behind the `send`.
abbrev sent_mul : Client ℕ
sent_mul = send (client_codec bytes_libraries) none 3 fresh

-- Six times six, on the server.
send-Round_example :
    Round bytes_libraries
      (backend (ok none))
      services
      pools
      ((1, 0 ∷ []) ∷ (2, 0 ∷ []) ∷ [])
      fresh
      sent_mul
      3
      36
      (record { stream = []; end = eof })
      (record { stream = 9 ∷ []; end = eof })
unfolding can_serve send reserve send_reserved transmit type_for is_heartbeat_call bytes_eq
    client_codec marshal_on codecs lookup json_codec has_codec insert
send-Round_example =
    send-Round bytes_libraries IsZero IsAny bytes_libraries-Keeps (backend (ok none)) services pools
      fresh sent_mul 3 (6 ∷ []) can_send can_serve (record { stream = []; end = eof })
      (record { stream = 9 ∷ []; end = eof }) refl refl tt refl refl

-- A client with a heartbeat to send.
abbrev beating : Client ℕ
beating = record fresh { calls = λ id. heartbeat_call 6 0 }

can_beat : CanBeat bytes_libraries beating 3 (6 ∷ [])
unfolding codecs marshal_on lookup json_codec heartbeat_call
can_beat = record {
  up = refl;
  opened = refl;
  no_path = refl;
  no_method = refl;
  no_metadata = refl;
  numbered = omega arith;
  encoded = refl;
  filled = refl;
  short = omega arith;
}

abbrev sent_beat : Client ℕ
sent_beat = send (client_codec bytes_libraries) none 3 beating

heartbeat-Round_example :
    Round bytes_libraries
      (backend (ok none))
      services
      pools
      pools
      beating
      sent_beat
      3
      6
      (record { stream = []; end = eof })
      (record { stream = 9 ∷ []; end = eof })
unfolding heartbeat_call send reserve send_reserved transmit type_for is_heartbeat_call bytes_eq
    client_codec marshal_on codecs lookup json_codec has_codec insert
heartbeat-Round_example =
    heartbeat-Round bytes_libraries IsZero IsAny bytes_libraries-Keeps (backend (ok none)) services
      pools beating sent_beat 3 (6 ∷ []) can_beat (record { stream = []; end = eof })
      (record { stream = 9 ∷ []; end = eof }) refl tt refl refl

-- The second heartbeat of three gets an error.
abbrev beats_of : Option Err → Beat ℕ
beats_of e = record { meanwhile = λ c. c; ctx_error = none; error = e; close_error = none }

heartbeat-Stops_example :
    ((heartbeat (beats_of none ∷ beats_of (some eof) ∷ beats_of none ∷ []) beating).1 ≤ 2)
    × (is_over (heartbeat (beats_of none ∷ beats_of (some eof) ∷ beats_of none ∷ []) beating).0
        ≡ true)
heartbeat-Stops_example =
    heartbeat-Stops (beats_of none ∷ []) (beats_of (some eof)) (beats_of none ∷ []) beating
      (unfold abnormal is_error in refl)
