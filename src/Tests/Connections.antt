-- ===== src/Tests/Connections.antt =====
-- client/client.go on concrete connections.
use a_simple_rpc.Prelude.{
  count, ℕ, ◌^◌, ◌<◌, ◌≡◌, refl, false, [], ◌∷◌, ◌++◌, none, some, arith, length, nat_eq, text_eq,
  bytes_eq, List,
}
use a_simple_rpc.Prelude.Bytes.{codes, be_from}
use a_simple_rpc.Prelude.Maps.{lookup, insert}
use a_simple_rpc.Outcome.{eof, ok, no_service, service_error}
use a_simple_rpc.Share.{has_codec}
use a_simple_rpc.Protocol.Header.{
  seq, serialize_type, version, message_type, is_heartbeat, is_oneway, message_status_type,
}
use a_simple_rpc.Protocol.Header.View.{view}
use a_simple_rpc.Protocol.Metadata.{encode_metadata}
use a_simple_rpc.Protocol.Message.{Message, new_message, encode, read, total_length}
use a_simple_rpc.Client.Call.{
  edit, Call, Codec, type_for, is_heartbeat_call, call_message, reply_to, normal_reply,
  decoded_reply,
}
use a_simple_rpc.Client.Connection.{
  Client, send, receive, end_input, close, reserve, drop_pending, call_done,
}
use a_simple_rpc.Client.Connection.Steps.{balance, IsOrdered}
use a_simple_rpc.Client.Connection.Accounting.{
  Op, sends, receives, closes, run, run-balance, close-end_input,
}
use a_simple_rpc.Client.Connection.Input.{input, Finished, input-Finished}
use a_simple_rpc.Client.Connection.Goroutines.{
  Net, fails, work, reserves, gives_up, cancels, works, completes, closes, Reach, here, next,
  by_close,
}
use a_simple_rpc.Client.Connection.Keeping.{IsKept}
use a_simple_rpc.Client.Connection.Interleaving.{Reach-IsKept}
use a_simple_rpc.Client.Connection.Calling.{start_call}
use a_simple_rpc.Client.Connection.Calling.Waking.{Wakes, begun, call-Wakes}
use a_simple_rpc.Client.Connection.Sending.{Asks, request_for, type_of, send-Asks}
use a_simple_rpc.Server.Handler.{blank_response}
use a_simple_rpc.Exchange.Matching.{Arrival, AllMatched, receive_all, receive_all-Matched}
use a_simple_rpc.Exchange.{Completes, receive-service_error}
use a_simple_rpc.Tests.Requests.{
  services, pools, backend, request_message, missing, missing_response, missing_handled,
  missing_fits,
}

-- A codec that writes a number as one byte and reads the length.
abbrev codec : Codec ℕ
codec = record {
  marshal = λ st v. (v ∷ [], none);
  unmarshal = λ st bytes v. (length bytes, none);
  error_text = λ e. [];
}

abbrev pub mul : Call ℕ
mul = record {
  service_path = codes "Arith";
  service_method = codes "Mul";
  metadata = [];
  res_metadata = [];
  args = 6;
  reply = 0;
  error = none;
  done = 0;
  seq_cell = 0;
}

abbrev pub fresh : Client ℕ
fresh = record {
  serialize_type = 1;
  seq = 0;
  pending = [];
  closing = false;
  is_shutdown = false;
  conn_closed = false;
  calls = λ id. mul;
  channels = λ ch. record { cap = 10; queue = [] };
  sent = [];
  completed = [];
}

-- Call 3 waits under number 7.
abbrev waiting_for : Call ℕ → Client ℕ
waiting_for call = record fresh { seq = 8; pending = (7, 3) ∷ []; calls = λ id. call }

abbrev calls_then_close : List Op
calls_then_close = sends 3 none ∷ sends 4 (some eof) ∷ receives request_message ∷ closes none ∷ []

run-balance_example : balance 3 (run codec calls_then_close fresh) ≡ 1
run-balance_example = run-balance codec calls_then_close fresh 3 (omega arith) (omega arith)

close-end_input_example :
    (count 3 (end_input eof (waiting_for mul)).completed ≡ 1)
    × (count 3 (close none (end_input eof (waiting_for mul))).0.completed ≡ 2)
close-end_input_example = close-end_input eof none (waiting_for mul) 3 (omega arith, omega arith)

abbrev mul_request : Message
mul_request = request_for 1 0 mul (6 ∷ [])

mul_fits : total_length mul_request < 2 ^ 32
unfolding encode_metadata call_message new_message
mul_fits = omega arith

send-Asks_example :
    (q m : Message) × ((send codec none 3 fresh).sent ≡ q ∷ [])
    × (lookup 0 (send codec none 3 fresh).pending ≡ some 3)
    × (read 0 (record { stream = encode q ++ (9 ∷ []); end = eof })
        ≡ (ok m, record { stream = 9 ∷ []; end = eof }))
    × Asks mul (type_of fresh mul) 0 (6 ∷ []) m
send-Asks_example =
    send-Asks codec fresh 3 (6 ∷ []) (9 ∷ []) eof refl refl
      (unfold type_for is_heartbeat_call has_codec bytes_eq in refl) (omega arith) refl tt
      (unfold type_for is_heartbeat_call bytes_eq in mul_fits)

request_message-Asks : Asks mul 1 7 (1 ∷ 2 ∷ []) request_message
unfolding view version message_type is_heartbeat is_oneway message_status_type serialize_type seq
    be_from is_heartbeat_call bytes_eq
request_message-Asks = record {
  path = refl;
  method = refl;
  metadata_ = refl;
  payload_ = refl;
  whole_header = record { size = refl; bytes = omega arith };
  header_view = refl;
}

abbrev geo : Call ℕ
geo = record mul { service_path = codes "Geo" }

missing-Asks : Asks geo 1 7 (1 ∷ 2 ∷ []) missing
unfolding is_heartbeat_call bytes_eq
missing-Asks = record {
  path = refl;
  method = refl;
  metadata_ = refl;
  payload_ = refl;
  whole_header = record { size = refl; bytes = omega arith };
  header_view = request_message-Asks.header_view;
}

abbrev mul_response : Message
mul_response = record (blank_response request_message) { payload = 4 ∷ [] }

receive-service_error_example :
    (m : Message) × (read 0 (record { stream = encode missing_response ++ []; end = eof })
      ≡ (ok m, record { stream = []; end = eof }))
    × Completes codec (waiting_for geo) 7 3 m
    × ((receive codec m (waiting_for geo)).0.calls 3).error ≡ some (service_error (codes "failed"))
receive-service_error_example =
    receive-service_error codec (backend (ok none)) services pools (waiting_for geo) 3 1 7
      (1 ∷ 2 ∷ []) missing missing-Asks (unfold lookup in refl) missing_response
      (no_service (codes "Geo")) [] eof missing_handled missing_fits

abbrev idle : Net ℕ
idle = record { conn = fresh; flights = []; held = []; started = [] }

idle-IsKept : IsKept idle
idle-IsKept = record { ordered = omega arith; tokens = tt; kept = λ id. omega arith }

-- Call 3 has its number.
abbrev numbered : Client ℕ
numbered = record fresh {
  seq = 1;
  pending = (0, 3) ∷ [];
  calls = edit 3 (λ k. record k { seq_cell = 0 }) fresh.calls;
}

-- The connection closes between the number and the write of call 3, whose `send` gives up, and has not
-- completed the call yet.
abbrev closed_under : Net ℕ
closed_under = record {
  conn = drop_pending 0 (close none numbered).0;
  flights = [];
  held = (3, fails eof) ∷ [];
  started = 3 ∷ [];
}

idle-Reach : Reach codec idle closed_under
unfolding reserve insert has_codec type_for is_heartbeat_call bytes_eq
idle-Reach =
    next (next (next here (reserves 3 0 numbered (omega arith) refl)) (closes none))
      (gives_up [] [] 0 3 eof refl)

Reach-IsKept_example : IsKept closed_under
Reach-IsKept_example = Reach-IsKept codec idle-IsKept idle-Reach

waiting_for-IsOrdered : IsOrdered (waiting_for mul)
waiting_for-IsOrdered = (omega arith, omega arith)

-- A response to the call, and then the end of the stream.
input-Finished_example :
    (d : Client ℕ) × (input codec
        (record { stream = encode mul_response; end = eof })
        (waiting_for mul)
      ≡ ok d)
    × Finished codec (waiting_for mul) d
input-Finished_example =
    input-Finished codec (record { stream = encode mul_response; end = eof }) (waiting_for mul)
      waiting_for-IsOrdered

-- `Call` has started, and its number is drawn.
abbrev calling : Client ℕ
calling = begun 3 9 mul fresh

abbrev calling_numbered : Client ℕ
calling_numbered = record calling {
  seq = 1;
  pending = (0, 3) ∷ [];
  calls = edit 3 (λ k. record k { seq_cell = 0 }) calling.calls;
}

-- The call is cancelled and out of the map, and not completed yet.
abbrev cancelled : Net ℕ
cancelled = record {
  conn = drop_pending 0 calling_numbered;
  flights = (0, 3) ∷ [];
  held = (3, fails eof) ∷ [];
  started = 3 ∷ [];
}

-- The connection closes in between, and the call is completed.
abbrev shut : Net ℕ
shut = record cancelled { conn = (close none cancelled.conn).0 }

abbrev woken : Net ℕ
woken = record shut { conn = call_done 3 (work codec (fails eof) 3 shut.conn); held = [] }

calling-IsKept : IsKept (record idle { conn = calling })
calling-IsKept = record { ordered = omega arith; tokens = tt; kept = λ id. omega arith }

calling-Reach : Reach codec (record idle { conn = calling }) cancelled
unfolding reserve insert has_codec type_for is_heartbeat_call bytes_eq lookup
calling-Reach = next (next here (reserves 3 0 calling_numbered (omega arith) refl)) (cancels 0 eof)

shut-Reach : Reach codec shut woken
shut-Reach = next (next here (works [] [] 3 (fails eof) refl)) (completes [] [] 3 refl)

call-Wakes_example : (start_call 3 9 mul fresh ≡ ok calling) × Wakes 3 woken.conn
call-Wakes_example =
    call-Wakes codec 9 mul idle 3 refl calling-IsKept calling-Reach (omega arith) (by_close none)
      shut-Reach refl

-- Two calls wait, and the response to the second comes first.
abbrev two_waiting : Client ℕ
two_waiting = record fresh { seq = 9; pending = (7, 3) ∷ (8, 4) ∷ [] }

abbrev second_message : Message
second_message = record request_message {
  header = 8 ∷ 0 ∷ 0 ∷ 0x10 ∷ 0 ∷ 0 ∷ 0 ∷ 0 ∷ 0 ∷ 0 ∷ 0 ∷ 8 ∷ [];
}

abbrev out_of_order : List Arrival
out_of_order =
    (record { number = 8; call = 4; message = second_message })
    ∷ (record { number = 7; call = 3; message = request_message })
    ∷ []

receive_all-Matched_example :
    AllMatched codec out_of_order two_waiting (receive_all codec out_of_order two_waiting)
unfolding seq lookup be_from reply_to normal_reply decoded_reply message_status_type serialize_type
    has_codec
receive_all-Matched_example =
    receive_all-Matched codec out_of_order two_waiting
      ((record { numbers = λ e. ground (arith, e); calls = λ e. ground (arith, e) }, tt), (tt, tt))
      (
        record { numbered = refl; waits = refl; decodes = refl },
        (record { numbered = refl; waits = refl; decodes = refl }, tt),
      )
