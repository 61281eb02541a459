-- ===== src/Tests/Requests.antt =====
-- server/ on concrete plugins, pools and requests.
use a_simple_rpc.Prelude.{
  ℕ, ◌*◌, ◌≤◌, ◌<◌, ◌^◌, ◌≡◌, refl, inl, true, List, [], ◌∷◌, Option, none, some, arith, bytes_eq,
  text_eq, nat_eq, length,
}
use a_simple_rpc.Prelude.Maps.{Map, lookup, insert}
use a_simple_rpc.Prelude.Bytes.{Text, codes, put_be}
use a_simple_rpc.Outcome.{Err, external, no_service, Outcome, ok}
use a_simple_rpc.Protocol.Header.{is_heartbeat, is_oneway, serialize_type, set_message_status_type}
use a_simple_rpc.Protocol.Metadata.{encode_metadata, encode_entry}
use a_simple_rpc.Protocol.Message.{Message, new_message, encode, total_length, clone}
use a_simple_rpc.Server.Pool.{Values, Pools, get, get_from, take_one, put, put_reset, put_in}
use a_simple_rpc.Server.Pool.Clean.{Op, inits, puts, gets, run, IsClean, AllGot, run-AllGot}
use a_simple_rpc.Share.{has_codec, service_error_key}
use a_simple_rpc.Server.Handler.{
  Service, Backend, get_service, handle_error, handle_request, handle_service, process_one_request,
  blank_response,
}
use a_simple_rpc.Server.Handler.Responses.{Good, handle_request-Good}
use a_simple_rpc.Server.Handler.Writes.{Called, process-swallows, process-answers, process-Writes}

-- Values are numbers, and a clean one is 0.
abbrev numbers : Values ℕ
numbers = record { new = λ t. 0; reset = λ x. some 0 }

abbrev IsZero : ℕ → ℕ → Type 0
IsZero t x = x ≡ 0

numbers-IsClean : IsClean numbers (λ t x. Unit {0}) IsZero
numbers-IsClean = record { new_clean = λ t. refl; reset_clean = λ t x y h e. ground arith }

abbrev history : List (Op ℕ)
history = inits 1 ∷ puts 1 7 ∷ gets 1 0 ∷ gets 1 0 ∷ []

run-AllGot_example : AllGot IsZero (run numbers history [])
run-AllGot_example = run-AllGot numbers (λ t x. Unit {0}) IsZero numbers-IsClean history (tt, tt)

-- A service `Arith` with one method `Mul` on pointers, of types 1 and 2.
abbrev pub services : Map Text Service
services =
    (
      codes "Arith",
      record {
        name = codes "Arith";
        method_map = (codes "Mul", record { arg_type = 1; reply_type = 2; is_pointer = true }) ∷ [];
      },
    )
    ∷ []

abbrev pub pools : Pools ℕ
pools = (1, []) ∷ (2, []) ∷ []

abbrev pub backend : Outcome (Option Err) → Backend ℕ
backend result = record {
  values = numbers;
  pick = λ t. 0;
  decode = λ st bytes v. (length bytes, none);
  encode_value = λ st v. ok (v ∷ []);
  deref = λ v. v;
  invoke =
      λ service method args reply. record { args = args; reply = args * args; result = result };
  error_text = λ e. codes "failed";
}

abbrev pub request_message : Message
request_message = record {
  header = 8 ∷ 0 ∷ 0 ∷ 0x10 ∷ 0 ∷ 0 ∷ 0 ∷ 0 ∷ 0 ∷ 0 ∷ 0 ∷ 7 ∷ [];
  service_path = codes "Arith";
  service_method = codes "Mul";
  metadata = [];
  payload = 1 ∷ 2 ∷ [];
  buf = [];
}

handle_request-Good_example :
    Good
      (backend (ok none))
      request_message
      (handle_request (backend (ok none)) services request_message pools).0
handle_request-Good_example =
    handle_request-Good (backend (ok none)) request_message (omega arith) services pools

process-Writes_example :
    length (process_one_request (backend (ok none)) services request_message pools).0 ≤ 1
unfolding is_heartbeat is_oneway
process-Writes_example = process-Writes (backend (ok none)) services request_message pools

abbrev called :
    (result : Outcome (Option Err)) → Called (backend result) services request_message pools
unfolding lookup bytes_eq has_codec serialize_type get get_from take_one put put_reset put_in insert
called result = record {
  svc = record {
    name = codes "Arith";
    method_map = (codes "Mul", record { arg_type = 1; reply_type = 2; is_pointer = true }) ∷ [];
  };
  mt = record { arg_type = 1; reply_type = 2; is_pointer = true };
  argv0 = 0;
  argv = 2;
  replyv = 0;
  ps1 = pools;
  ps2 = pools;
  ps3 = (1, 0 ∷ []) ∷ (2, []) ∷ [];
  service_is = refl;
  method_is = refl;
  codec_is = refl;
  argument = refl;
  decoded = refl;
  reply = refl;
  invoked = record { args = 2; reply = 4; result = result };
  invoked_is = refl;
  returned = refl;
}

-- `Mul` returns an error, and the client gets nothing.
process-swallows_example :
    (process_one_request (backend (ok (some (external [])))) services request_message pools).0 ≡ []
unfolding called is_heartbeat
process-swallows_example =
    process-swallows (backend (ok (some (external [])))) services request_message pools
      (called (ok (some (external [])))) (external []) (4 ∷ []) refl refl refl

process-answers_example : process_one_request (backend (ok none)) services request_message pools ≡ (
  encode (record (blank_response request_message) { payload = 4 ∷ [] }) ∷ [],
  (1, 0 ∷ []) ∷ (2, 0 ∷ []) ∷ [],
)
unfolding called is_heartbeat is_oneway put put_reset put_in lookup insert
process-answers_example =
    process-answers (backend (ok none)) services request_message pools (called (ok none)) (4 ∷ [])
      ((1, 0 ∷ []) ∷ (2, 0 ∷ []) ∷ []) refl refl (inl refl) refl refl

-- A request for a service that nobody registered, as the client sees the answer.
abbrev pub missing : Message
missing = record request_message { service_path = codes "Geo" }

abbrev pub missing_response : Message
missing_response = record (blank_response missing) {
  header = set_message_status_type (blank_response missing).header 1;
  metadata = (service_error_key, codes "failed") ∷ [];
}

pub missing_handled :
    (handle_request (backend (ok none)) services missing pools).0
    ≡ ok (missing_response, some (no_service (codes "Geo")))
unfolding handle_request handle_service get_service lookup bytes_eq handle_error clone new_message
    insert
missing_handled = refl

pub missing_fits : total_length missing_response < 2 ^ 32
unfolding encode_metadata encode_entry put_be clone service_error_key new_message
missing_fits = omega arith
