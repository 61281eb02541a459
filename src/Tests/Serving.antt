-- ===== src/Tests/Serving.antt =====
-- server/server.go: registration and the loop of a connection.
use a_simple_rpc.Prelude.{
  ℕ, ◌≡◌, refl, true, false, [], ◌∷◌, none, arith, text_eq, nat_eq, bytes_eq, inl, List,
}
use a_simple_rpc.Prelude.Bytes.{codes, put_be}
use a_simple_rpc.Prelude.Maps.{insert}
use a_simple_rpc.Outcome.{eof, ok}
use a_simple_rpc.Protocol.Header.{check_magic_number}
use a_simple_rpc.Protocol.Metadata.{encode_metadata, encode_entry}
use a_simple_rpc.Protocol.Message.RoundTrip.{IsSendable}
use a_simple_rpc.Server.Conn.{serve_conn}
use a_simple_rpc.Server.Conn.Ending.{Ended, serve_conn-Ended}
use a_simple_rpc.Server.Conn.Pipeline.{stream_of, spawned, serve_conn-spawned}
use a_simple_rpc.Server.Registry.{
  GoType, named, pointer, Method, Reflection, Server, register, suitable_rpc_methods, add_method,
  add_types, check_valid_method, check_types, is_exported_or_builtin, method_type,
}
use a_simple_rpc.Server.Registry.Registered.{Registered, register-Registered}
use a_simple_rpc.Tests.Requests.{backend, request_message}

request_message-IsSendable : IsSendable 0 request_message
unfolding check_magic_number encode_metadata encode_entry put_be
request_message-IsSendable = record {
  header_size = refl;
  magic = refl;
  fits = omega arith;
  allowed = inl refl;
  distinct = tt;
}

serve_conn-spawned_example :
    serve_conn
      (backend (ok none))
      false
      (record { stream = stream_of (request_message ∷ request_message ∷ []); end = eof })
    ≡ ok (spawned (request_message ∷ request_message ∷ []))
serve_conn-spawned_example =
    serve_conn-spawned (backend (ok none)) (request_message ∷ request_message ∷ []) eof
      (request_message-IsSendable, (request_message-IsSendable, tt))

abbrev context : GoType
context = named 0 (codes "context") (codes "Context")

abbrev args : GoType
args = named 1 (codes "pb") (codes "Args")

-- `Mul(context.Context, *Args, *Args) error`, and a method without parameters.
abbrev methods_of_arith : List Method
methods_of_arith =
    record {
      name = codes "Mul";
      pkg_path = [];
      ins =
          pointer 3 (named 4 (codes "t") (codes "Arith"))
          ∷ context
          ∷ pointer 2 args
          ∷ pointer 2 args
          ∷ [];
      outs = named 5 [] (codes "error") ∷ [];
    }
    ∷ record { name = codes "Name"; pkg_path = []; ins = context ∷ []; outs = [] }
    ∷ []

abbrev reflection : Reflection
reflection = record {
  is_upper_first = λ name. true;
  implements_context = λ t. true;
  is_error_type = λ t. true;
}

abbrev new_server : Server ℕ ℕ ℕ
new_server = record { service_map = []; plugins = []; pools = []; plugin_state = 0 }

arith_found :
    (suitable_rpc_methods {V = ℕ} reflection methods_of_arith ([], [])).0
    ≡ (codes "Mul", record { arg_type = 2; reply_type = 2; is_pointer = true }) ∷ []
unfolding suitable_rpc_methods add_method add_types check_valid_method check_types
    is_exported_or_builtin bytes_eq insert method_type
arith_found = refl

register-Registered_example :
    Registered reflection methods_of_arith new_server
      (register reflection [] (codes "Arith") methods_of_arith new_server)
register-Registered_example =
    register-Registered reflection methods_of_arith new_server [] (codes "Arith")

-- A stream that ends inside a header.
serve_conn-Ended_example :
    Ended (serve_conn (backend (ok none)) false (record { stream = 8 ∷ 0 ∷ []; end = eof }))
serve_conn-Ended_example =
    serve_conn-Ended (backend (ok none)) false (record { stream = 8 ∷ 0 ∷ []; end = eof })
