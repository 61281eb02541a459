-- ===== src/Client/Connecting.antt =====
-- client/option.go, client/connection.go and `Connect` of client/client.go. The dials and the types of
-- connections are a `Network`; a time is a number of nanoseconds, which may be negative.
use a_simple_rpc.Prelude.{
  ℕ, ◌*◌, Bool, false, not, ◌&&◌, List, [], ◌∷◌, Option, none, some, ◌==◌, if◌then◌else◌, ltb,
  text_eq, bytes_eq,
}
use a_simple_rpc.Prelude.Int.{ℤ, pos, negsuc}
use a_simple_rpc.Prelude.Bytes.{Text, codes}
use a_simple_rpc.Outcome.{Err, external, Outcome, ok, fail, panic}
use a_simple_rpc.Protocol.Header.{proto_buffer}

unfoldable pub is_zero : ℤ → Bool
is_zero (pos n) = n == 0
is_zero (negsuc n) = false

unfoldable pub is_positive : ℤ → Bool
is_positive (pos n) = ltb 0 n
is_positive (negsuc n) = false

-- `Option` of client/option.go; `tls_config` says whether there is one.
pub record ClientOption : Type 0 where
  pub retries : ℤ
  pub connect_timeout : ℤ
  pub idle_timeout : ℤ
  pub serialize_type : ℕ
  pub tcp_keep_alive_period : ℤ
  pub time_to_disallow : ℤ
  pub tls_config : Bool
  pub heartbeat : Bool
  pub heartbeat_interval : ℤ
  pub max_wait_for_heartbeat : ℤ
  pub broadcast_timeout : ℤ

abbrev seconds : ℕ → ℤ
seconds n = pos (n * 1000000000)

unfoldable pub default_option : ClientOption
default_option = record {
  retries = pos 3;
  connect_timeout = seconds 1;
  idle_timeout = pos 0;
  serialize_type = proto_buffer;
  tcp_keep_alive_period = seconds 60;
  time_to_disallow = seconds 60;
  tls_config = false;
  heartbeat = false;
  heartbeat_interval = pos 0;
  max_wait_for_heartbeat = seconds 30;
  broadcast_timeout = seconds 60;
}

-- Connections are numbers. A failed dial of crypto/tls gives a nil `*tls.Conn`, which as a `net.Conn`
-- is not nil; a failed `net.DialTimeout` gives nil.
pub record Network : Type 0 where
  pub tls_dial : ℤ → Text → Text → ℕ × Option Err
  pub dial_timeout : Text → Text → ℤ → Option ℕ × Option Err
  pub is_tcp : ℕ → Bool

-- `newDirectConn`, for a client with these options or for nil.
unfoldable pub new_direct_conn : Network → Option ClientOption → Text → Text → Option ℕ × Option Err
new_direct_conn net none network address = (none, some (external (codes "client is nil")))
new_direct_conn net (some o) network address =
    if o.tls_config
    then (let (conn, e) = net.tls_dial o.connect_timeout network address in (some conn, e))
    else net.dial_timeout network address o.connect_timeout

-- The goroutines of a client.
pub data Loop : Type 0 where
  input_loop heartbeat_loop : Loop

-- What `Connect` leaves: the connection, the settings it made, and the goroutines it started.
pub record Connected : Type 0 where
  pub conn : Option ℕ
  pub keep_alive : Bool
  pub deadline : Bool
  pub reader_size : ℕ
  pub loops : List Loop

-- `ReaderBuffSize`
unfoldable pub reader_buff_size : ℕ
reader_buff_size = 16 * 1024

unfoldable pub loops_for : ClientOption → List Loop
loops_for o =
    input_loop
    ∷ (if o.heartbeat && is_positive o.heartbeat_interval then heartbeat_loop ∷ [] else [])

unfoldable pub keeps_alive : Network → ClientOption → Option ℕ → Bool
keeps_alive net o none = false
keeps_alive net o (some conn) = net.is_tcp conn && is_positive o.tcp_keep_alive_period

-- `Connect` behind the dial. `SetDeadline` on a nil connection panics.
unfoldable pub connected : Network → ClientOption → Option ℕ × Option Err → Outcome Connected
connected net o (conn, some e) = fail e
connected net o (none, none) =
    if not (is_zero o.idle_timeout)
    then panic
    else ok (record {
      conn = none;
      keep_alive = keeps_alive net o none;
      deadline = false;
      reader_size = reader_buff_size;
      loops = loops_for o;
    })
connected net o (some conn, none) = ok (record {
  conn = some conn;
  keep_alive = keeps_alive net o (some conn);
  deadline = not (is_zero o.idle_timeout);
  reader_size = reader_buff_size;
  loops = loops_for o;
})

-- `Connect`
unfoldable pub connect : Network → ClientOption → Text → Text → Outcome Connected
connect net o network address = connected net o (
    if bytes_eq network (codes "http")
    then (none, none)
    else new_direct_conn net (some o) network address)
