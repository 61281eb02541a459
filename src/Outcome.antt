-- ===== src/Outcome.antt =====
-- The error values of the program and the ways in which a piece of its code can end.
use a_simple_rpc.Prelude.{ℕ, Option}
use a_simple_rpc.Prelude.Bytes.{Text}

-- One constructor for each error that the code compares with or builds; `external` is an error of a
-- library or of a registered service, with the text that its `Error` method gives.
-- `net_op` is a `*net.OpError`, with the text of its field `Err` where that or `Addr` is set.
pub data Err : Type 0 where
  eof unexpected_eof net_closed : Err
  message_too_long meta_kv_missing : Err
  wrong_magic : ℕ → Err
  shutdown unsupported_codec unsupported_msg_status_type : Err
  deadline_exceeded canceled : Err
  xclient_shutdown no_server server_unavailable fail_mode_not_supported broadcast_timeout : Err
  server_closed listener_closed service_not_found : Err
  service_error : Text → Err
  no_service no_method : Text → Err
  no_codec : ℕ → Err
  no_suitable_method : Text → Err
  external : Text → Err
  net_op : Option Text → Err

-- `fail` is a returned error, `panic` a run-time panic on its way up the stack. `stuck` is no Go
-- value: a loop of the model ran out of fuel.
pub data Outcome {ℓ} (A : Type ℓ) : Type ℓ where
  ok : A → Outcome A
  fail : Err → Outcome A
  panic : Outcome A
  stuck : Outcome A
