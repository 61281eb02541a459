-- ===== src/Server/Consul.antt =====
-- server_plugin/consul.go: the plugin that announces services to a consul agent. The agent and its
-- client library are the record `Agent`, over a state R of the agent.
pub mod Leftover
use a_simple_rpc.Prelude.{ℕ, List, [], ◌∷◌, ◌++◌, Option, none, some}
use a_simple_rpc.Prelude.Int.{ℤ}
use a_simple_rpc.Prelude.Bytes.{Text, codes}
use a_simple_rpc.Outcome.{Err, Outcome, ok, fail, panic, stuck}

-- The fields of `AgentServiceRegistration` and its check that the plugin fills in.
pub record Registration : Type 0 where
  pub name : Text
  pub id : Text
  pub address : Text
  pub port : ℤ
  pub http : Text
  pub interval : Text
  pub deregister_after : Text

-- `NewClient` for an address, `ServiceRegister`, `ServiceDeregister`, `net.SplitHostPort`,
-- `strconv.Atoi`, and how fmt and time print a number and a duration.
pub record Agent (R : Type 0) : Type 0 where
  pub new_client : Text → Option Err
  pub service_register : Registration → R → R × Option Err
  pub service_deregister : Text → R → R × Option Err
  pub split_host_port : Text → Outcome (Text × Text)
  pub atoi : Text → Outcome ℤ
  pub itoa : ℤ → Text
  pub duration : ℤ → Text

pub record ConsulPlugin : Type 0 where
  pub consul_addr : Text
  pub service_addr : Text
  pub service_name : Text
  pub heartbeat_addr : Text
  pub heartbeat_internal : ℤ
  pub max_wait_for_heartbeat : ℤ

unfoldable pub with_consul_addr : Text → ConsulPlugin → ConsulPlugin
with_consul_addr addr c = record c { consul_addr = addr }

unfoldable pub with_service_addr : Text → ConsulPlugin → ConsulPlugin
with_service_addr addr c = record c { service_addr = addr }

unfoldable pub with_heartbeat : Text → ℤ → ℤ → ConsulPlugin → ConsulPlugin
with_heartbeat addr interval wait c = record c {
  heartbeat_addr = addr;
  heartbeat_internal = interval;
  max_wait_for_heartbeat = wait;
}

-- The options of `NewConsulPlugin`, one after the other.
unfoldable pub apply_opts : List (ConsulPlugin → ConsulPlugin) → ConsulPlugin → ConsulPlugin
apply_opts [] c = c
apply_opts (opt ∷ opts) c = apply_opts opts (opt c)

module _ {R : Type 0} (agent : Agent R) where
  -- `fmt.Sprintf("%s-%s:%d", name, svrHost, svrPort)`
  unfoldable pub registry_id : Text → Text → ℤ → Text
  registry_id name host port = name ++ (codes "-" ++ (host ++ (codes ":" ++ agent.itoa port)))

  unfoldable pub registration : ConsulPlugin → Text → Text → ℤ → Registration
  registration c name host port = record {
    name = name;
    id = registry_id name host port;
    address = host;
    port = port;
    http = codes "http://" ++ (c.heartbeat_addr ++ codes "/health");
    interval = agent.duration c.heartbeat_internal;
    deregister_after = agent.duration c.max_wait_for_heartbeat;
  }

  -- Behind `strconv.Atoi`.
  unfoldable pub register_port :
      ConsulPlugin → Text → Text → Outcome ℤ → R → R × Outcome (Option Err)
  register_port c name host (ok port) r =
      let (r', e) = agent.service_register (registration c name host port) r in (r', ok e)
  register_port c name host (fail e) r = (r, ok (some e))
  register_port c name host panic r = (r, panic)
  register_port c name host stuck r = (r, stuck)

  -- Behind `net.SplitHostPort`.
  unfoldable pub register_at :
      ConsulPlugin → Text → Outcome (Text × Text) → R → R × Outcome (Option Err)
  register_at c name (ok (host, port)) r = register_port c name host (agent.atoi port) r
  register_at c name (fail e) r = (r, ok (some e))
  register_at c name panic r = (r, panic)
  register_at c name stuck r = (r, stuck)

  unfoldable pub register_client : ConsulPlugin → Text → Option Err → R → R × Outcome (Option Err)
  register_client c name (some e) r = (r, ok (some e))
  register_client c name none r = register_at c name (agent.split_host_port c.service_addr) r

  -- `Register`: the plugin remembers the name, also when it fails.
  unfoldable pub register : Text → ConsulPlugin × R → (ConsulPlugin × R) × Outcome (Option Err)
  register name (c, r) =
      let c' = record c { service_name = name } in
      let (r', o) = register_client c' name (agent.new_client c.consul_addr) r in ((c', r'), o)

  unfoldable pub deregister : ConsulPlugin → Option Err → R → R × Option Err
  deregister c (some e) r = (r, some e)
  deregister c none r = agent.service_deregister c.service_name r

  -- `UnRegister`: its argument is not looked at.
  unfoldable pub unregister : Text → ConsulPlugin × R → (ConsulPlugin × R) × Option Err
  unregister name (c, r) =
      let (r', e) = deregister c (agent.new_client c.consul_addr) r in ((c, r'), e)
