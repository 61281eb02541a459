-- ===== src/Server/Consul/Leftover.antt =====
-- What stays at the agent when a service is unregistered.
use a_simple_rpc.Prelude.{◌≡◌, ◌≢◌, ap, ◌∙◌, length, length-append, ◌++◌, Option, none, some, arith}
use a_simple_rpc.Prelude.Int.{ℤ}
use a_simple_rpc.Prelude.Bytes.{Text, codes}
use a_simple_rpc.Outcome.{ok}
use a_simple_rpc.Server.Consul.{
  Registration, Agent, ConsulPlugin, registry_id, registration, register_port, register_at,
  register_client, register, deregister, unregister,
}

-- What consul documents of its agent: a service that is registered is known under its id, and a
-- deregistration takes away the service with the id that it names and no other. `known` looks an id up.
pub record AgentLaws {R : Type 0} (agent : Agent R) (known : Text → R → Option Registration)
    : Type 0 where
  pub known-register :
      (x : Registration) (r : R)
      → (agent.service_register x r).1 ≡ none
      → known x.id (agent.service_register x r).0 ≡ some x
  pub known-deregister :
      (i j : Text) (r : R) → i ≢ j → known i (agent.service_deregister j r).0 ≡ known i r

module _ {R : Type 0} (agent : Agent R) (known : Text → R → Option Registration)
    (laws : AgentLaws agent known) where
  -- The id is longer than the name.
  registry_id-longer : (name host : Text) (port : ℤ) → registry_id agent name host port ≢ name
  unfolding registry_id
  registry_id-longer name host port e = absurd (
      omega (
        arith,
        ap length e,
        length-append name (codes "-" ++ (host ++ (codes ":" ++ agent.itoa port))),
      ))

  -- A service whose `Register` succeeded is known to the agent, under its name, the host and the port
  -- of the plugin's address; and the `UnRegister` that follows, for whatever name it is called, leaves
  -- it there: it deregisters the name, which is not the id.
  pub unregister-register :
      (name other : Text) (c : ConsulPlugin) (r : R) (host port_text : Text) (port : ℤ)
      → agent.new_client c.consul_addr ≡ none
      → agent.split_host_port c.service_addr ≡ ok (host, port_text)
      → agent.atoi port_text ≡ ok port
      → (agent.service_register (registration agent c name host port) r).1 ≡ none
      → ((register agent name (c, r)).1 ≡ ok none)
        × (known
              (registry_id agent name host port)
              (unregister agent other (register agent name (c, r)).0).0.1
            ≡ some (registration agent c name host port))
  unfolding register register_client register_at register_port unregister deregister registration
  unregister-register name other c r host port_text port client split number fine =
      rw (client, split, number)
        (
          ap ok fine,
          laws.known-deregister (registry_id agent name host port) name _
                (registry_id-longer name host port)
              ∙ laws.known-register (registration agent c name host port) r fine,
        )
