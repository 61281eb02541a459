-- ===== src/Tests/Announcements.antt =====
-- server_plugin/consul.go with an agent that keeps the registrations in a map.
use a_simple_rpc.Prelude.{
  ◌≡◌, refl, false, Bool-cases, inl, inr, [], none, some, bytes_eq, bytes_eq_refl, bytes_eq→eq,
  text_eq,
}
use a_simple_rpc.Prelude.Int.{pos}
use a_simple_rpc.Prelude.Bytes.{Text, codes}
use a_simple_rpc.Prelude.Maps.{Map, lookup, insert, delete, lookup-insert, lookup-delete}
use a_simple_rpc.Outcome.{ok}
use a_simple_rpc.Server.Consul.{
  Registration, Agent, ConsulPlugin, registration, registry_id, register, unregister,
}
use a_simple_rpc.Server.Consul.Leftover.{AgentLaws, unregister-register}

abbrev agent : Agent (Map Text Registration)
agent = record {
  new_client = λ addr. none;
  service_register = λ x r. (insert x.id x r, none);
  service_deregister = λ i r. (delete i r, none);
  split_host_port = λ addr. ok (addr, codes "80");
  atoi = λ s. ok (pos 80);
  itoa = λ n. codes "80";
  duration = λ d. codes "1s";
}

agent-AgentLaws : AgentLaws agent (λ i r. lookup i r)
agent-AgentLaws = record {
  known-register = λ x r e. rw (lookup-insert x.id x.id x r, bytes_eq_refl x.id) refl;
  known-deregister = λ i j r ne.
      let other : bytes_eq j i ≡ false = elim (Bool-cases (bytes_eq j i)) [
        | inl h ↦ absurd (ne (cc (bytes_eq→eq j i h)))
        | inr h ↦ h
      ] in
      rw (lookup-delete j i r, other) refl;
}

abbrev plugin : ConsulPlugin
plugin = record {
  consul_addr = codes "consul";
  service_addr = codes "here";
  service_name = [];
  heartbeat_addr = codes "here";
  heartbeat_internal = pos 1;
  max_wait_for_heartbeat = pos 2;
}

unregister-register_example :
    ((register agent (codes "Arith") (plugin, [])).1 ≡ ok none)
    × (lookup
          (registry_id agent (codes "Arith") (codes "here") (pos 80))
          (unregister agent (codes "Arith") (register agent (codes "Arith") (plugin, [])).0).0.1
        ≡ some (registration agent plugin (codes "Arith") (codes "here") (pos 80)))
unregister-register_example =
    unregister-register agent (λ i r. lookup i r) agent-AgentLaws (codes "Arith") (codes "Arith")
      plugin [] (codes "here") (codes "80") (pos 80) refl refl refl refl
