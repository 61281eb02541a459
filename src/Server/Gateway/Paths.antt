-- ===== src/Server/Gateway/Paths.antt =====
-- The paths that the gateway takes apart.
use a_simple_rpc.Prelude.{
  ◌≡◌, inl, inr, refl, false, Bool-cases, [], ◌∷◌, ◌==◌, bytes_eq, bytes_eq→eq, text_eq, ◌≢◌, All,
  arith, ==_iff,
}
use a_simple_rpc.Prelude.Bytes.{Text, codes}
use a_simple_rpc.Prelude.Maps.{Map}
use a_simple_rpc.Outcome.{panic}
use a_simple_rpc.Server.Pool.{Pools}
use a_simple_rpc.Server.Handler.{Service}
use a_simple_rpc.Server.Gateway.{HttpRequest, Web, split_slash, with_paths, handle_gateway_request}

-- A path of one segment.
split_slash-one : (s : Text) → All (λ c. c ≢ 47) s → (t : Text) × (split_slash s ≡ t ∷ [])
unfolding split_slash
split_slash-one [] h = ([], refl)
split_slash-one (c ∷ cs) h =
    let (t, e) = split_slash-one cs h.1 in
    let no_slash : (c == 47) ≡ false = ground (arith, h.0, ==_iff c 47) in
    (c ∷ t, rw (no_slash, e) refl)

-- A request for a path of one segment, such as a service without its method, makes the handler panic,
-- whatever its header says, before the service is looked for; the pools are as they were.
handle_gateway_request-panics :
    {V : Type 0} (w : Web V) (services : Map Text Service) (r : HttpRequest) (s : Text)
    (ps : Pools V)
    → r.path ≡ 47 ∷ s
    → All (λ c. c ≢ 47) s
    → s ≢ codes "health"
    → handle_gateway_request w services r ps ≡ (panic, ps)
unfolding handle_gateway_request split_slash with_paths bytes_eq
handle_gateway_request-panics w services r s ps e plain other =
    let (t, one) = split_slash-one s plain in rw (e, other_path, one) refl
  where
    other_path : bytes_eq s (codes "health") ≡ false
    other_path = elim (Bool-cases (bytes_eq s (codes "health"))) [
      | inl h ↦ absurd (other (bytes_eq→eq s (codes "health") h))
      | inr h ↦ h
    ]
