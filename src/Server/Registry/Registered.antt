-- ===== src/Server/Registry/Registered.antt =====
-- What `register` leaves in the server.
use a_simple_rpc.Prelude.{
  ◌≡◌, refl, List, [], ◌∷◌, Option, none, some, if◌then◌else◌, bytes_eq, bytes_eq_refl, text_eq,
}
use a_simple_rpc.Prelude.Bytes.{Text}
use a_simple_rpc.Prelude.Maps.{lookup, lookup-insert}
use a_simple_rpc.Outcome.{Err}
use a_simple_rpc.Server.Handler.{MethodType, Service}
use a_simple_rpc.Server.Registry.{
  Method, Reflection, Server, Found, suitable_rpc_methods, store_service, register,
}
use a_simple_rpc.Server.Registry.Ready.{IsReady, suitable-IsReady}

module _ {V S A : Type 0} (r : Reflection) (methods : List Method) (svr : Server V S A) where
  -- An error leaves the server's services as they were; otherwise the service stands under its name,
  -- and each of its methods is ready.
  abbrev pub Registered : Text × Option Err × Server V S A → Type 0
  Registered (sname, some e, svr') = svr' ≡ svr
  Registered (sname, none, svr') =
      (svc : Service) × (lookup sname svr'.service_map ≡ some svc)
      × ((n : Text) (mt : MethodType)
          → lookup n svc.method_map ≡ some mt
          → IsReady r methods svr'.pools n mt)

  store_service-Registered :
      (sname : Text) (found : Found V)
      → ((n : Text) (mt : MethodType) → lookup n found.0 ≡ some mt → IsReady r methods found.1 n mt)
      → Registered (store_service r sname found svr)
  store_service-Registered sname ([], ps) ready = refl
  store_service-Registered sname (entry ∷ methods', ps) ready = (
    record { name = sname; method_map = entry ∷ methods' },
    rw
        (
          lookup-insert sname sname (record { name = sname; method_map = entry ∷ methods' })
              svr.service_map,
          bytes_eq_refl sname,
        )
        refl,
    ready,
  )

  -- `register`, with a name or without one: when it returns an error, the server is unchanged. When it
  -- returns none, a service stands under the name that it returns, and each of its methods is one of
  -- the instance's methods under its own name, exported, with a context, an argument of an exported or
  -- built-in type, a pointer to such a type and an error as its only result; and the types that the
  -- method is stored with have a pool, so that the handler of a request finds one.
  pub register-Registered :
      (service_name type_name : Text) → Registered (register r service_name type_name methods svr)
  unfolding register
  register-Registered service_name type_name =
      store_service-Registered (if bytes_eq service_name [] then type_name else service_name)
        (suitable_rpc_methods r methods ([], svr.pools)) (suitable-IsReady r methods svr.pools)
