-- ===== src/Server/Registry.antt =====
-- The registration of services in server/server.go: `register`, `Register`, `RegisterName`,
-- `suitableRPCMethods`, `checkValidMethod`, `isExportedOrBuiltinType` and `UnregisterAll`. What the
-- package reflect says of a type or a method is data.
pub mod Methods
pub mod Ready
pub mod Registered
use a_simple_rpc.Prelude.{
  ℕ, Bool, true, false, not, ◌&&◌, ◌||◌, List, [], ◌∷◌, ◌++◌, Option, none, some, ◌==◌,
  if◌then◌else◌, length, bytes_eq, nat_eq, text_eq,
}
use a_simple_rpc.Prelude.Bytes.{Text, codes}
use a_simple_rpc.Prelude.Maps.{Map, lookup, insert}
use a_simple_rpc.Outcome.{Err, no_suitable_method}
use a_simple_rpc.Server.Plugin.{MultiError, Plugin, new_multi_error, do_register, do_unregister}
use a_simple_rpc.Server.Pool.{Pools, init}
use a_simple_rpc.Server.Handler.{MethodType, Service}

-- `reflect.Type`: a type with its number, the path of its package and its name, or a pointer to a type
-- with the number of the pointer type.
pub data GoType : Type 0 where
  named : ℕ → Text → Text → GoType
  pointer : ℕ → GoType → GoType

-- `reflect.Method`, with the parameters of its function, the receiver first, and the results.
pub record Method : Type 0 where
  pub name : Text
  pub pkg_path : Text
  pub ins : List GoType
  pub outs : List GoType

-- What the packages reflect and unicode answer.
pub record Reflection : Type 0 where
  pub is_upper_first : Text → Bool
  pub implements_context : GoType → Bool
  pub is_error_type : GoType → Bool

abbrev pub type_number : GoType → ℕ
type_number (named n pkg name) = n
type_number (pointer n t) = n

abbrev pub is_pointer_type : GoType → Bool
is_pointer_type (named n pkg name) = false
is_pointer_type (pointer n t) = true

unfoldable pub method_type : GoType → GoType → MethodType
method_type arg reply = record {
  arg_type = type_number arg;
  reply_type = type_number reply;
  is_pointer = is_pointer_type arg;
}

module _ (r : Reflection) where
  unfoldable pub is_exported_or_builtin : GoType → Bool
  is_exported_or_builtin (pointer n t) = is_exported_or_builtin t
  is_exported_or_builtin (named n pkg name) = bytes_eq pkg [] || r.is_upper_first name

  unfoldable pub check_types : List GoType → List GoType → Bool
  check_types (self ∷ ctx ∷ arg ∷ reply ∷ []) outs =
      if not (r.implements_context ctx)
      then false
      else if not (is_exported_or_builtin arg)
      then false
      else if not (is_pointer_type reply)
      then false
      else if not (is_exported_or_builtin reply)
      then false
      else check_outs outs
    where
      check_outs : List GoType → Bool
      check_outs (out ∷ []) = if not (r.is_error_type out) then false else true
      check_outs _ = false
  check_types _ outs = false

  unfoldable pub check_valid_method : Method → Bool
  check_valid_method m = if not (bytes_eq m.pkg_path []) then false else check_types m.ins m.outs

-- The methods that are found, and the pools of their types.
abbrev pub Found : Type 0 → Type 0
Found V = Map Text MethodType × Pools V

module _ {V : Type 0} where
  unfoldable pub add_types : Text → List GoType → Found V → Found V
  add_types name (self ∷ ctx ∷ arg ∷ reply ∷ []) (methods, ps) = (
    insert name (method_type arg reply) methods,
    init (type_number reply) (init (type_number arg) ps),
  )
  add_types name _ found = found

  unfoldable pub add_method : Reflection → Method → Found V → Found V
  add_method r m found =
      if not (check_valid_method r m) then found else add_types m.name m.ins found

  unfoldable pub suitable_rpc_methods : Reflection → List Method → Found V → Found V
  suitable_rpc_methods r [] found = found
  suitable_rpc_methods r (m ∷ ms) found = suitable_rpc_methods r ms (add_method r m found)

-- The fields of `Server` that registration works on, with the pools of the package and the state of
-- the plugins.
pub record Server (V S A : Type 0) : Type 0 where
  pub service_map : Map Text Service
  pub plugins : List (Plugin S A)
  pub pools : Pools V
  pub plugin_state : S

pub data RegisterError : Type 0 where
  not_registered : Err → RegisterError
  plugins_failed : MultiError → RegisterError

abbrev pub plugin_error : Option MultiError → Option RegisterError
plugin_error none = none
plugin_error (some e) = some (plugins_failed e)

module _ {V S A : Type 0} (r : Reflection) where
  abbrev pub store_service : Text → Found V → Server V S A → Text × Option Err × Server V S A
  store_service sname ([], ps) svr = (sname, some (no_suitable_method sname), svr)
  store_service sname (methods, ps) svr = (
    sname,
    none,
    record svr {
      service_map = insert sname (record { name = sname; method_map = methods }) svr.service_map;
      pools = ps;
    },
  )

  -- `register`: the name given, or else that of the instance's type.
  unfoldable pub register :
      Text → Text → List Method → Server V S A → Text × Option Err × Server V S A
  register service_name type_name methods svr =
      let sname = if bytes_eq service_name [] then type_name else service_name in
      store_service sname (suitable_rpc_methods r methods ([], svr.pools)) svr

  abbrev pub tell_plugins : Text → Option Err → Server V S A → Option RegisterError × Server V S A
  tell_plugins name (some e) svr = (some (not_registered e), svr)
  tell_plugins name none svr =
      let (e, s) = do_register name svr.plugins svr.plugin_state in
      (plugin_error e, record svr { plugin_state = s })

  -- `Register`
  unfoldable pub register_instance :
      Text → List Method → Server V S A → Option RegisterError × Server V S A
  register_instance type_name methods svr =
      let (sname, e, svr') = register [] type_name methods svr in tell_plugins sname e svr'

  unfoldable pub register_name :
      Text → Text → List Method → Server V S A → Option RegisterError × Server V S A
  register_name service_name type_name methods svr =
      let (sname, e, svr') = register service_name type_name methods svr in
      tell_plugins service_name e svr'

abbrev pub add_multi : Option MultiError → List MultiError → List MultiError
add_multi none errs = errs
add_multi (some e) errs = errs ++ (e ∷ [])

unfoldable pub unregister_each :
    {S A : Type 0}
    → Map Text Service
    → List (Plugin S A)
    → List MultiError × S
    → List MultiError × S
unregister_each [] plugins acc = acc
unregister_each ((sname, svc) ∷ m) plugins (errs, s) =
    let (e, s') = do_unregister sname plugins s in unregister_each m plugins (add_multi e errs, s')

module _ {V S A : Type 0} where
  -- `UnregisterAll`: the errors in one multi-error, if there are any. The services stay registered.
  unfoldable pub unregister_all : Server V S A → Option (List MultiError) × Server V S A
  unregister_all svr =
      let (errs, s) = unregister_each svr.service_map svr.plugins ([], svr.plugin_state) in
      (elim errs [ [] ↦ none | e ∷ es ↦ some (e ∷ es) ], record svr { plugin_state = s })
