-- ===== src/Server/Plugin.antt =====
-- server/plugin.go and error/multi_error.go. A plugin is whatever it implements: each interface of
-- plugin.go is an optional field. Plugins act on a world of type `S`, so the order and the number of the
-- calls show. Connections are numbered; `close_conn` is `net.Conn.Close`.
pub mod Order
use a_simple_rpc.Prelude.{
  ℕ, Bool, true, false, not, List, [], ◌∷◌, ◌++◌, Option, none, some, ◌==◌, if◌then◌else◌,
}
use a_simple_rpc.Prelude.Bytes.{Text}
use a_simple_rpc.Outcome.{Err}

-- `MultiError`: its field `Errors`.
pub record MultiError : Type 0 where
  pub errors : List Err

unfoldable pub new_multi_error : List Err → MultiError
new_multi_error es = record { errors = es }

unfoldable pub append_error : Err → MultiError → MultiError
append_error e m = record { errors = m.errors ++ (e ∷ []) }

-- `ErrorOrNil` on a pointer that may be nil.
unfoldable pub error_or_nil : Option MultiError → Option MultiError
error_or_nil none = none
error_or_nil (some (m)) = elim m.errors [ [] ↦ none | e ∷ es ↦ some m ]

-- `if len(errs) > 0 { return NewMultiError(errs) }; return nil`
unfoldable pub multi_or_nil : List Err → Option MultiError
multi_or_nil [] = none
multi_or_nil (e ∷ es) = some (new_multi_error (e ∷ es))

-- `RegisterPlugin`
pub record RegisterPlugin (S : Type 0) : Type 0 where
  pub register : Text → S → Option Err × S
  pub unregister : Text → S → Option Err × S

-- A plugin: its identity, and what it implements of `RegisterPlugin`, `PreCallPlugin`,
-- `PostConnAcceptPlugin` and `PostConnClosePlugin`.
pub record Plugin (S A : Type 0) : Type 0 where
  pub id : ℕ
  pub registers : Option (RegisterPlugin S)
  pub pre_call : Option (Text → Text → A → S → A × Option Err × S)
  pub handle_conn_accept : Option (ℕ → S → ℕ × Bool × S)
  pub handle_conn_close : Option (ℕ → S → Bool × S)

abbrev pub add_failure : Option Err → List Err → List Err
add_failure none errs = errs
add_failure (some e) errs = errs ++ (e ∷ [])

module _ {S : Type 0} where
  -- One round of the loops of `DoRegister` and `DoUnRegister`, which differ in the method they call.
  unfoldable pub ask :
      (RegisterPlugin S → Text → S → Option Err × S)
      → Text
      → Option (RegisterPlugin S)
      → List Err × S
      → List Err × S
  ask act name none (errs, s) = (errs, s)
  ask act name (some rp) (errs, s) = let (e, s') = act rp name s in (add_failure e errs, s')

  abbrev finish : List Err × S → Option MultiError × S
  finish (errs, s) = (multi_or_nil errs, s)

  unfoldable pub ask_accept : (ℕ → S → S) → Option (ℕ → S → ℕ × Bool × S) → ℕ → S → ℕ × Bool × S
  ask_accept close_conn none conn s = (conn, true, s)
  ask_accept close_conn (some h) conn s =
      let (conn', flag, s') = h conn s in (conn', flag, if flag then s' else close_conn conn' s')

  unfoldable pub ask_close : Option (ℕ → S → Bool × S) → ℕ → S → Bool × S
  ask_close none conn s = (true, s)
  ask_close (some h) conn s = h conn s

module _ {S A : Type 0} where
  -- `pluginContainer`: its field `plugins`.
  unfoldable pub add : Plugin S A → List (Plugin S A) → List (Plugin S A)
  add p ps = ps ++ (p ∷ [])

  unfoldable pub remove : Plugin S A → List (Plugin S A) → List (Plugin S A)
  remove p [] = []
  remove p (q ∷ qs) = if q.id == p.id then remove p qs else q ∷ remove p qs

  unfoldable pub ask_all :
      (RegisterPlugin S → Text → S → Option Err × S)
      → Text
      → List (Plugin S A)
      → List Err × S
      → List Err × S
  ask_all act name [] acc = acc
  ask_all act name (p ∷ ps) acc = ask_all act name ps (ask act name p.registers acc)

  unfoldable pub do_register : Text → List (Plugin S A) → S → Option MultiError × S
  do_register name ps s = finish (ask_all (λ rp. rp.register) name ps ([], s))

  unfoldable pub do_unregister : Text → List (Plugin S A) → S → Option MultiError × S
  do_unregister name ps s = finish (ask_all (λ rp. rp.unregister) name ps ([], s))

  -- `DoPostConnAccept`; `close_conn` is `conn.Close`.
  unfoldable pub do_post_conn_accept : (ℕ → S → S) → List (Plugin S A) → ℕ → S → ℕ × Bool × S
  do_post_conn_accept close_conn [] conn s = (conn, true, s)
  do_post_conn_accept close_conn (p ∷ ps) conn s =
      let (conn', flag, s') = ask_accept close_conn p.handle_conn_accept conn s in
      let rest = do_post_conn_accept close_conn ps conn' s' in
      if flag then rest else (conn', false, s')

  unfoldable pub do_post_conn_close : List (Plugin S A) → ℕ → S → Bool × S
  do_post_conn_close [] conn s = (true, s)
  do_post_conn_close (p ∷ ps) conn s =
      let (flag, s') = ask_close p.handle_conn_close conn s in
      let rest = do_post_conn_close ps conn s' in if flag then rest else (false, s')

  unfoldable pub ask_pre_call :
      Option (Text → Text → A → S → A × Option Err × S) → Text → Text → A → S → A × Option Err × S
  ask_pre_call none service method args s = (args, none, s)
  ask_pre_call (some h) service method args s = h service method args s

  unfoldable pub do_pre_call : Text → Text → List (Plugin S A) → A → S → A × Option Err × S
  do_pre_call service method [] args s = (args, none, s)
  do_pre_call service method (p ∷ ps) args s =
      let (args', e, s') = ask_pre_call p.pre_call service method args s in
      let rest = do_pre_call service method ps args' s' in
      elim e [ none ↦ rest | some x ↦ (args', some x, s') ]
