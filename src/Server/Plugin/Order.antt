-- ===== src/Server/Plugin/Order.antt =====
-- In which order plugins are asked, and what an error of one of them does to the others.
use a_simple_rpc.Prelude.{
  ◌≡◌, refl, ap, fun_ext, List, [], ◌∷◌, ◌++◌, Option, none, some, append_assoc, append-nil,
}
use a_simple_rpc.Prelude.Bytes.{Text}
use a_simple_rpc.Outcome.{Err}
use a_simple_rpc.Server.Plugin.{
  multi_or_nil, RegisterPlugin, Plugin, add_failure, ask, ask_all, do_register, do_unregister,
  ask_pre_call, do_pre_call,
}

ask-acc :
    {S : Type 0} (act : RegisterPlugin S → Text → S → Option Err × S) (name : Text)
    (rp : Option (RegisterPlugin S)) (errs : List Err) (s : S)
    → ask act name rp (errs, s) ≡ (errs ++ (ask act name rp ([], s)).0, (ask act name rp ([], s)).1)
unfolding ask
ask-acc act name none errs s = rw append-nil
ask-acc {S} act name (some rp) errs s = go ((act rp name s).0)
  where
    go :
        (e : Option Err)
        → ◌≡◌ {A = List Err × S}
            (add_failure e errs, (act rp name s).1)
            (errs ++ add_failure e [], (act rp name s).1)
    go none = rw append-nil
    go (some e) = refl

module _ {S A : Type 0} where
  -- The errors of all plugins in their order, and the world after all of them.
  unfoldable pub failures :
      (RegisterPlugin S → Text → S → Option Err × S) → Text → List (Plugin S A) → S → List Err × S
  failures act name [] s = ([], s)
  failures act name (p ∷ ps) s =
      let (es, s') = ask act name p.registers ([], s) in
      let (fs, s'') = failures act name ps s' in (es ++ fs, s'')

  ask_all-failures :
      (act : RegisterPlugin S → Text → S → Option Err × S) (name : Text) (ps : List (Plugin S A))
      (errs : List Err) (s : S)
      → ask_all act name ps (errs, s)
        ≡ (errs ++ (failures act name ps s).0, (failures act name ps s).1)
  unfolding ask_all failures
  ask_all-failures act name [] errs s = rw append-nil
  ask_all-failures act name (p ∷ ps) errs s = rw (
    ask-acc act name p.registers errs s,
    ask_all-failures act name ps (errs ++ (ask act name p.registers ([], s)).0)
        (ask act name p.registers ([], s)).1,
    append_assoc,
  )

  -- `DoRegister` asks every plugin that implements `RegisterPlugin`, in the order in which they were
  -- added, each in the world that the ones before it left, whether or not those failed; it returns nil
  -- if none fails, and otherwise their errors in that order. `DoUnRegister` does the same.
  do_register-failures :
      (name : Text) (ps : List (Plugin S A)) (s : S)
      → (do_register name ps s ≡ (
        multi_or_nil (failures (λ rp. rp.register) name ps s).0,
        (failures (λ rp. rp.register) name ps s).1,
      ))
        × (do_unregister name ps s ≡ (
          multi_or_nil (failures (λ rp. rp.unregister) name ps s).0,
          (failures (λ rp. rp.unregister) name ps s).1,
        ))
  unfolding do_register do_unregister
  do_register-failures name ps s = (
    rw (ask_all-failures (λ rp. rp.register) name ps [] s),
    rw (ask_all-failures (λ rp. rp.unregister) name ps [] s),
  )

  -- What the plugins behind a prefix `ps` still do, given how `ps` ended.
  abbrev pub go_on : (A → S → A × Option Err × S) → A × Option Err × S → A × Option Err × S
  go_on next (a, none, s) = next a s
  go_on next (a, some e, s) = (a, some e, s)

  go_on_assoc :
      (f g : A → S → A × Option Err × S) (r : A × Option Err × S)
      → go_on g (go_on f r) ≡ go_on (λ a s. go_on g (f a s)) r
  go_on_assoc f g (a, none, s) = refl
  go_on_assoc f g (a, some e, s) = refl

  do_pre_call-cons :
      (service method : Text) (p : Plugin S A) (ps : List (Plugin S A)) (args : A) (s : S)
      → do_pre_call service method (p ∷ ps) args s
        ≡ go_on (do_pre_call service method ps) (ask_pre_call p.pre_call service method args s)
  unfolding do_pre_call
  do_pre_call-cons service method p ps args s = go (ask_pre_call p.pre_call service method args s)
    where
      go :
          (r : A × Option Err × S)
          → ◌≡◌ {A = A × Option Err × S}
              (elim r.1 [
                | none ↦ do_pre_call service method ps r.0 r.2
                | some x ↦ (r.0, some x, r.2)
              ])
              (go_on (do_pre_call service method ps) r)
      go (a, none, s') = refl
      go (a, some e, s') = refl

  -- `DoPreCall` hands the arguments from plugin to plugin and stops at the first error: with plugins
  -- `qs` added behind `ps`, it runs `qs` on what `ps` made of the arguments if `ps` ends without an
  -- error, and otherwise returns what `ps` alone returns.
  do_pre_call-append :
      (service method : Text) (ps qs : List (Plugin S A)) (args : A) (s : S)
      → do_pre_call service method (ps ++ qs) args s
        ≡ go_on (do_pre_call service method qs) (do_pre_call service method ps args s)
  do_pre_call-append service method [] qs args s = unfold do_pre_call in refl
  do_pre_call-append service method (p ∷ ps) qs args s =
      rw
        (
          do_pre_call-cons service method p (ps ++ qs) args s,
          do_pre_call-cons service method p ps args s,
          go_on_assoc,
        )
        (ap
          (λ (f : A → S → A × Option Err × S).
            go_on f (ask_pre_call p.pre_call service method args s))
          (fun_ext λ a. fun_ext λ s'. do_pre_call-append service method ps qs a s'))
