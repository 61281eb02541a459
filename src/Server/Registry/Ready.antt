-- ===== src/Server/Registry/Ready.antt =====
-- What `suitableRPCMethods` finds: entries of fit methods, and the pools of their types.
use a_simple_rpc.Prelude.{
  ℕ, ◌≡◌, ◌≢◌, refl, sym, ◌∙◌, subst, ◌⊎◌, inl, inr, true, List, [], ◌∷◌, some, Bool-cases, ==_iff,
  ◌==◌, if◌then◌else◌, bytes_eq, bytes_eq→eq, nat_eq, text_eq,
}
use mathlib.Core.Option.{some-injective}
use a_simple_rpc.Prelude.Bytes.{Text}
use a_simple_rpc.Prelude.Maps.{Map, lookup, insert, lookup-insert}
use a_simple_rpc.Server.Pool.{Pools, init}
use a_simple_rpc.Server.Handler.{MethodType}
use a_simple_rpc.Server.Registry.{
  GoType, pointer, Method, Reflection, type_number, method_type, check_valid_method, add_types,
  add_method, suitable_rpc_methods, Found,
}
use a_simple_rpc.Server.Registry.Methods.{both, IsRpc, types-IsRpc, From}

-- The pool of a type is there.
abbrev pub Pooled : {V : Type 0} → ℕ → Pools V → Type 0
Pooled {V} t ps = (xs : List V) × (lookup t ps ≡ some xs)

module _ (r : Reflection) where
  -- Every entry has this property, and its types have pools.
  record Sound {V : Type 0} (P : Text → MethodType → Type 0) (found : Found V) : Type 0 where
    entry : (n : Text) (mt : MethodType) → lookup n found.0 ≡ some mt → P n mt
    arg_pool :
        (n : Text) (mt : MethodType) → lookup n found.0 ≡ some mt → Pooled mt.arg_type found.1
    reply_pool :
        (n : Text) (mt : MethodType) → lookup n found.0 ≡ some mt → Pooled mt.reply_type found.1

  abbrev OrThis : (Text → MethodType → Type 0) → Method → Text → MethodType → Type 0
  OrThis P m n mt = ((m.name ≡ n) × IsRpc r m mt) ⊎ P n mt

lookup-insert-cases :
    (n name : Text) (mt new : MethodType) (methods : Map Text MethodType)
    → lookup n (insert name new methods) ≡ some mt
    → ((name ≡ n) × (new ≡ mt)) ⊎ (lookup n methods ≡ some mt)
lookup-insert-cases n name mt new methods h = elim (Bool-cases (bytes_eq name n)) [
  | inl same ↦ inl (
    bytes_eq→eq name n same,
    some-injective _ _ (subst (λ b. (if b then some new else lookup n methods) ≡ some mt) same at),
  )
  | inr other ↦ inr (subst (λ b. (if b then some new else lookup n methods) ≡ some mt) other at)
]
  where
    at : (if bytes_eq name n then some new else lookup n methods) ≡ some mt
    at = sym (lookup-insert name n new methods) ∙ h

module _ {V : Type 0} where
  init-Pooled : (t u : ℕ) (ps : Pools V) → Pooled t ps → Pooled t (init u ps)
  unfolding init
  init-Pooled t u ps (xs, e) = elim (Bool-cases (u == t)) [
    | inl same ↦ ([], rw (lookup-insert {V = List V} u t [] ps, same) refl)
    | inr other ↦ (xs, rw (lookup-insert {V = List V} u t [] ps, other) e)
  ]

  init_self : (t : ℕ) (ps : Pools V) → Pooled t (init t ps)
  unfolding init
  init_self t ps =
      let same : (t == t) ≡ true = (==_iff t t).1 refl in
      ([], rw (lookup-insert {V = List V} t t [] ps, same) refl)

  module _ (r : Reflection) (P : Text → MethodType → Type 0) where
    typed-Sound :
        (m : Method) (self ctx arg reply : GoType) (found : Found V)
        → IsRpc r m (method_type arg reply)
        → Sound r P found
        → Sound r (OrThis r P m) (add_types m.name (self ∷ ctx ∷ arg ∷ reply ∷ []) found)
    unfolding add_types method_type
    typed-Sound m self ctx arg reply (methods, ps) rpc h = record {
      entry = λ n mt e. elim (lookup-insert-cases n m.name mt (method_type arg reply) methods e) [
        | inl (name, new) ↦ inl (name, subst (IsRpc r m) new rpc)
        | inr old ↦ inr (h.entry n mt old)
      ];
      arg_pool = λ n mt e.
          elim (lookup-insert-cases n m.name mt (method_type arg reply) methods e) [
            | inl (name, new) ↦
                subst (λ (x : MethodType). Pooled x.arg_type both_pools) new
                  (init-Pooled (type_number arg) (type_number reply) arg_pools
                    (init_self (type_number arg) ps))
            | inr old ↦ kept mt.arg_type (h.arg_pool n mt old)
          ];
      reply_pool = λ n mt e.
          elim (lookup-insert-cases n m.name mt (method_type arg reply) methods e) [
            | inl (name, new) ↦
                subst (λ (x : MethodType). Pooled x.reply_type both_pools) new
                  (init_self (type_number reply) arg_pools)
            | inr old ↦ kept mt.reply_type (h.reply_pool n mt old)
          ];
    }
      where
        arg_pools : Pools V
        arg_pools = init (type_number arg) ps

        both_pools : Pools V
        both_pools = init (type_number reply) arg_pools

        kept : (t : ℕ) → Pooled t ps → Pooled t both_pools
        kept t p =
            init-Pooled t (type_number reply) arg_pools (init-Pooled t (type_number arg) ps p)

    add_method-Sound :
        (m : Method) (found : Found V)
        → Sound r P found
        → Sound r (OrThis r P m) (add_method r m found)
    unfolding add_method check_valid_method
    add_method-Sound m found h = elim (Bool-cases (check_valid_method r m)) [
      | inl valid ↦
          let (exported, types) = both _ _ valid in
          let (mt, rpc) = types-IsRpc r m m.ins m.outs (bytes_eq→eq _ _ exported) refl refl types in
          let rpc' = subst (IsRpc r m) rpc.type_is rpc in
          rw valid (
            subst (λ ins. Sound r (OrThis r P m) (add_types m.name ins found)) (sym rpc.ins_are)
              (typed-Sound m rpc.self rpc.ctx rpc.arg (pointer rpc.number rpc.elem) found rpc' h))
      | inr not_valid ↦ rw not_valid (record {
        entry = λ n mt e. inr (h.entry n mt e);
        arg_pool = h.arg_pool;
        reply_pool = h.reply_pool;
      })
    ]

-- No name is looked up in a map of nothing.
nothing : (n : Text) (mt : MethodType) → lookup {V = MethodType} n [] ≢ some mt
unfolding lookup
nothing n mt e = cc e

module _ (r : Reflection) where
  abbrev OrOne : (Text → MethodType → Type 0) → List Method → Text → MethodType → Type 0
  OrOne P ms n mt = From r n mt ms ⊎ P n mt

  regroup :
      (P : Text → MethodType → Type 0) (m : Method) (ms : List Method) (n : Text) (mt : MethodType)
      → OrOne (OrThis r P m) ms n mt
      → OrOne P (m ∷ ms) n mt
  regroup P m ms n mt (inl later) = inl (inr later)
  regroup P m ms n mt (inr (inl this)) = inl (inl this)
  regroup P m ms n mt (inr (inr old)) = inr old

module _ {V : Type 0} (r : Reflection) where
  suitable-Sound :
      (P : Text → MethodType → Type 0) (ms : List Method) (found : Found V)
      → Sound r P found
      → Sound r (OrOne r P ms) (suitable_rpc_methods r ms found)
  unfolding suitable_rpc_methods
  suitable-Sound P [] found h = record {
    entry = λ n mt e. inr (h.entry n mt e);
    arg_pool = h.arg_pool;
    reply_pool = h.reply_pool;
  }
  suitable-Sound P (m ∷ ms) found h =
      let s =
        suitable-Sound (OrThis r P m) ms (add_method r m found) (add_method-Sound r P m found h) in
      record {
        entry = λ n mt e. regroup r P m ms n mt (s.entry n mt e);
        arg_pool = s.arg_pool;
        reply_pool = s.reply_pool;
      }

  -- A method of a service: one of these methods, fit for a call, with the pools of its types.
  pub record IsReady (ms : List Method) (ps : Pools V) (n : Text) (mt : MethodType) : Type 0 where
    pub from : From r n mt ms
    pub arg_pool : Pooled mt.arg_type ps
    pub reply_pool : Pooled mt.reply_type ps

  pub suitable-IsReady :
      (ms : List Method) (ps : Pools V) (n : Text) (mt : MethodType)
      → lookup n (suitable_rpc_methods r ms ([], ps)).0 ≡ some mt
      → IsReady ms (suitable_rpc_methods r ms ([], ps)).1 n mt
  suitable-IsReady ms ps n mt e =
      let s = suitable-Sound (λ x y. ⊥) ms ([], ps) none_yet in
      record {
        from = elim (s.entry n mt e) [ inl f ↦ f | inr none_yet_ ↦ absurd none_yet_ ];
        arg_pool = s.arg_pool n mt e;
        reply_pool = s.reply_pool n mt e;
      }
    where
      none_yet : Sound r (λ x y. ⊥) ([], ps)
      none_yet = record {
        entry = λ k t e. absurd (nothing k t e);
        arg_pool = λ k t e. absurd (nothing k t e);
        reply_pool = λ k t e. absurd (nothing k t e);
      }
