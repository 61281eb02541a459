-- ===== src/Server/Registry/Methods.antt =====
-- Which methods of a type become methods of its service.
use a_simple_rpc.Prelude.{
  ℕ, ◌≡◌, refl, ◌⊎◌, Bool, true, false, not, List, [], ◌∷◌, if◌then◌else◌, nat_eq, text_eq, arith,
}
use a_simple_rpc.Prelude.Bytes.{Text}
use a_simple_rpc.Server.Handler.{MethodType}
use a_simple_rpc.Server.Registry.{
  GoType, named, pointer, Method, Reflection, method_type, is_exported_or_builtin, check_types,
}

pub both : (x y : Bool) → (if not x then false else y) ≡ true → (x ≡ true) × (y ≡ true)
both true y h = (refl, h)
both false y h = absurd (cc h)

module _ (r : Reflection) where
  -- An exported method with a context, an argument of an exported or built-in type, a pointer to such a
  -- type for the reply, and an error as its only result; and its entry in the service.
  pub record IsRpc (m : Method) (mt : MethodType) : Type 0 where
    pub self : GoType
    pub ctx : GoType
    pub arg : GoType
    pub elem : GoType
    pub out : GoType
    pub number : ℕ
    pub exported : m.pkg_path ≡ []
    pub ins_are : m.ins ≡ self ∷ ctx ∷ arg ∷ pointer number elem ∷ []
    pub outs_are : m.outs ≡ out ∷ []
    pub takes_context : r.implements_context ctx ≡ true
    pub arg_visible : is_exported_or_builtin r arg ≡ true
    pub reply_visible : is_exported_or_builtin r elem ≡ true
    pub returns_error : r.is_error_type out ≡ true
    pub type_is : mt ≡ method_type arg (pointer number elem)

  pub types-IsRpc :
      (m : Method) (ins outs : List GoType)
      → m.pkg_path ≡ []
      → m.ins ≡ ins
      → m.outs ≡ outs
      → check_types r ins outs ≡ true
      → (mt : MethodType) × IsRpc m mt
  unfolding check_types is_exported_or_builtin
  types-IsRpc m (self ∷ ctx ∷ arg ∷ pointer n elem ∷ []) (out ∷ []) exported ins outs h =
      let (takes, h1) = both _ _ h in
      let (visible, h2) = both _ _ h1 in
      let (reply, h3) = both _ _ h2 in
      let (error_, _) = both _ _ h3 in
      (
        method_type arg (pointer n elem),
        record {
          self = self;
          ctx = ctx;
          arg = arg;
          elem = elem;
          out = out;
          number = n;
          exported = exported;
          ins_are = ins;
          outs_are = outs;
          takes_context = takes;
          arg_visible = visible;
          reply_visible = reply;
          returns_error = error_;
          type_is = refl;
        },
      )
  types-IsRpc m (self ∷ ctx ∷ arg ∷ pointer n elem ∷ []) [] exported i o h =
      absurd (ground (arith, h))
  types-IsRpc m (self ∷ ctx ∷ arg ∷ pointer n elem ∷ []) (x ∷ y ∷ outs) exported i o h =
      absurd (ground (arith, h))
  types-IsRpc m (self ∷ ctx ∷ arg ∷ named n p t ∷ []) outs exported i o h =
      absurd (ground (arith, h))
  types-IsRpc m [] outs exported i o h = absurd (cc h)
  types-IsRpc m (x ∷ []) outs exported i o h = absurd (cc h)
  types-IsRpc m (x ∷ y ∷ []) outs exported i o h = absurd (cc h)
  types-IsRpc m (x ∷ y ∷ z ∷ []) outs exported i o h = absurd (cc h)
  types-IsRpc m (x ∷ y ∷ z ∷ w ∷ v ∷ ins) outs exported i o h = absurd (cc h)

  -- The methods of a list that have this name and become this entry.
  abbrev pub From : Text → MethodType → List Method → Type 0
  From n mt [] = ⊥
  From n mt (m ∷ ms) = ((m.name ≡ n) × IsRpc m mt) ⊎ From n mt ms
