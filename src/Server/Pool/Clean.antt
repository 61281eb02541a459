-- ===== src/Server/Pool/Clean.antt =====
-- What comes out of a pool.
use a_simple_rpc.Prelude.{
  ℕ, zero, suc, ◌≡◌, refl, List, [], ◌∷◌, Option, none, some, nat_eq, get_elem?, All, ◌==◌, ==_iff,
  Bool-cases, inl, inr, subst,
}
use a_simple_rpc.Prelude.Maps.{lookup, insert, lookup-insert}
use mathlib.Core.Option.{some-injective}
use a_simple_rpc.Outcome.{Outcome, ok, fail, panic, stuck}
use a_simple_rpc.Server.Pool.{
  Values, Pools, remove_at, init, put_in, put_reset, put, take_one, get_from, get,
}

-- The operations of a program on its pools, each with the choice that `sync.Pool` makes.
pub data Op (V : Type 0) : Type 0 where
  inits : ℕ → Op V
  puts : ℕ → V → Op V
  gets : ℕ → ℕ → Op V

module _ {V : Type 0} (vs : Values V) where
  abbrev pub then_put :
      Outcome (Pools V) → (Pools V → Outcome (List (ℕ × V))) → Outcome (List (ℕ × V))
  then_put (ok ps) k = k ps
  then_put (fail e) k = fail e
  then_put panic k = panic
  then_put stuck k = stuck

  abbrev pub and_got : ℕ → V → Outcome (List (ℕ × V)) → Outcome (List (ℕ × V))
  and_got t x (ok got) = ok ((t, x) ∷ got)
  and_got t x (fail e) = fail e
  and_got t x panic = panic
  and_got t x stuck = stuck

  abbrev pub then_get :
      ℕ → Outcome (V × Pools V) → (Pools V → Outcome (List (ℕ × V))) → Outcome (List (ℕ × V))
  then_get t (ok (x, ps)) k = and_got t x (k ps)
  then_get t (fail e) k = fail e
  then_get t panic k = panic
  then_get t stuck k = stuck

  -- What a history of operations hands out, with the type that was asked for.
  pub run : List (Op V) → Pools V → Outcome (List (ℕ × V))
  run [] ps = ok []
  run (inits t ∷ ops) ps = run ops (init t ps)
  run (puts t x ∷ ops) ps = then_put (put vs t x ps) (run ops)
  run (gets t pick ∷ ops) ps = then_get t (get vs pick t ps) (run ops)

module _ {V : Type 0} (P : ℕ → V → Type 0) where
  abbrev Stock : ℕ → Option (List V) → Type 0
  Stock t none = Unit {0}
  Stock t (some xs) = All (P t) xs

  -- Everything that lies in a pool has the property of its type.
  record Holds (ps : Pools V) : Type 0 where
    stock : (t : ℕ) → Stock t (lookup t ps)

  insert-Holds :
      (t : ℕ) (xs : List V) (ps : Pools V) → All (P t) xs → Holds ps → Holds (insert t xs ps)
  insert-Holds t xs ps a h = record {
    stock = λ u. rw (lookup-insert t u xs ps) (elim (Bool-cases (t == u)) [
      | inl same ↦ rw same (subst (λ v. All (P v) xs) ((==_iff t u).0 same) a)
      | inr other ↦ rw other (h.stock u)
    ]);
  }

  All-get_elem? :
      (t : ℕ) (xs : List V) (i : ℕ) (x : V) → All (P t) xs → get_elem? xs i ≡ some x → P t x
  All-get_elem? t [] i x a e = absurd (cc e)
  All-get_elem? t (y ∷ ys) zero x a e = subst (P t) (some-injective _ _ e) a.0
  All-get_elem? t (y ∷ ys) (suc i) x a e = All-get_elem? t ys i x a.1 e

  All-remove_at : (t : ℕ) (xs : List V) (i : ℕ) → All (P t) xs → All (P t) (remove_at i xs)
  All-remove_at t [] i a = tt
  All-remove_at t (y ∷ ys) zero a = a.1
  All-remove_at t (y ∷ ys) (suc i) a = (a.0, All-remove_at t ys i a.1)

-- Each value is put back into the pool of its type `T`.
abbrev pub Typed : {V : Type 0} → (ℕ → V → Type 0) → List (Op V) → Type 0
Typed T [] = Unit {0}
Typed T (inits t ∷ ops) = Typed T ops
Typed T (puts t x ∷ ops) = T t x × Typed T ops
Typed T (gets t pick ∷ ops) = Typed T ops

-- A property that every new value of a type has, and every value of that type that was reset.
pub record IsClean {V : Type 0} (vs : Values V) (T P : ℕ → V → Type 0) : Type 0 where
  pub new_clean : (t : ℕ) → P t (vs.new t)
  pub reset_clean : (t : ℕ) (x y : V) → T t x → vs.reset x ≡ some y → P t y

abbrev pub AllGot : {V : Type 0} → (ℕ → V → Type 0) → Outcome (List (ℕ × V)) → Type 0
AllGot P (ok got) = All (λ e. P e.0 e.1) got
AllGot P _ = Unit {0}

module _ {V : Type 0} (vs : Values V) (T P : ℕ → V → Type 0) (clean : IsClean vs T P) where
  abbrev AfterPut : Outcome (Pools V) → Type 0
  AfterPut (ok ps) = Holds P ps
  AfterPut _ = Unit {0}

  abbrev AfterGet : ℕ → Outcome (V × Pools V) → Type 0
  AfterGet t (ok (x, ps)) = P t x × Holds P ps
  AfterGet t _ = Unit {0}

  put-AfterPut : (t : ℕ) (x : V) (ps : Pools V) → T t x → Holds P ps → AfterPut (put vs t x ps)
  unfolding put put_reset put_in
  put-AfterPut t x ps typed h = go (vs.reset x) refl (lookup t ps) refl
    where
      go :
          (r : Option V)
          → vs.reset x ≡ r
          → (o : Option (List V)) → lookup t ps ≡ o
          → AfterPut (put_reset t r ps)
      go none e o l = h
      go (some y) e none l = rw l tt
      go (some y) e (some xs) l = rw l (
          insert-Holds P t (y ∷ xs) ps
            (clean.reset_clean t x y typed e, subst (Stock P t) l (h.stock t)) h)

  get-AfterGet : (t pick : ℕ) (ps : Pools V) → Holds P ps → AfterGet t (get vs pick t ps)
  unfolding get get_from take_one
  get-AfterGet t pick ps h = go (lookup t ps) refl
    where
      from :
          (xs : List V) (o : Option V)
          → All (P t) xs
          → get_elem? xs pick ≡ o
          → AfterGet t (ok (take_one vs pick t xs o ps))
      from xs none a e = (clean.new_clean t, h)
      from xs (some x) a e = (
        All-get_elem? P t xs pick x a e,
        insert-Holds P t (remove_at pick xs) ps (All-remove_at P t xs pick a) h,
      )

      go : (o : Option (List V)) → lookup t ps ≡ o → AfterGet t (get_from vs pick t o ps)
      go none l = tt
      go (some xs) l = from xs (get_elem? xs pick) (subst (Stock P t) l (h.stock t)) refl

  then_put-AllGot :
      (o : Outcome (Pools V)) (k : Pools V → Outcome (List (ℕ × V)))
      → AfterPut o
      → ((qs : Pools V) → Holds P qs → AllGot P (k qs))
      → AllGot P (then_put vs o k)
  then_put-AllGot (ok ps) k h next = next ps h
  then_put-AllGot (fail e) k h next = tt
  then_put-AllGot panic k h next = tt
  then_put-AllGot stuck k h next = tt

  and_got-AllGot :
      (t : ℕ) (x : V) (o : Outcome (List (ℕ × V)))
      → P t x
      → AllGot P o
      → AllGot P (and_got vs t x o)
  and_got-AllGot t x (ok got) p a = (p, a)
  and_got-AllGot t x (fail e) p a = tt
  and_got-AllGot t x panic p a = tt
  and_got-AllGot t x stuck p a = tt

  then_get-AllGot :
      (t : ℕ) (o : Outcome (V × Pools V)) (k : Pools V → Outcome (List (ℕ × V)))
      → AfterGet t o
      → ((qs : Pools V) → Holds P qs → AllGot P (k qs))
      → AllGot P (then_get vs t o k)
  then_get-AllGot t (ok (x, ps)) k h next = and_got-AllGot t x (k ps) h.0 (next ps h.1)
  then_get-AllGot t (fail e) k h next = tt
  then_get-AllGot t panic k h next = tt
  then_get-AllGot t stuck k h next = tt

  run-Holds :
      (ops : List (Op V)) (ps : Pools V) → Typed T ops → Holds P ps → AllGot P (run vs ops ps)
  unfolding run init
  run-Holds [] ps d h = tt
  run-Holds (inits t ∷ ops) ps d h = run-Holds ops _ d (insert-Holds P t [] ps tt h)
  run-Holds (puts t x ∷ ops) ps d h =
      then_put-AllGot (put vs t x ps) (run vs ops) (put-AfterPut t x ps d.0 h)
        (λ qs. run-Holds ops qs d.1)
  run-Holds (gets t pick ∷ ops) ps d h =
      then_get-AllGot t (get vs pick t ps) (run vs ops) (get-AfterGet t pick ps h)
        (λ qs. run-Holds ops qs d)

  -- Whatever `sync.Pool` picks: if every new value of a type has a property, and every value put into
  -- the pool of its type has it after `Reset`, then every value that a history of `Init`, `Put` and
  -- `Get` hands out, which starts with no pools, puts each value into the pool of its type and does not
  -- panic, has the property of the type that was asked for.
  pub run-AllGot : (ops : List (Op V)) → Typed T ops → AllGot P (run vs ops [])
  run-AllGot ops d = run-Holds ops [] d (record { stock = λ t. unfold lookup in tt })
