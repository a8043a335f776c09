-- ===== src/Schema/Compile/Found.antt =====
-- The contracts of one path: each method that its item has is found among them.
use light_waf.Prelude.{
  Bool, true, false, ◌&&◌, ◌||◌, Option, none, some, List, [], ◌∷◌, ◌++◌, Bytes, codes, ◌≡◌, refl,
  sym, ap, ◌∙◌, subst, arith, any, filterb, ◌=bytes◌, Bool-cases, Option-cases, inl, inr,
}
use light_waf.Prelude.Dict.{=bytes_same}
use light_waf.Schema.Value.{Value, Members, member}
use light_waf.Schema.Router.{has_member}
use light_waf.Schema.Outcome.{Result, ok, map_err, ◌>>=◌, >>=-ok}
use light_waf.Schema.Contract.{CompiledOp}
use light_waf.Schema.Enforce.{find_op}
use light_waf.Schema.Compile.{compile_op, compile_methods}

or_assoc : (a b c : Bool) → (a || (b || c)) ≡ ((a || b) || c)
or_assoc a b c = ground arith

module _ {Validator : Type 0} where
  abbrev pub has_op : List ((Bytes × Bytes) × CompiledOp Validator) → Bytes → Bytes → Bool
  has_op [] template method = false
  has_op (((t, m), op) ∷ ops) template method =
      ((t =bytes template) && (m =bytes method)) || has_op ops template method

  pub find_op-has_op :
      (ops : List ((Bytes × Bytes) × CompiledOp Validator)) (template method : Bytes)
      → has_op ops template method ≡ true
      → (op : CompiledOp Validator) × (find_op ops template method ≡ some op)
  unfolding find_op
  find_op-has_op [] template method h = absurd (cc h)
  find_op-has_op (((t, m), op) ∷ ops) template method h =
      elim (Bool-cases ((t =bytes template) && (m =bytes method))) [
        | inl here ↦ (op, rw here refl)
        | inr there ↦ rw there (find_op-has_op ops template method (rw there at h))
      ]

  pub has_op-append :
      (xs ys : List ((Bytes × Bytes) × CompiledOp Validator)) (template method : Bytes)
      → has_op (xs ++ ys) template method ≡ (has_op xs template method || has_op ys template method)
  has_op-append [] ys template method = refl
  has_op-append (((t, m), op) ∷ xs) ys template method =
      ap (λ b. ((t =bytes template) && (m =bytes method)) || b)
        (has_op-append xs ys template method)
      ∙ or_assoc ((t =bytes template) && (m =bytes method)) (has_op xs template method)
          (has_op ys template method)

has_member-none : (item : Members) (m : Bytes) → member m item ≡ none → has_member item m ≡ false
unfolding has_member
has_member-none item m e = rw (e, has_member) refl

has_member-some :
    (item : Members) (m : Bytes) (v : Value) → member m item ≡ some v → has_member item m ≡ true
unfolding has_member
has_member-some item m v e = rw (e, has_member) refl

module _ {Validator : Type 0} (pointer : Value → Bytes → Option Value)
    (validator_for : Value → Result Validator) (to_uppercase : Bytes → Bytes) (doc : Value)
    (is_3_0 strict_body : Bool) where
  abbrev pub methods_ops :
      Bytes → Members → List Bytes → Result (List ((Bytes × Bytes) × CompiledOp Validator))
  methods_ops = compile_methods pointer validator_for to_uppercase doc is_3_0 strict_body

  compile_methods-none :
      (template : Bytes) (item : Members) (m : Bytes) (methods : List Bytes)
      → member m item ≡ none
      → methods_ops template item (m ∷ methods) ≡ methods_ops template item methods
  unfolding compile_methods
  compile_methods-none template item m methods e = rw (e, compile_methods) refl

  -- a method that is there contributes its contract
  compile_methods-some :
      (template : Bytes) (item : Members) (m : Bytes) (methods : List Bytes) (op : Value)
      (ops : List ((Bytes × Bytes) × CompiledOp Validator))
      → member m item ≡ some op
      → methods_ops template item (m ∷ methods) ≡ ok ops
      → (compiled : CompiledOp Validator) × (rest : List ((Bytes × Bytes) × CompiledOp Validator))
        × (methods_ops template item methods ≡ ok rest)
        × (((template, m), compiled) ∷ rest ≡ ops)
  unfolding compile_methods
  compile_methods-some template item m methods op ops e c =
      let made : Result (CompiledOp Validator) =
        map_err (λ e'. to_uppercase m ++ (codes " " ++ (template ++ (codes ": " ++ e'))))
          (compile_op pointer validator_for to_uppercase doc op (member (codes "parameters") item)
            is_3_0 strict_body) in
      let step : methods_ops template item (m ∷ methods) ≡ (
          made >>= λ compiled.
          methods_ops template item methods >>= λ rest. ok (((template, m), compiled) ∷ rest)) =
        rw (e, compile_methods) refl in
      let (compiled, c', p) = >>=-ok made _ (sym step ∙ c) in
      let (rest, c'', q) = >>=-ok (methods_ops template item methods) _ c' in
      (compiled, rest, q, cc)

  pub compile_methods-has_op :
      (template : Bytes) (item : Members) (methods : List Bytes) (method : Bytes)
      (ops : List ((Bytes × Bytes) × CompiledOp Validator))
      → methods_ops template item methods ≡ ok ops
      → any (λ x. x =bytes method) (filterb (has_member item) methods) ≡ true
      → has_op ops template method ≡ true
  compile_methods-has_op template item [] method ops c h = absurd (cc h)
  compile_methods-has_op template item (m ∷ methods) method ops c h =
      elim (Option-cases (member m item)) [
        | inl e ↦
            compile_methods-has_op template item methods method ops
              (sym (compile_methods-none template item m methods e) ∙ c)
              (rw (has_member-none item m e) at h)
        | inr (op, e) ↦
            let (compiled, rest, r, made) =
              compile_methods-some template item m methods op ops e c in
            subst (λ l. has_op l template method ≡ true) made
              (first_or_later template m method compiled rest
                (any (λ x. x =bytes method) (filterb (has_member item) methods))
                (compile_methods-has_op template item methods method rest r)
                (rw (has_member-some item m op e) at h))
      ]
    where
      first_or_later :
          (t n method : Bytes) (compiled : CompiledOp Validator)
          (rest : List ((Bytes × Bytes) × CompiledOp Validator)) (later : Bool)
          → (later ≡ true → has_op rest t method ≡ true)
          → ((n =bytes method) || later) ≡ true
          → has_op (((t, n), compiled) ∷ rest) t method ≡ true
      first_or_later t n method compiled rest later k h = elim (Bool-cases (n =bytes method)) [
        | inl same ↦ rw (=bytes_same t) (rw same refl)
        | inr other ↦ rw (=bytes_same t) (rw other (k (rw other at h)))
      ]
