-- ===== src/Schema/Compile/Complete.antt =====
-- Every operation that the router finds has a contract.
use light_waf.Prelude.{
  Bool, true, false, ◌||◌, Option, none, some, List, [], ◌∷◌, ◌++◌, Bytes, codes, ◌≡◌, ◌⊎◌, refl,
  sym, ap, ◌∙◌, subst, arith, any, filterb, ◌=bytes◌, is_empty, Option-cases, inl, inr,
  if◌then◌else◌, to_ascii_lowercase,
}
use light_waf.Schema.Value.{
  object_entries, Value, Members, null, bool, number, string, array, object, members_list, get,
  as_object,
}
use light_waf.Schema.Router.{
  Route, http_methods, has_member, route_of, add_some, routes_of, declared_routes, build, resolve,
  matched, unknown_route, method_not_allowed, Resolution, path_routes, object_routes,
  split_segments, parse_template,
}
use light_waf.Schema.Router.Best.{IsResolved, resolve-build}
use light_waf.Schema.Outcome.{Result, ok, ◌>>=◌, >>=-ok}
use light_waf.Schema.Contract.{CompiledOp}
use light_waf.Schema.Enforce.{CompiledSpec, find_op}
use light_waf.Schema.Compile.Found.{
  has_op, find_op-has_op, has_op-append, methods_ops, compile_methods-has_op,
}
use light_waf.Schema.Compile.{compile_paths, compile}
use mathlib.Core.List.Memᴰ
use mathlib.Core.List.{Memᴰ}

add_some-cases :
    (r : Route) (o : Option Route) (routes : List Route)
    → Memᴰ r (add_some o routes)
    → (o ≡ some r) ⊎ Memᴰ r routes
unfolding add_some
add_some-cases r none routes m = inr m
add_some-cases r (some s) routes (Memᴰ.head e) = inl (ap some (sym e))
add_some-cases r (some s) routes (Memᴰ.tail there) = inr there

-- the item of a route
abbrev IsRouteOf : Bytes → Value → Route → Type 0
IsRouteOf template item r =
    (entries : Members) × (as_object item ≡ some entries)
    × (template ≡ r.template)
    × (filterb (has_member entries) http_methods ≡ r.methods)

some_unless :
    (b : Bool) (template : Bytes) (item : Value) (entries : Members) (made r : Route)
    → as_object item ≡ some entries
    → template ≡ made.template
    → filterb (has_member entries) http_methods ≡ made.methods
    → (if b then none else some made) ≡ some r
    → IsRouteOf template item r
some_unless true template item entries made r e t ms h = absurd (cc h)
some_unless false template item entries made r e t ms h =
    let same : made ≡ r = cc in
    (entries, e, t ∙ ap (λ (x : Route). x.template) same, ms ∙ ap (λ (x : Route). x.methods) same)

or_left : (a b : Bool) → a ≡ true → (a || b) ≡ true
or_left a b h = ground arith

or_right : (a b : Bool) → b ≡ true → (a || b) ≡ true
or_right a b h = ground arith

route_of-IsRouteOf :
    (template : Bytes) (item : Value) (r : Route)
    → route_of template item ≡ some r
    → IsRouteOf template item r
unfolding route_of
route_of-IsRouteOf template item r h = elim (Option-cases (as_object item)) [
  | inl e ↦
      let step : route_of template item ≡ none = rw (e, route_of) refl in absurd (cc (sym step ∙ h))
  | inr (entries, e) ↦
      let methods = filterb (has_member entries) http_methods in
      let made : Route = record {
        template = template;
        segments = parse_template template;
        methods = methods;
      } in
      let step : route_of template item ≡ (if is_empty methods then none else some made) =
        rw (e, route_of) refl in
      some_unless (is_empty methods) template item entries made r e refl refl (sym step ∙ h)
]

module _ {Validator : Type 0} (pointer : Value → Bytes → Option Value)
    (validator_for : Value → Result Validator) (to_uppercase : Bytes → Bytes) (doc : Value)
    (is_3_0 strict_body : Bool) where
  abbrev paths_ops : List (Bytes × Value) → Result (List ((Bytes × Bytes) × CompiledOp Validator))
  paths_ops = compile_paths pointer validator_for to_uppercase doc is_3_0 strict_body

  compile_paths-none :
      (template : Bytes) (item : Value) (paths : List (Bytes × Value))
      → as_object item ≡ none
      → paths_ops ((template, item) ∷ paths) ≡ paths_ops paths
  unfolding compile_paths
  compile_paths-none template item paths e = rw (e, compile_paths) refl

  compile_paths-some :
      (template : Bytes) (item : Value) (entries : Members) (paths : List (Bytes × Value))
      (ops : List ((Bytes × Bytes) × CompiledOp Validator))
      → as_object item ≡ some entries
      → paths_ops ((template, item) ∷ paths) ≡ ok ops
      → (here : List ((Bytes × Bytes) × CompiledOp Validator)) × (rest : List
          ((Bytes × Bytes) × CompiledOp Validator))
        × (methods_ops pointer validator_for to_uppercase doc is_3_0 strict_body template entries
              http_methods
            ≡ ok here)
        × (paths_ops paths ≡ ok rest)
        × (here ++ rest ≡ ops)
  unfolding compile_paths
  compile_paths-some template item entries paths ops e c =
      let step : paths_ops ((template, item) ∷ paths) ≡ (
          methods_ops pointer validator_for to_uppercase doc is_3_0 strict_body template entries
            http_methods
          >>= λ here. paths_ops paths >>= λ rest. ok (here ++ rest)) =
        rw (e, compile_paths) refl in
      let (here, c', p) =
        >>=-ok
          (methods_ops pointer validator_for to_uppercase doc is_3_0 strict_body template entries
            http_methods)
          _ (sym step ∙ c) in
      let (rest, c'', q) = >>=-ok (paths_ops paths) _ c' in (here, rest, p, q, cc)

  compile_paths-has_op :
      (paths : List (Bytes × Value)) (r : Route) (method : Bytes)
      (ops : List ((Bytes × Bytes) × CompiledOp Validator))
      → Memᴰ r (routes_of paths)
      → any (λ x. x =bytes method) r.methods ≡ true
      → paths_ops paths ≡ ok ops
      → has_op ops r.template method ≡ true
  unfolding routes_of
  compile_paths-has_op [] r method ops mem h c = absurd (Memᴰ.not-nil mem)
  compile_paths-has_op ((template, item) ∷ paths) r method ops mem h c =
      elim (Option-cases (as_object item)) [
        | inl e ↦ elim (add_some-cases r (route_of template item) (routes_of paths) mem) [
          | inl here ↦
              let (entries, e', t, ms) = route_of-IsRouteOf template item r here in
              absurd (cc (sym e ∙ e'))
          | inr there ↦
              compile_paths-has_op paths r method ops there h
                (sym (compile_paths-none template item paths e) ∙ c)
        ]
        | inr (entries, e) ↦
            let (here, rest, p, q, made) = compile_paths-some template item entries paths ops e c in
            subst (λ l. has_op l r.template method ≡ true) made
              (has_op-append here rest r.template method
                ∙ elim (add_some-cases r (route_of template item) (routes_of paths) mem) [
                  | inl found ↦
                      let (entries', e', t, ms) = route_of-IsRouteOf template item r found in
                      let same : entries' ≡ entries = cc (sym e ∙ e') in
                      or_left (has_op here r.template method) (has_op rest r.template method) (
                        subst (λ t'. has_op here t' method ≡ true) t
                          (compile_methods-has_op pointer validator_for to_uppercase doc is_3_0
                            strict_body template entries http_methods method here p
                            (ap
                                (λ ms'.
                                  any (λ x. x =bytes method)
                                    (filterb (has_member ms') http_methods))
                                (sym same)
                              ∙ ap (any (λ x. x =bytes method)) ms
                              ∙ h)))
                  | inr there ↦
                      or_right (has_op here r.template method) (has_op rest r.template method)
                        (compile_paths-has_op paths r method rest there h q)
                ])
      ]

  path_routes-entries : (o : Option Value) → path_routes o ≡ routes_of (object_entries o)
  unfolding path_routes object_routes object_entries routes_of members_list
  path_routes-entries none = refl
  path_routes-entries (some null) = refl
  path_routes-entries (some (bool b)) = refl
  path_routes-entries (some (number n)) = refl
  path_routes-entries (some (string s)) = refl
  path_routes-entries (some (array items)) = refl
  path_routes-entries (some (object entries)) = refl

  matched-has_op :
      (ops : List ((Bytes × Bytes) × CompiledOp Validator)) (req : List Bytes)
      (method template : Bytes) (params : List (Bytes × Bytes)) (res : Resolution)
      → paths_ops (object_entries (get (codes "paths") doc)) ≡ ok ops
      → IsResolved (declared_routes doc) req method res
      → res ≡ matched template params
      → has_op ops template (to_ascii_lowercase method) ≡ true
  unfolding declared_routes
  matched-has_op ops req method template params unknown_route c r e = absurd (cc e)
  matched-has_op ops req method template params method_not_allowed c r e = absurd (cc e)
  matched-has_op ops req method template params (matched template' params') c (r, best, has, t) e =
      let same : template' ≡ template = cc in
      subst (λ x. has_op ops x (to_ascii_lowercase method) ≡ true) (t ∙ same)
        (compile_paths-has_op (object_entries (get (codes "paths") doc)) r
          (to_ascii_lowercase method) ops
          (subst (Memᴰ r) (path_routes-entries (get (codes "paths") doc)) best.declared) has c)

  -- Where a document compiles, each path and method that its router matches to a template has a compiled
  -- contract under that template and method, so that `validate` never passes a request for want of one.
  pub compile-resolve :
      (strict_params : Bool) (spec : CompiledSpec Validator) (path method template : Bytes)
      (params : List (Bytes × Bytes))
      → compile pointer validator_for to_uppercase doc is_3_0 strict_params strict_body ≡ ok spec
      → resolve spec.router path method ≡ matched template params
      → (op : CompiledOp Validator) × (find_op spec.ops template (to_ascii_lowercase method)
          ≡ some op)
  unfolding compile
  compile-resolve strict_params spec path method template params c e =
      let (ops, made, p) = >>=-ok (paths_ops (object_entries (get (codes "paths") doc))) _ c in
      let built : record { router = build doc; strict_params = strict_params; ops = ops } ≡ spec =
        cc in
      find_op-has_op spec.ops template (to_ascii_lowercase method) (
        subst (λ l. has_op l template (to_ascii_lowercase method) ≡ true)
          (ap (λ (s : CompiledSpec Validator). s.ops) built)
          (matched-has_op ops (split_segments path) method template params
            (resolve (build doc) path method) p (resolve-build doc path method)
            (ap (λ (s : CompiledSpec Validator). resolve s.router path method) built ∙ e)))
