-- ===== src/Schema/Router/Best.antt =====
-- Resolving finds the most specific declared route.
use light_waf.Prelude.{
  Bool, true, false, none, some, List, [], ◌∷◌, ◌≡◌, ◌≢◌, refl, All, Bytes, Option-cases, inl, inr,
  any, ◌=bytes◌, to_ascii_lowercase, subst, sym, if◌then◌else◌,
}
use light_waf.Schema.Value.{Value}
use light_waf.Schema.Router.{
  Route, Resolution, unknown_route, method_not_allowed, matched, route_lt, sort, build,
  declared_routes, match_path, resolve_among, resolve, split_segments,
}
use light_waf.Schema.Router.Order.{
  route_lt_irrefl, IsSorted, LeadsAll, sort-IsSorted, All-of_sort, mem_of_sort,
}
use mathlib.Core.List.{Memᴰ}

abbrev pub Unmatched : List Bytes → Route → Type 0
Unmatched req r = match_path r req ≡ none

-- a route that matches, and that no route which matches goes before
pub record IsBest (routes : List Route) (req : List Bytes) (r : Route)
    (params : List (Bytes × Bytes)) : Type 0 where
  pub declared : Memᴰ r routes
  pub matches : match_path r req ≡ some params
  pub most_specific : All (λ (s : Route). match_path s req ≢ none → route_lt s r ≡ false) routes

abbrev pub declares : Route → Bytes → Bool
declares r method = any (λ x. x =bytes to_ascii_lowercase method) r.methods

abbrev pub IsResolved : List Route → List Bytes → Bytes → Resolution → Type 0
IsResolved routes req method unknown_route = All (Unmatched req) routes
IsResolved routes req method method_not_allowed =
    (r : Route) × (params : List (Bytes × Bytes)) × IsBest routes req r params
    × (declares r method ≡ false)
IsResolved routes req method (matched template params) =
    (r : Route) × IsBest routes req r params × (declares r method ≡ true) × (r.template ≡ template)

IsBest-skip :
    (r b : Route) (routes : List Route) (req : List Bytes) (params : List (Bytes × Bytes))
    → Unmatched req r
    → IsBest routes req b params
    → IsBest (r ∷ routes) req b params
IsBest-skip r b routes req params e best = record {
  declared = Memᴰ.tail best.declared;
  matches = best.matches;
  most_specific = (λ ne. absurd (ne e), best.most_specific);
}

IsResolved-skip :
    (r : Route) (routes : List Route) (req : List Bytes) (method : Bytes) (res : Resolution)
    → Unmatched req r
    → IsResolved routes req method res
    → IsResolved (r ∷ routes) req method res
IsResolved-skip r routes req method unknown_route e h = (e, h)
IsResolved-skip r routes req method method_not_allowed e (b, params, best, no_method) =
    (b, params, IsBest-skip r b routes req params e best, no_method)
IsResolved-skip r routes req method (matched template params) e (b, best, has, t) =
    (b, IsBest-skip r b routes req params e best, has, t)

All-leads :
    (r : Route) (req : List Bytes) (routes : List Route)
    → LeadsAll r routes
    → All (λ (s : Route). match_path s req ≢ none → route_lt s r ≡ false) routes
All-leads r req [] h = tt
All-leads r req (s ∷ routes) h = (λ _. h.0, All-leads r req routes h.1)

IsBest-first :
    (r : Route) (routes : List Route) (req : List Bytes) (params : List (Bytes × Bytes))
    → match_path r req ≡ some params
    → LeadsAll r routes
    → IsBest (r ∷ routes) req r params
IsBest-first r routes req params e h = record {
  declared = Memᴰ.head refl;
  matches = e;
  most_specific = (λ _. route_lt_irrefl r, All-leads r req routes h);
}

resolve_among-none :
    (r : Route) (routes : List Route) (req : List Bytes) (m : Bytes)
    → match_path r req ≡ none
    → resolve_among (r ∷ routes) req m ≡ resolve_among routes req m
unfolding resolve_among
resolve_among-none r routes req m e = rw (e, resolve_among) refl

resolve_among-some :
    (r : Route) (routes : List Route) (req : List Bytes) (m : Bytes) (params : List (Bytes × Bytes))
    → match_path r req ≡ some params
    → resolve_among (r ∷ routes) req m
      ≡ (if any (λ x. x =bytes m) r.methods then matched r.template params else method_not_allowed)
unfolding resolve_among
resolve_among-some r routes req m params e = rw (e, resolve_among) refl

IsResolved-first :
    (r : Route) (routes : List Route) (req : List Bytes) (method : Bytes)
    (params : List (Bytes × Bytes)) (has : Bool)
    → declares r method ≡ has
    → IsBest (r ∷ routes) req r params
    → IsResolved
        (r ∷ routes)
        req
        method
        (if has then matched r.template params else method_not_allowed)
IsResolved-first r routes req method params true e best = (r, best, e, refl)
IsResolved-first r routes req method params false e best = (r, params, best, e)

resolve_among-IsResolved :
    (routes : List Route) (req : List Bytes) (method : Bytes)
    → IsSorted routes
    → IsResolved routes req method (resolve_among routes req (to_ascii_lowercase method))
resolve_among-IsResolved [] req method h = unfold resolve_among in tt
resolve_among-IsResolved (r ∷ routes) req method h = elim (Option-cases (match_path r req)) [
  | inl e ↦
      subst (IsResolved (r ∷ routes) req method)
        (sym (resolve_among-none r routes req (to_ascii_lowercase method) e))
        (IsResolved-skip r routes req method _ e (resolve_among-IsResolved routes req method h.1))
  | inr (params, e) ↦
      subst (IsResolved (r ∷ routes) req method)
        (sym (resolve_among-some r routes req (to_ascii_lowercase method) params e))
        (IsResolved-first r routes req method params (declares r method) refl
          (IsBest-first r routes req params e h.0))
]

IsBest-of_sort :
    (r : Route) (routes : List Route) (req : List Bytes) (params : List (Bytes × Bytes))
    → IsBest (sort routes) req r params
    → IsBest routes req r params
IsBest-of_sort r routes req params best = record {
  declared = mem_of_sort routes best.declared;
  matches = best.matches;
  most_specific = All-of_sort _ routes best.most_specific;
}

IsResolved-of_sort :
    (routes : List Route) (req : List Bytes) (method : Bytes) (res : Resolution)
    → IsResolved (sort routes) req method res
    → IsResolved routes req method res
IsResolved-of_sort routes req method unknown_route h = All-of_sort (Unmatched req) routes h
IsResolved-of_sort routes req method method_not_allowed (b, params, best, no_method) =
    (b, params, IsBest-of_sort b routes req params best, no_method)
IsResolved-of_sort routes req method (matched template params) (b, best, has, t) =
    (b, IsBest-of_sort b routes req params best, has, t)

-- For any document, path and method, the router that `build` makes of the document resolves them as
-- follows. To an unknown route just where no declared route matches the path's segments. To a matched
-- template, with its parameters, just where that template's route is declared, matches with these
-- parameters, declares the method in lower case, and no declared route that matches is more specific (or as
-- specific with a smaller template). To a method that is not allowed just where such a most specific
-- route does not declare the method, even if a less specific one does.
pub resolve-build :
    (doc : Value) (path method : Bytes)
    → IsResolved
        (declared_routes doc)
        (split_segments path)
        method
        (resolve (build doc) path method)
unfolding resolve build
resolve-build doc path method =
    IsResolved-of_sort (declared_routes doc) (split_segments path) method
      (resolve_among (sort (declared_routes doc)) (split_segments path) (to_ascii_lowercase method))
      (resolve_among-IsResolved (sort (declared_routes doc)) (split_segments path) method
        (sort-IsSorted (declared_routes doc)))
