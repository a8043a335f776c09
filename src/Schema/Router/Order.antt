-- ===== src/Schema/Router/Order.antt =====
-- The order of the routes, and what sorting by it gives.
use light_waf.Prelude.{
  ℕ, Bool, true, false, List, [], ◌∷◌, ◌≡◌, refl, arith, All, Bool-cases, inl, inr, if◌then◌else◌,
}
use mathlib.Core.List.Memᴰ
use mathlib.Core.List.{Memᴰ}
use light_waf.Schema.Router.{Route, is_less_then, specificity, route_lt, insert, sort}

is_less_then_asym :
    (a b : List ℕ) (r s : Bool)
    → is_less_then a b r ≡ true
    → (r ≡ true → s ≡ false)
    → is_less_then b a s ≡ false
unfolding is_less_then
is_less_then_asym [] [] r s h k = k h
is_less_then_asym [] (y ∷ b) r s h k = refl
is_less_then_asym (x ∷ a) [] r s h k = absurd (ground arith)
is_less_then_asym (x ∷ a) (y ∷ b) r s h k = ground (arith, is_less_then_asym a b r s)

-- what is not less stays so along a chain
is_less_then_chain :
    (z y x : List ℕ) (r s t : Bool)
    → is_less_then z y r ≡ false
    → is_less_then y x s ≡ false
    → (r ≡ false → s ≡ false → t ≡ false)
    → is_less_then z x t ≡ false
unfolding is_less_then
is_less_then_chain [] [] [] r s t h h' k = k h h'
is_less_then_chain [] [] (x ∷ xs) r s t h h' k = absurd (ground arith)
is_less_then_chain [] (y ∷ ys) xs r s t h h' k = absurd (ground arith)
is_less_then_chain (z ∷ zs) [] [] r s t h h' k = refl
is_less_then_chain (z ∷ zs) [] (x ∷ xs) r s t h h' k = absurd (ground arith)
is_less_then_chain (z ∷ zs) (y ∷ ys) [] r s t h h' k = refl
is_less_then_chain (z ∷ zs) (y ∷ ys) (x ∷ xs) r s t h h' k =
    ground (arith, is_less_then_chain zs ys xs r s t)

route_lt_asym : (a b : Route) → route_lt a b ≡ true → route_lt b a ≡ false
unfolding route_lt
route_lt_asym a b h =
    is_less_then_asym (specificity a.segments) (specificity b.segments)
      (is_less_then a.template b.template false) (is_less_then b.template a.template false) h
      (λ e. is_less_then_asym a.template b.template false false e (λ _. refl))

pub route_lt_chain :
    (c b a : Route) → route_lt c b ≡ false → route_lt b a ≡ false → route_lt c a ≡ false
unfolding route_lt
route_lt_chain c b a h h' =
    is_less_then_chain (specificity c.segments) (specificity b.segments) (specificity a.segments)
      (is_less_then c.template b.template false) (is_less_then b.template a.template false)
      (is_less_then c.template a.template false) h h'
      (λ e e'.
        is_less_then_chain c.template b.template a.template false false false e e' (λ _ _. refl))

pub route_lt_irrefl : (a : Route) → route_lt a a ≡ false
route_lt_irrefl a = elim (Bool-cases (route_lt a a)) [
  | inl before ↦ route_lt_asym a a before
  | inr e ↦ e
]

-- none of these routes goes before `r`
abbrev pub LeadsAll : Route → List Route → Type 0
LeadsAll r = All (λ (s : Route). route_lt s r ≡ false)

abbrev pub IsSorted : List Route → Type 0
IsSorted [] = Unit
IsSorted (r ∷ routes) = LeadsAll r routes × IsSorted routes

LeadsAll-trans :
    (r s : Route) (routes : List Route)
    → route_lt s r ≡ false
    → LeadsAll s routes
    → LeadsAll r routes
LeadsAll-trans r s [] h a = tt
LeadsAll-trans r s (t ∷ routes) h a = (route_lt_chain t s r a.0 h, LeadsAll-trans r s routes h a.1)

LeadsAll-insert :
    (q r : Route) (routes : List Route)
    → route_lt r q ≡ false
    → LeadsAll q routes
    → LeadsAll q (insert r routes)
unfolding insert
LeadsAll-insert q r [] h a = (h, tt)
LeadsAll-insert q r (s ∷ routes) h a = elim (Bool-cases (route_lt s r)) [
  | inl before ↦ rw before (a.0, LeadsAll-insert q r routes h a.1)
  | inr not_before ↦ rw not_before (h, a)
]

insert-IsSorted : (r : Route) (routes : List Route) → IsSorted routes → IsSorted (insert r routes)
unfolding insert
insert-IsSorted r [] h = (tt, tt)
insert-IsSorted r (s ∷ routes) h = elim (Bool-cases (route_lt s r)) [
  | inl before ↦
      rw before
        (LeadsAll-insert s r routes (route_lt_asym s r before) h.0, insert-IsSorted r routes h.1)
  | inr not_before ↦ rw not_before ((not_before, LeadsAll-trans r s routes not_before h.0), h)
]

pub sort-IsSorted : (routes : List Route) → IsSorted (sort routes)
unfolding sort
sort-IsSorted [] = tt
sort-IsSorted (r ∷ routes) = insert-IsSorted r (sort routes) (sort-IsSorted routes)

All-of_branch {κ} :
    (P : Route → Type κ) (b : Bool) (r s : Route) (later routes : List Route)
    → (All P later → P r × All P routes)
    → All P (if b then s ∷ later else r ∷ s ∷ routes)
    → P r × All P (s ∷ routes)
All-of_branch P true r s later routes k h = let (p, rest) = k h.1 in (p, (h.0, rest))
All-of_branch P false r s later routes k h = h

All-of_insert {κ} :
    (P : Route → Type κ) (r : Route) (routes : List Route)
    → All P (insert r routes)
    → P r × All P routes
unfolding insert
All-of_insert P r [] h = h
All-of_insert P r (s ∷ routes) h =
    All-of_branch P (route_lt s r) r s (insert r routes) routes (All-of_insert P r routes) h

pub All-of_sort {κ} :
    (P : Route → Type κ) (routes : List Route) → All P (sort routes) → All P routes
unfolding sort
All-of_sort P [] h = tt
All-of_sort P (r ∷ routes) h =
    let (p, rest) = All-of_insert P r (sort routes) h in (p, All-of_sort P routes rest)

swap_heads :
    {x : Route} (r s : Route) (routes : List Route) → Memᴰ x (r ∷ routes) → Memᴰ x (r ∷ s ∷ routes)
swap_heads r s routes (Memᴰ.head e) = Memᴰ.head e
swap_heads r s routes (Memᴰ.tail there) = Memᴰ.tail (Memᴰ.tail there)

mem_of_branch :
    {x : Route} (b : Bool) (r s : Route) (later routes : List Route)
    → (Memᴰ x later → Memᴰ x (r ∷ routes))
    → Memᴰ x (if b then s ∷ later else r ∷ s ∷ routes)
    → Memᴰ x (r ∷ s ∷ routes)
mem_of_branch true r s later routes k (Memᴰ.head e) = Memᴰ.tail (Memᴰ.head e)
mem_of_branch true r s later routes k (Memᴰ.tail there) = swap_heads r s routes (k there)
mem_of_branch false r s later routes k m = m

mem_of_insert :
    {x : Route} (r : Route) (routes : List Route) → Memᴰ x (insert r routes) → Memᴰ x (r ∷ routes)
unfolding insert
mem_of_insert r [] m = m
mem_of_insert r (s ∷ routes) m =
    mem_of_branch (route_lt s r) r s (insert r routes) routes (mem_of_insert r routes) m

pub mem_of_sort : {x : Route} (routes : List Route) → Memᴰ x (sort routes) → Memᴰ x routes
unfolding sort
mem_of_sort [] m = m
mem_of_sort (r ∷ routes) m = elim (Memᴰ.cases_cons (mem_of_insert r (sort routes) m)) [
  | inl e ↦ Memᴰ.head e
  | inr there ↦ Memᴰ.tail (mem_of_sort routes there)
]
