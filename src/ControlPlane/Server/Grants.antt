-- ===== src/ControlPlane/Server/Grants.antt =====
-- What holds of the tables when a handler answers with a status that is no failure.
use light_waf.Prelude.{
  ℕ, ◌≡◌, refl, ◌==◌, Bool, true, false, Option, none, some, List, [], ◌∷◌, arith,
}
use light_waf.Governance.Store.{
  Database, Outage, answered, lost_before, lost_after, db, Result, ok, err, query,
}
use light_waf.ControlPlane.Server.{
  AppState, Response, M, ◌>>=◌, pure, on_pool, or_500, or_else, if_so,
}
use light_waf.ControlPlane.Server.Keeps.{Keeps}

-- from tables with `P`, an answer with the status leaves tables with `Q`
pub record Grants (status : ℕ) (P Q : Database → Type 0) (m : M Response) : Type 0 where
  pub at : (s : AppState) → P s.pool.database → (m s).0.status ≡ status → Q (m s).1.pool.database

module _ {status : ℕ} {P Q : Database → Type 0} where
  pub Grants-refused : (r : Response) → (r.status == status) ≡ false → Grants status P Q (pure r)
  unfolding pure
  Grants-refused r h = record { at = λ s p e. absurd (ground arith) }

  pub Grants-Keeps :
      (m : M Response) → ((d : Database) → P d → Q d) → Keeps Q m → Grants status P Q m
  Grants-Keeps m pq k = record { at = λ s p e. k.at s (pq s.pool.database p) }

  pub Grants-or_500 {ℓ} :
      {A : Type ℓ} (no_failure : (500 == status) ≡ false) (r : Result A) (f : A → M Response)
      → ((a : A) → Grants status P Q (f a))
      → Grants status P Q (or_500 r f)
  unfolding or_500
  Grants-or_500 no_failure (ok a) f g = g a
  Grants-or_500 no_failure (err e) f g = Grants-refused _ no_failure

  -- the tests of a handler, with what each branch knows of the value that was tested
  pub Grants-if_so :
      (b : Bool) (m n : M Response)
      → (b ≡ true → Grants status P Q m)
      → (b ≡ false → Grants status P Q n)
      → Grants status P Q (if_so b m n)
  unfolding if_so
  Grants-if_so true m n gm gn = gm refl
  Grants-if_so false m n gm gn = gn refl

  pub Grants-or_else {ℓ} :
      {A : Type ℓ} (o : Option A) (m : M Response) (f : A → M Response)
      → Grants status P Q m
      → ((a : A) → o ≡ some a → Grants status P Q (f a))
      → Grants status P Q (or_else o m f)
  unfolding or_else
  Grants-or_else none m f gm gf = gm
  Grants-or_else (some a) m f gm gf = gf a refl

  pub Grants-ok {ℓ} :
      {A : Type ℓ} (no_failure : (500 == status) ≡ false) (r : Result A) (f : A → M Response)
      → ((a : A) → r ≡ ok a → Grants status P Q (f a))
      → Grants status P Q (or_500 r f)
  unfolding or_500
  Grants-ok no_failure (ok a) f g = g a refl
  Grants-ok no_failure (err e) f g = Grants-refused _ no_failure

  -- a fact that does not depend on the tables
  pub Grants-given :
      {A : Type 0} {m : M Response} → (A → Grants status P Q m) → Grants status (λ d. P d × A) Q m
  Grants-given g = record { at = λ s pa e. (g pa.1).at s pa.0 e }

  pub Grants-bind {ℓ} :
      {A : Type ℓ} (m : M A) (f : A → M Response)
      → Keeps P m
      → ((a : A) → Grants status P Q (f a))
      → Grants status P Q (m >>= f)
  unfolding ◌>>=◌
  Grants-bind m f k g = record { at = λ s p e. (g (m s).0).at (m s).1 (k.at s p) e }

  -- a query whose result is needed: its answer may say more of the tables
  module _ {ℓ} {A : Type ℓ} (no_failure : (500 == status) ≡ false) (R : A → Database → Type 0)
      (f : Database → Result A × Database) (g : A → M Response)
      (says : (d : Database) (a : A) → P d → (f d).0 ≡ ok a → R a (f d).1)
      (grants : (a : A) → Grants status (R a) Q (g a)) where
    answer_case :
        (s : AppState) (r : Result A) (d : Database)
        → ((a : A) → r ≡ ok a → R a d)
        → s.pool.database ≡ d
        → (or_500 r g s).0.status ≡ status
        → Q (or_500 r g s).1.pool.database
    unfolding or_500 pure
    answer_case s (ok a) d says_a e h = (grants a).at s (rw e (says_a a refl)) h
    answer_case s (err x) d says_a e h = absurd (ground arith)

    lost_case :
        (s : AppState)
        → (or_500 (err db) g s).0.status ≡ status
        → Q (or_500 (err db) g s).1.pool.database
    unfolding or_500 pure
    lost_case s h = absurd (ground arith)

    query_case :
        (s : AppState) (d : Database) (outages : List Outage)
        → P d
        → (or_500
            (query f (record { database = d; outages = outages })).0
            g
            (record s { pool = (query f (record { database = d; outages = outages })).1 })).0.status
          ≡ status
        → Q
            (or_500 (query f (record { database = d; outages = outages })).0 g (record s {
              pool = (query f (record { database = d; outages = outages })).1;
            })).1.pool.database
    unfolding query
    query_case s d [] p h = answer_case _ (f d).0 (f d).1 (λ a e. says d a p e) refl h
    query_case s d (answered ∷ rest) p h =
        answer_case _ (f d).0 (f d).1 (λ a e. says d a p e) refl h
    query_case s d (lost_before ∷ rest) p h = lost_case _ h
    query_case s d (lost_after ∷ rest) p h = lost_case _ h

    pub Grants-query : Grants status P Q (on_pool f >>= λ r. or_500 r g)
    unfolding on_pool ◌>>=◌
    Grants-query = record { at = λ s p h. query_case s s.pool.database s.pool.outages p h }
