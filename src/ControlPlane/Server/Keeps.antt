-- ===== src/ControlPlane/Server/Keeps.antt =====
-- What the steps of a handler keep of the tables, one rule for each way to build a step.
use light_waf.Prelude.{◌≡◌, subst, sym, Bool, true, false, Option, none, some, Bytes}
use light_waf.Governance.Throttle.{LoginThrottle}
use light_waf.Governance.Store.{
  Database, Outage, answered, lost_before, lost_after, db, config, password, conflict, Result, ok,
  err, query,
}
use light_waf.ControlPlane.Server.{
  AppState, Response, M, ◌>>=◌, pure, done, on_pool, ask_throttle, on_throttle, or_500, or_conflict,
  or_else, if_so,
}
use light_waf.Prelude.{List, [], ◌∷◌}

-- a query keeps `P`
abbrev pub Stable {ℓ} :
    {A : Type ℓ} → (Database → Type 0) → (Database → Result A × Database) → Type 0
Stable P f = (d : Database) → P d → P (f d).1

-- a query that only reads
abbrev pub Reads {ℓ} : {A : Type ℓ} → (Database → Result A × Database) → Type 0
Reads f = (d : Database) → (f d).1 ≡ d

-- `m` keeps `P`, whatever it answers and whatever becomes of its queries
pub record Keeps {ℓ} {A : Type ℓ} (P : Database → Type 0) (m : M A) : Type ℓ where
  pub at : (s : AppState) → P s.pool.database → P (m s).1.pool.database

module _ {ℓ} {A : Type ℓ} (P : Database → Type 0) where
  Stable-Reads : (f : Database → Result A × Database) → Reads f → Stable P f
  Stable-Reads f reads d h = subst P (sym (reads d)) h

  query_keeps :
      (f : Database → Result A × Database)
      → Stable P f
      → (d : Database) (outages : List Outage) → P d
      → P (query f (record { database = d; outages = outages })).1.database
  unfolding query
  query_keeps f stable d [] h = stable d h
  query_keeps f stable d (answered ∷ rest) h = stable d h
  query_keeps f stable d (lost_before ∷ rest) h = h
  query_keeps f stable d (lost_after ∷ rest) h = stable d h

  pub Keeps-on_pool : (f : Database → Result A × Database) → Stable P f → Keeps P (on_pool f)
  unfolding on_pool
  Keeps-on_pool f stable = record {
    at = λ s h. query_keeps f stable s.pool.database s.pool.outages h;
  }

  pub Keeps-read : (f : Database → Result A × Database) → Reads f → Keeps P (on_pool f)
  Keeps-read f reads = Keeps-on_pool f (Stable-Reads f reads)

module _ {ℓ} {A : Type ℓ} {P : Database → Type 0} where
  pub Keeps-pure : (a : A) → Keeps P (pure a)
  unfolding pure
  Keeps-pure a = record { at = λ s h. h }

  pub Keeps-ask_throttle : (f : LoginThrottle → A) → Keeps P (ask_throttle f)
  unfolding ask_throttle
  Keeps-ask_throttle f = record { at = λ s h. h }

  pub Keeps-if_so : (b : Bool) (m n : M A) → Keeps P m → Keeps P n → Keeps P (if_so b m n)
  unfolding if_so
  Keeps-if_so true m n km kn = km
  Keeps-if_so false m n km kn = kn

  pub Keeps-or_500 :
      (r : Result A) (f : A → M Response) → ((a : A) → Keeps P (f a)) → Keeps P (or_500 r f)
  unfolding or_500 pure
  Keeps-or_500 (ok a) f kf = kf a
  Keeps-or_500 (err e) f kf = record { at = λ s h. h }

  pub Keeps-or_conflict :
      (r : Result A) (g : Bytes → M Response) (f : A → M Response)
      → ((msg : Bytes) → Keeps P (g msg))
      → ((a : A) → Keeps P (f a))
      → Keeps P (or_conflict r g f)
  unfolding or_conflict or_500 pure
  Keeps-or_conflict (ok a) g f kg kf = kf a
  Keeps-or_conflict (err (conflict msg)) g f kg kf = kg msg
  Keeps-or_conflict (err db) g f kg kf = record { at = λ s h. h }
  Keeps-or_conflict (err config) g f kg kf = record { at = λ s h. h }
  Keeps-or_conflict (err password) g f kg kf = record { at = λ s h. h }

pub Keeps-done : {P : Database → Type 0} → Keeps P done
Keeps-done = record { at = λ s h. h }

pub Keeps-on_throttle :
    {P : Database → Type 0} (f : LoginThrottle → LoginThrottle) → Keeps P (on_throttle f)
unfolding on_throttle
Keeps-on_throttle f = record { at = λ s h. h }

module _ {ℓ κ} {A : Type ℓ} {B : Type κ} {P : Database → Type 0} where
  pub Keeps-bind :
      (m : M A) (f : A → M B) → Keeps P m → ((a : A) → Keeps P (f a)) → Keeps P (m >>= f)
  unfolding ◌>>=◌
  Keeps-bind m f km kf = record { at = λ s h. (kf (m s).0).at (m s).1 (km.at s h) }

  pub Keeps-or_else :
      (o : Option A) (m : M B) (f : A → M B)
      → Keeps P m
      → ((a : A) → Keeps P (f a))
      → Keeps P (or_else o m f)
  unfolding or_else
  Keeps-or_else none m f km kf = km
  Keeps-or_else (some a) m f km kf = kf a
