-- ===== src/Schema/Outcome.antt =====
-- What a compilation returns, with the text of its error.
use light_waf.Prelude.{Bytes, ◌≡◌, refl}

pub data Result (A : Type 0) : Type 0 where
  ok : A → Result A
  err : Bytes → Result A

-- `map_err`
abbrev pub map_err : {A : Type 0} → (Bytes → Bytes) → Result A → Result A
map_err f (ok a) = ok a
map_err f (err e) = err (f e)

infixl 5 ◌>>=◌
abbrev pub ◌>>=◌ : {A B : Type 0} → Result A → (A → Result B) → Result B
ok a >>= f = f a
err e >>= f = err e

-- the parts of a chain that succeeds
pub >>=-ok :
    {A B : Type 0} (m : Result A) (f : A → Result B) {b : B}
    → (m >>= f) ≡ ok b
    → (a : A) × (f a ≡ ok b) × (m ≡ ok a)
>>=-ok (err e) f h = absurd (cc h)
>>=-ok (ok a) f h = (a, h, refl)
