-- ===== src/Detection/Smuggling/Framing.antt =====
-- Exactly an unambiguous framing is let through.
use light_waf.Prelude.{
  true, none, List, [], ◌∷◌, Bytes, codes, ◌≡◌, ◌↔◌, ◌⊎◌, inl, inr, refl, arith,
  eq_ignore_ascii_case, Bool-cases,
}
use light_waf.Core.Decision.{Decision, allow, reject}
use light_waf.Core.Request.{RequestContext}
use light_waf.Detection.Smuggling.{
  RequestSmugglingModule, reject_as, is_valid_content_length, values_of, check_te, check_cl,
  check_framing, inspect,
}

-- no length and no coding, or one well-formed length, or one coding, `chunked`
pub data IsUnambiguous : List Bytes → List Bytes → Type 0 where
  no_body : IsUnambiguous [] []
  sized : (v : Bytes) → is_valid_content_length v ≡ true → IsUnambiguous (v ∷ []) []
  chunked :
      (v : Bytes) → eq_ignore_ascii_case v (codes "chunked") ≡ true → IsUnambiguous [] (v ∷ [])

abbrev pub RejectsWith400 : Decision → Type 0
RejectsWith400 d = (reason : Bytes) × (d ≡ reject (codes "request-smuggling") reason 400 none)

unambiguous : (cl te : List Bytes) → check_framing cl te ≡ allow → IsUnambiguous cl te
unfolding check_framing check_cl check_te reject_as
unambiguous [] [] h = no_body
unambiguous [] (v ∷ []) h = chunked v (ground arith)
unambiguous [] (v ∷ w ∷ te) h = absurd (cc h)
unambiguous (v ∷ []) [] h = sized v (ground arith)
unambiguous (v ∷ w ∷ cl) [] h = absurd (cc h)
unambiguous (v ∷ cl) (w ∷ te) h = absurd (cc h)

allowed : (cl te : List Bytes) → IsUnambiguous cl te → check_framing cl te ≡ allow
unfolding check_framing check_cl check_te
allowed cl te no_body = refl
allowed cl te (sized v h) = rw h refl
allowed cl te (chunked v h) = rw h refl

rejected :
    (cl te : List Bytes) → (check_framing cl te ≡ allow) ⊎ RejectsWith400 (check_framing cl te)
unfolding check_framing check_cl check_te reject_as
rejected [] [] = inl refl
rejected [] (v ∷ []) = elim (Bool-cases (eq_ignore_ascii_case v (codes "chunked"))) [
  | inl h ↦ rw h (inl refl)
  | inr h ↦ rw h (inr (_, refl))
]
rejected [] (v ∷ w ∷ te) = inr (_, refl)
rejected (v ∷ []) [] = elim (Bool-cases (is_valid_content_length v)) [
  | inl h ↦ rw h (inl refl)
  | inr h ↦ rw h (inr (_, refl))
]
rejected (v ∷ w ∷ cl) [] = inr (_, refl)
rejected (v ∷ cl) (w ∷ te) = inr (_, refl)

-- With the module enabled, a request is allowed exactly when its headers have neither a length nor a
-- transfer coding, one length that is digits alone, or one coding that is `chunked` in any case; every
-- other request is rejected with status 400.
pub inspect-IsUnambiguous :
    (m : RequestSmugglingModule) (ctx : RequestContext)
    → m.enabled ≡ true
    → ((inspect m ctx ≡ allow)
        ↔ IsUnambiguous
            (values_of (codes "content-length") ctx.headers)
            (values_of (codes "transfer-encoding") ctx.headers))
      × ((inspect m ctx ≡ allow) ⊎ RejectsWith400 (inspect m ctx))
unfolding inspect
inspect-IsUnambiguous m ctx on =
    let cl = values_of (codes "content-length") ctx.headers in
    let te = values_of (codes "transfer-encoding") ctx.headers in
    rw on ((unambiguous cl te, allowed cl te), rejected cl te)
