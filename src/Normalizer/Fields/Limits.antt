-- ===== src/Normalizer/Fields/Limits.antt =====
-- The limit on cookies is exact, and the cookies are those of the pieces that are not blank, in order.
use light_waf.Prelude.{
  ℕ, ◌≤◌, ◌<◌, true, false, not, List, [], ◌∷◌, ◌++◌, map, append_assoc, append-nil, Bytes, ◌≡◌,
  sym, ap, ◌∙◌, arith, filterb, length, length-append, split, trim, is_empty, leb, if◌then◌else◌,
  Bool-cases, inl, inr,
}
use light_waf.Normalizer.Fields.{
  too_many_cookies, Parsed, ok, err, cookie, cookie_loop, parse_cookies_limited,
}

-- the trimmed pieces that are not blank
abbrev pub written : List Bytes → List Bytes
written pieces = filterb (λ s. not (is_empty s)) (map trim pieces)

-- what the parser promises on a list of pairs: all of them, or an error when they are too many
abbrev pub limited : ℕ → List (Bytes × Bytes) → Parsed (List (Bytes × Bytes))
limited max_cookies cookies =
    if leb (length cookies) max_cookies then ok cookies else err (too_many_cookies max_cookies)

limited-ok :
    (max_cookies : ℕ) (cookies : List (Bytes × Bytes))
    → length cookies ≤ max_cookies
    → limited max_cookies cookies ≡ ok cookies
limited-ok max_cookies cookies h = ground arith

limited-err :
    (max_cookies : ℕ) (cookies : List (Bytes × Bytes))
    → max_cookies < length cookies
    → limited max_cookies cookies ≡ err (too_many_cookies max_cookies)
limited-err max_cookies cookies h = ground arith

past :
    (max_cookies : ℕ) (cookies : List (Bytes × Bytes)) (c : Bytes × Bytes)
    (cs : List (Bytes × Bytes))
    → leb max_cookies (length cookies) ≡ true
    → max_cookies < length (cookies ++ (c ∷ cs))
past max_cookies cookies c cs h = ground (arith, length-append cookies (c ∷ cs))

below :
    (max_cookies : ℕ) (cookies : List (Bytes × Bytes)) (c : Bytes × Bytes)
    → leb max_cookies (length cookies) ≡ false
    → length (cookies ++ (c ∷ [])) ≤ max_cookies
below max_cookies cookies c h = ground (arith, length-append cookies (c ∷ []))

cookie_loop-limited :
    (max_cookies : ℕ) (pieces : List Bytes) (cookies : List (Bytes × Bytes))
    → length cookies ≤ max_cookies
    → cookie_loop max_cookies pieces cookies
      ≡ limited max_cookies (cookies ++ map cookie (written pieces))
unfolding cookie_loop
cookie_loop-limited max_cookies [] cookies h =
    rw (append-nil cookies) (sym (limited-ok max_cookies cookies h))
cookie_loop-limited max_cookies (piece ∷ pieces) cookies h =
    elim (Bool-cases (is_empty (trim piece))) [
      | inl blank ↦ rw blank (cookie_loop-limited max_cookies pieces cookies h)
      | inr text ↦ rw text (elim (Bool-cases (leb max_cookies (length cookies))) [
        | inl full ↦ rw full (sym (limited-err max_cookies _ (past max_cookies cookies _ _ full)))
        | inr room ↦ rw room (
            cookie_loop-limited max_cookies pieces (cookies ++ (cookie (trim piece) ∷ []))
              (below max_cookies cookies _ room)
            ∙ ap (limited max_cookies)
                (append_assoc cookies (cookie (trim piece) ∷ []) (map cookie (written pieces))))
      ])
    ]

-- The cookies are the pairs of the header's pieces between semicolons that are not blank, in their
-- order, if there are at most `max_cookies` of them, and the error names that limit if there are more.
pub parse_cookies_limited_lem :
    (cookie_header : Bytes) (max_cookies : ℕ)
    → parse_cookies_limited cookie_header max_cookies
      ≡ limited max_cookies (map cookie (written (split b';' cookie_header)))
unfolding parse_cookies_limited
parse_cookies_limited_lem cookie_header max_cookies =
    cookie_loop-limited max_cookies (split b';' cookie_header) [] (omega arith)
