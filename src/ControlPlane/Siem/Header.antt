-- ===== src/ControlPlane/Siem/Header.antt =====
-- A reader of the Common Event Format finds the header's fields again.
use light_waf.Prelude.{
  ◌≡◌, refl, ◌∙◌, ap, ℕ, zero, suc, ◌==◌, Bool, true, false, not, ◌&&◌, inl, inr, Option, none,
  some, List, [], ◌∷◌, ◌++◌, append_assoc, map, ==_iff, Bytes, codes, All, all, &&-eq-true, decimal,
  decimal-All, Bool-cases, ◌=bytes◌, if◌then◌else◌, arith,
}
use light_waf.ControlPlane.Siem.{ℤ, SiemEvent, WafAlert, WafAudit}
use light_waf.ControlPlane.Siem.Cef.{
  is_control, header_char, cef_header, cef_clip, cef_max_signature, cef_severity, cef_signature,
  decision_name, cef_name, cef_extension, cef_line,
}
use light_waf.ControlPlane.Siem.Lines.{if-case}

abbrev push : ℕ → Bytes × Bytes → Bytes × Bytes
push c (field, rest) = (c ∷ field, rest)

-- the field up to the next bar that no backslash stands before, and what is behind the bar
read : Bool → Bytes → Bytes × Bytes
read escaped [] = ([], [])
read true (c ∷ s) = push c (read false s)
read false (c ∷ s) =
    let literal = read true s in
    let plain = push c (read false s) in
    if c == b'|' then ([], s) else if c == b'\\' then literal else plain

-- that many fields, and the rest
unfoldable pub read_header : ℕ → Bytes → List Bytes × Bytes
unfolding read
read_header zero s = ([], s)
read_header (suc n) s =
    let (field, rest) = read false s in
    let (fields, behind) = read_header n rest in (field ∷ fields, behind)

-- the text with each control character as a space
unfoldable pub blanked : Bytes → Bytes
blanked = map λ c. if is_control c then b' ' else c

read-header_char :
    (c : ℕ) (value tail rest : Bytes)
    → read false tail ≡ (blanked value, rest)
    → read false (header_char c ++ tail) ≡ (blanked (c ∷ value), rest)
unfolding read blanked
read-header_char c value tail rest ih = elim (Bool-cases (c == b'\\')) [
  | inl slash ↦ rw ((==_iff c b'\\').0 slash) (ap (push b'\\') ih)
  | inr unslashed ↦ elim (Bool-cases (c == b'|')) [
    | inl bar ↦ rw ((==_iff c b'|').0 bar) (ap (push b'|') ih)
    | inr unbarred ↦ elim (Bool-cases (is_control c)) [
      | inl control ↦ rw unslashed (rw unbarred (rw control (ap (push b' ') ih)))
      | inr printable ↦
          rw unslashed (rw unbarred (rw printable (rw unbarred (rw unslashed (ap (push c) ih)))))
    ]
  ]
]

read-cef_header :
    (value rest : Bytes) → read false (cef_header value ++ (b'|' ∷ rest)) ≡ (blanked value, rest)
unfolding read cef_header blanked
read-cef_header [] rest = refl
read-cef_header (c ∷ value) rest =
    ap (read false) (append_assoc (header_char c) (cef_header value) (b'|' ∷ rest))
    ∙ read-header_char c value (cef_header value ++ (b'|' ∷ rest)) rest (read-cef_header value rest)

-- a text that the reader takes as it stands
abbrev IsPlain : Bytes → Type 0
IsPlain = All (λ c. (c == b'|' ≡ false) × (c == b'\\' ≡ false))

read-IsPlain : (a rest : Bytes) → IsPlain a → read false (a ++ (b'|' ∷ rest)) ≡ (a, rest)
unfolding read
read-IsPlain [] rest h = refl
read-IsPlain (c ∷ a) rest h = rw h.0.0 (rw h.0.1 (ap (push c) (read-IsPlain a rest h.1)))

read_header-none : (s : Bytes) → read_header 0 s ≡ ([], s)
unfolding read_header
read_header-none s = refl

read_header-field :
    (n : ℕ) (field s rest : Bytes)
    → read false s ≡ (field, rest)
    → read_header (suc n) s ≡ (field ∷ (read_header n rest).0, (read_header n rest).1)
unfolding read_header
read_header-field n field s rest e = rw e refl

-- a literal is plain, which a test of its characters shows
literal : (b : Bytes) → all (λ c. not (c == b'|') && not (c == b'\\')) b ≡ true → IsPlain b
literal [] h = tt
literal (c ∷ b) h =
    let both = &&-eq-true (not (c == b'|') && not (c == b'\\')) _ h in
    ((ground arith, ground arith), literal b both.1)

decimal-IsPlain : (n : ℕ) → IsPlain (decimal n)
decimal-IsPlain n = decimal-All _ n (λ d h. (ground arith, ground arith))

decision_name-IsPlain : (action : Bytes) → IsPlain (decision_name action)
unfolding decision_name
decision_name-IsPlain action =
    if-case IsPlain (action =bytes codes "blocked") _ _
      (λ _. literal (codes "Request blocked") refl)
      λ _.
        if-case IsPlain (action =bytes codes "rejected") _ _
          (λ _. literal (codes "Request rejected") refl)
          (λ _. literal (codes "Request denied") refl)

name_case :
    (alert : Option WafAlert) (audit : Option WafAudit) (action : Bytes)
    → IsPlain (elim alert [
      | some _ ↦ codes "Alert fired"
      | none ↦ elim audit [ some _ ↦ codes "Audit event" | none ↦ decision_name action ]
    ])
name_case (some alert) audit action = literal (codes "Alert fired") refl
name_case none (some audit) action = literal (codes "Audit event") refl
name_case none none action = decision_name-IsPlain action

cef_name-IsPlain : (ev : SiemEvent) → IsPlain (cef_name ev)
unfolding cef_name
cef_name-IsPlain ev = name_case ev.waf.alert ev.waf.audit ev.event.action

field-read :
    (n : ℕ) (s field rest : Bytes) (fields : List Bytes) (behind : Bytes)
    → read false s ≡ (field, rest)
    → read_header n rest ≡ (fields, behind)
    → read_header (suc n) s ≡ (field ∷ fields, behind)
field-read n s field rest fields behind e more =
    read_header-field n field s rest e ∙ ap (λ (p : List Bytes × Bytes). (field ∷ p.0, p.1)) more

module _ (parse_rfc3339 : Bytes → Option ℤ) where
  -- Whatever an event holds, a reader of its line finds seven fields before the extension: the version
  -- of the format, the observer's three, the signature as clipped, the name and the severity, each
  -- control character as a space; and what is left is the extension.
  pub read_header-cef_line :
      (ev : SiemEvent)
      → read_header 7 (cef_line parse_rfc3339 ev) ≡ (
        codes "CEF:0"
            ∷ blanked ev.observer.vendor
            ∷ blanked ev.observer.product
            ∷ blanked ev.observer.version
            ∷ blanked (cef_clip (cef_signature ev) cef_max_signature)
            ∷ cef_name ev
            ∷ decimal (cef_severity ev)
            ∷ [],
        cef_extension parse_rfc3339 ev,
      )
  unfolding cef_line
  read_header-cef_line ev =
      field-read 6 _ _ _ _ _ (read-IsPlain (codes "CEF:0") _ (literal (codes "CEF:0") refl)) (
        field-read 5 _ _ _ _ _ (read-cef_header ev.observer.vendor _) (
          field-read 4 _ _ _ _ _ (read-cef_header ev.observer.product _) (
            field-read 3 _ _ _ _ _ (read-cef_header ev.observer.version _) (
              field-read 2 _ _ _ _ _
                (read-cef_header (cef_clip (cef_signature ev) cef_max_signature) _)
                (field-read 1 _ _ _ _ _ (read-IsPlain (cef_name ev) _ (cef_name-IsPlain ev)) (
                  field-read 0 _ _ _ _ _
                    (read-IsPlain (decimal (cef_severity ev)) _ (decimal-IsPlain (cef_severity ev)))
                    (read_header-none (cef_extension parse_rfc3339 ev))))))))
