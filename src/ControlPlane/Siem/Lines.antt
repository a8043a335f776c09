-- ===== src/ControlPlane/Siem/Lines.antt =====
-- A batch in the Common Event Format has one line for each event.
use light_waf.Prelude.{
  ◌≡◌, refl, ◌∙◌, ap₂, ℕ, ◌==◌, Bool, true, false, not, Option, none, some, List, [], ◌∷◌, ◌++◌,
  map, Bytes, codes, All, all, &&-eq-true, split, split-append, decimal, decimal-All, ◌=bytes◌,
  if◌then◌else◌, arith,
}
use light_waf.ControlPlane.Siem.{ℤ, Contribution, SiemEvent, WafAlert, WafAudit}
use light_waf.ControlPlane.Siem.Cef.{
  is_control, header_char, cef_header, value_char, cef_value, cef_clip, cef_severity, cef_signature,
  decision_name, cef_name, join, Put, put, when, alert_puts, group_puts, audit_puts, score_puts,
  contribution_puts, puts, cef_extension, cef_line, format_batch,
}

-- no line break
abbrev pub Unbroken : Bytes → Type 0
Unbroken = All (λ c. (c == b'\n') ≡ false)

Unbroken-append : (a b : Bytes) → Unbroken a → Unbroken b → Unbroken (a ++ b)
Unbroken-append [] b ha hb = hb
Unbroken-append (c ∷ a) b ha hb = (ha.0, Unbroken-append a b ha.1 hb)

split-Unbroken : (a : Bytes) → Unbroken a → split b'\n' a ≡ a ∷ []
unfolding split
split-Unbroken [] h = refl
split-Unbroken (c ∷ a) h = rw h.0 (rw (split-Unbroken a h.1) refl)

pub if-case {ℓ} :
    {A : Type ℓ} (P : A → Type 0) (b : Bool) (x y : A)
    → (b ≡ true → P x)
    → (b ≡ false → P y)
    → P (if b then x else y)
if-case P true x y px py = px refl
if-case P false x y px py = py refl

plain-Unbroken : (c : ℕ) → Unbroken (if is_control c then b' ' ∷ [] else c ∷ [])
plain-Unbroken c = if-case Unbroken (is_control c) _ _ (λ _. (refl, tt)) (λ e. (printable e, tt))
  where
    printable : is_control c ≡ false → (c == b'\n') ≡ false
    printable e = ground arith

cef_header-Unbroken : (value : Bytes) → Unbroken (cef_header value)
unfolding cef_header
cef_header-Unbroken [] = tt
cef_header-Unbroken (c ∷ value) =
    Unbroken-append (header_char c) (cef_header value)
      (if-case Unbroken (c == b'\\') _ _ (λ _. (refl, (refl, tt)))
        λ _. if-case Unbroken (c == b'|') _ _ (λ _. (refl, (refl, tt))) λ _. plain-Unbroken c)
      (cef_header-Unbroken value)

cef_value-Unbroken : (value : Bytes) → Unbroken (cef_value value)
unfolding cef_value
cef_value-Unbroken [] = tt
cef_value-Unbroken (c ∷ value) =
    Unbroken-append (value_char c) (cef_value value)
      (if-case Unbroken (c == b'\\') _ _ (λ _. (refl, (refl, tt)))
        λ _.
          if-case Unbroken (c == b'=') _ _ (λ _. (refl, (refl, tt)))
            λ _.
              if-case Unbroken (c == b'\n') _ _ (λ _. (refl, (refl, tt)))
                λ _.
                  if-case Unbroken (c == b'\r') _ _ (λ _. (refl, (refl, tt))) λ _. plain-Unbroken c)
      (cef_value-Unbroken value)

decimal-Unbroken : (n : ℕ) → Unbroken (decimal n)
decimal-Unbroken n = decimal-All (λ c. (c == b'\n') ≡ false) n (λ d h. ground arith)

-- a literal has no line break, which a test of its characters shows
literal : (b : Bytes) → all (λ c. not (c == b'\n')) b ≡ true → Unbroken b
literal [] h = tt
literal (c ∷ b) h = (ground arith, literal b (&&-eq-true (not (c == b'\n')) _ h).1)

-- the keys of an extension have no line break
record Keys (l : List Put) : Type 0 where
  at : All (λ (p : Put). Unbroken p.0) l

Keys-nil : Keys []
Keys-nil = record { at = tt }

Keys-cons :
    (k v : Bytes) (m : ℕ) (l : List Put)
    → all (λ c. not (c == b'\n')) k ≡ true
    → Keys l
    → Keys ((k, v, m) ∷ l)
Keys-cons k v m l test h = record { at = (literal k test, h.at) }

Keys-append : (a b : List Put) → Keys a → Keys b → Keys (a ++ b)
Keys-append [] b ha hb = hb
Keys-append (p ∷ a) b ha hb = record {
  at = (ha.at.0, (Keys-append a b (record { at = ha.at.1 }) hb).at);
}

Keys-when {ℓ} :
    {A : Type ℓ} (o : Option A) (f : A → List Put) → ((a : A) → Keys (f a)) → Keys (when o f)
Keys-when none f h = Keys-nil
Keys-when (some a) f h = h a

ruleset keys = (Keys-nil, Keys-cons, Keys-append, Keys-when)

score-Keys : (total : ℤ) → Keys (score_puts total)
unfolding score_puts
score-Keys total = search (keys) depth 12

contributions-Keys : (cs : List Contribution) → Keys (contribution_puts cs)
unfolding contribution_puts
contributions-Keys [] = Keys-nil
contributions-Keys (c ∷ cs) = search (keys) depth 12

group-Keys : (group : Bytes) → Keys (group_puts group)
unfolding group_puts
group-Keys [] = Keys-nil
group-Keys (c ∷ group) = search (keys) depth 12

alert-Keys : (alert : WafAlert) → Keys (alert_puts alert)
unfolding alert_puts
alert-Keys alert = search (keys, group-Keys) depth 12

audit-Keys : (audit : WafAudit) → Keys (audit_puts audit)
unfolding audit_puts
audit-Keys audit = search (keys) depth 20

join-Unbroken : (l : List Put) → Keys l → Unbroken (join (codes " ") (map put l))
unfolding join put
join-Unbroken [] h = tt
join-Unbroken ((k, v, m) ∷ []) h =
    Unbroken-append k _ h.at.0 (refl, cef_value-Unbroken (cef_clip v m))
join-Unbroken ((k, v, m) ∷ b ∷ rest) h =
    Unbroken-append (k ++ (b'=' ∷ cef_value (cef_clip v m)))
      (b' ' ∷ join (codes " ") (map put (b ∷ rest)))
      (Unbroken-append k _ h.at.0 (refl, cef_value-Unbroken (cef_clip v m)))
      (refl, join-Unbroken (b ∷ rest) (record { at = h.at.1 }))

module _ (parse_rfc3339 : Bytes → Option ℤ) where
  puts-Keys : (ev : SiemEvent) → Keys (puts parse_rfc3339 ev)
  unfolding puts
  puts-Keys ev = search (keys, score-Keys, contributions-Keys, alert-Keys, audit-Keys) depth 40

  cef_extension-Unbroken : (ev : SiemEvent) → Unbroken (cef_extension parse_rfc3339 ev)
  unfolding cef_extension
  cef_extension-Unbroken ev = join-Unbroken (puts parse_rfc3339 ev) (puts-Keys ev)

  decision_name-Unbroken : (action : Bytes) → Unbroken (decision_name action)
  unfolding decision_name
  decision_name-Unbroken action =
      if-case Unbroken (action =bytes codes "blocked") _ _
        (λ _. literal (codes "Request blocked") refl)
        λ _.
          if-case Unbroken (action =bytes codes "rejected") _ _
            (λ _. literal (codes "Request rejected") refl)
            (λ _. literal (codes "Request denied") refl)

  name_case :
      (alert : Option WafAlert) (audit : Option WafAudit) (action : Bytes)
      → Unbroken (elim alert [
        | some _ ↦ codes "Alert fired"
        | none ↦ elim audit [ some _ ↦ codes "Audit event" | none ↦ decision_name action ]
      ])
  name_case (some alert) audit action = literal (codes "Alert fired") refl
  name_case none (some audit) action = literal (codes "Audit event") refl
  name_case none none action = decision_name-Unbroken action

  cef_name-Unbroken : (ev : SiemEvent) → Unbroken (cef_name ev)
  unfolding cef_name
  cef_name-Unbroken ev = name_case ev.waf.alert ev.waf.audit ev.event.action

  -- a field of the header and the bar behind it
  next : (a b : Bytes) → Unbroken a → Unbroken b → Unbroken (a ++ (b'|' ∷ b))
  next a b ha hb = Unbroken-append a (b'|' ∷ b) ha (refl, hb)

  cef_line-Unbroken : (ev : SiemEvent) → Unbroken (cef_line parse_rfc3339 ev)
  unfolding cef_line
  cef_line-Unbroken ev = next (codes "CEF:0") _ (literal (codes "CEF:0") refl) (
      next (cef_header ev.observer.vendor) _ (cef_header-Unbroken ev.observer.vendor) (
        next (cef_header ev.observer.product) _ (cef_header-Unbroken ev.observer.product) (
          next (cef_header ev.observer.version) _ (cef_header-Unbroken ev.observer.version) (
            next (cef_header signature) _ (cef_header-Unbroken signature) (
              next (cef_name ev) _ (cef_name-Unbroken ev) (
                next (decimal (cef_severity ev)) _ (decimal-Unbroken (cef_severity ev))
                  (cef_extension-Unbroken ev)))))))
    where
      signature : Bytes
      signature = cef_clip (cef_signature ev) 1023

  -- Split at its line breaks, a batch gives back the line of each event, in order, and nothing else but
  -- the empty rest behind the last one, whatever the events hold.
  pub split-format_batch :
      (events : List SiemEvent)
      → split b'\n' (format_batch parse_rfc3339 events)
        ≡ map (cef_line parse_rfc3339) events ++ ([] ∷ [])
  unfolding format_batch split
  split-format_batch [] = refl
  split-format_batch (ev ∷ events) =
      split-append b'\n' (cef_line parse_rfc3339 ev) (format_batch parse_rfc3339 events)
      ∙ ap₂ ◌++◌ (split-Unbroken _ (cef_line-Unbroken ev)) (split-format_batch events)
