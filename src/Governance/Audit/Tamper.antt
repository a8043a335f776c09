-- ===== src/Governance/Audit/Tamper.antt =====
-- No log can be rewritten under its last hash, whoever holds the signing key.
use light_waf.Prelude.{
  ℕ, ◌+◌, Bool, false, not, none, List, [], ◌∷◌, Bytes, ◌≡◌, ◌≢◌, ◌⊎◌, inl, inr, refl, sym, ap, ap₂,
  ◌∙◌, arith, All, map, ◌=bytes◌, =bytes_iff, Bool-cases, Option-cases,
}
use light_waf.Governance.Audit.{
  AuditRecord, genesis_prev, sha256_hex, compute_hash, recomputed, record_fault, verify_from,
  verify_chain,
}
use light_waf.Governance.Audit.Encoding.{Content, content, IsStorable, input_of, content-input_of}
use mathlib.Core.List.{reverse, reverse_aux, reverse-reverse}

-- the hash of the last record
abbrev pub tip : Bytes → List AuditRecord → Bytes
tip prev [] = prev
tip prev (r ∷ records) = tip r.hash records

-- two byte strings with one digest
pub record Collision (digest : Bytes → Bytes) : Type 0 where
  pub left : Bytes
  pub right : Bytes
  pub differ : left ≢ right
  pub collide : digest left ≡ digest right

-- a byte string whose digest is all zeros
pub record ZeroPreimage (digest : Bytes → Bytes) : Type 0 where
  pub input : Bytes
  pub zeros : digest input ≡ genesis_prev

ne_of_=bytes : (a b : Bytes) → (a =bytes b) ≡ false → a ≢ b
ne_of_=bytes a b h e = cc ((=bytes_iff a b).1 e)

not-=bytes : (a b : Bytes) → not (a =bytes b) ≡ false → a ≡ b
not-=bytes a b h = (=bytes_iff a b).0 (ground arith)

map-reverse_aux {ℓ κ} :
    {A : Type ℓ} {B : Type κ} (f : A → B) (xs ys : List A)
    → map f (reverse_aux xs ys) ≡ reverse_aux (map f xs) (map f ys)
map-reverse_aux f [] ys = refl
map-reverse_aux f (x ∷ xs) ys = map-reverse_aux f xs (x ∷ ys)

All-reverse_aux {ℓ κ} :
    {A : Type ℓ} (P : A → Type κ) (xs ys : List A) → All P xs → All P ys → All P (reverse_aux xs ys)
All-reverse_aux P [] ys h h' = h'
All-reverse_aux P (x ∷ xs) ys h h' = All-reverse_aux P xs (x ∷ ys) h.1 (h.0, h')

unreverse {ℓ} : {A : Type ℓ} (xs ys : List A) → reverse xs ≡ reverse ys → xs ≡ ys
unreverse xs ys e = sym (reverse-reverse xs) ∙ ap reverse e ∙ reverse-reverse ys

module _ (sha256 hex_encode : Bytes → Bytes) where
  abbrev Digest : Bytes → Bytes
  Digest = sha256_hex sha256 hex_encode

  -- a log, the newest record first
  abbrev newest : List AuditRecord → Bytes
  newest [] = genesis_prev
  newest (r ∷ older) = r.hash

  abbrev Linked : List AuditRecord → Type 0
  Linked [] = Unit
  Linked (r ∷ older) = (r.prev_hash ≡ newest older) × (Digest (input_of r) ≡ r.hash) × Linked older

  record_fault-none :
      (verify_signature : Bytes → Bytes → Bool) (prev : Bytes) (r : AuditRecord)
      → record_fault sha256 hex_encode verify_signature prev r ≡ none
      → (r.prev_hash ≡ prev) × (Digest (input_of r) ≡ r.hash)
  unfolding record_fault recomputed compute_hash
  record_fault-none verify_signature prev r h = (
    not-=bytes r.prev_hash prev (ground arith),
    not-=bytes (recomputed sha256 hex_encode r) r.hash (ground arith),
  )

  verify_from-Linked :
      (verify_signature : Bytes → Bytes → Bool) (index : ℕ) (records older : List AuditRecord)
      → verify_from sha256 hex_encode verify_signature index (newest older) records ≡ none
      → Linked older
      → Linked (reverse_aux records older)
  unfolding verify_from
  verify_from-Linked verify_signature index [] older h l = l
  verify_from-Linked verify_signature index (r ∷ records) older h l =
      elim (Option-cases (record_fault sha256 hex_encode verify_signature (newest older) r)) [
        | inl fine ↦
            let (p, q) = record_fault-none verify_signature (newest older) r fine in
            verify_from-Linked verify_signature (index + 1) records (r ∷ older) (ground arith)
              (p, q, l)
        | inr (reason, bad) ↦ absurd (ground arith)
      ]

  newest-reverse_aux :
      (records older : List AuditRecord)
      → newest (reverse_aux records older) ≡ tip (newest older) records
  newest-reverse_aux [] older = refl
  newest-reverse_aux (r ∷ records) older = newest-reverse_aux records (r ∷ older)

  abbrev SameHistory : List AuditRecord → List AuditRecord → Type 0
  SameHistory xs ys = (map content xs ≡ map content ys) ⊎ (Collision Digest ⊎ ZeroPreimage Digest)

  with_newest :
      (c d : Content) (xs ys : List AuditRecord)
      → c ≡ d
      → SameHistory xs ys
      → (c ∷ map content xs ≡ d ∷ map content ys) ⊎ (Collision Digest ⊎ ZeroPreimage Digest)
  with_newest c d xs ys e (inl same) = inl (ap₂ (λ h t. h ∷ t) e same)
  with_newest c d xs ys e (inr broken) = inr broken

  same_history :
      (xs ys : List AuditRecord)
      → Linked xs
      → Linked ys
      → All IsStorable xs
      → All IsStorable ys
      → newest xs ≡ newest ys
      → SameHistory xs ys
  unfolding content
  same_history [] [] hx hy sx sy e = inl refl
  same_history (r ∷ xs) [] hx hy sx sy e =
      inr (inr (record { input = input_of r; zeros = hx.1 ∙ e }))
  same_history [] (s ∷ ys) hx hy sx sy e =
      inr (inr (record { input = input_of s; zeros = hy.1 ∙ sym e }))
  same_history (r ∷ xs) (s ∷ ys) hx hy sx sy e = elim (Bool-cases (input_of r =bytes input_of s)) [
    | inr other ↦ inr (
        inl (record {
          left = input_of r;
          right = input_of s;
          differ = ne_of_=bytes (input_of r) (input_of s) other;
          collide = hx.1 ∙ e ∙ sym hy.1;
        }))
    | inl same ↦
        let c = content-input_of r s sx.0 sy.0 ((=bytes_iff (input_of r) (input_of s)).0 same) in
        let older = sym hx.0 ∙ ap (λ (d : Content). d.prev_hash) c ∙ hy.0 in
        with_newest (content r) (content s) xs ys c (same_history xs ys hx.2 hy.2 sx.1 sy.1 older)
  ]

  map-content_oldest :
      (xs ys : List AuditRecord) → SameHistory (reverse xs) (reverse ys) → SameHistory xs ys
  map-content_oldest xs ys (inl same) = inl (
      unreverse (map content xs) (map content ys)
        (sym (map-reverse_aux content xs []) ∙ same ∙ map-reverse_aux content ys []))
  map-content_oldest xs ys (inr broken) = inr broken

  -- Take two logs of records with fields shorter than 2 ^ 64 bytes, each of which `verify_chain` accepts
  -- under its own check of signatures. If their last hashes agree, the logs agree, record by record, in
  -- number and in all that is hashed (the time to the microsecond, a missing target read as an empty one),
  -- or they show two inputs with the same SHA-256 in hex, or an input whose SHA-256 in hex is all zeros.
  pub verify_chain-tip :
      (verify_signature verify_signature' : Bytes → Bytes → Bool) (xs ys : List AuditRecord)
      → verify_chain sha256 hex_encode verify_signature xs ≡ none
      → verify_chain sha256 hex_encode verify_signature' ys ≡ none
      → All IsStorable xs
      → All IsStorable ys
      → tip genesis_prev xs ≡ tip genesis_prev ys
      → (map content xs ≡ map content ys)
        ⊎ (Collision (sha256_hex sha256 hex_encode) ⊎ ZeroPreimage (sha256_hex sha256 hex_encode))
  unfolding verify_chain
  verify_chain-tip verify_signature verify_signature' xs ys hx hy sx sy e =
      map-content_oldest xs ys (
        same_history (reverse xs) (reverse ys) (verify_from-Linked verify_signature 0 xs [] hx tt)
          (verify_from-Linked verify_signature' 0 ys [] hy tt)
          (All-reverse_aux IsStorable xs [] sx tt) (All-reverse_aux IsStorable ys [] sy tt)
          (newest-reverse_aux xs [] ∙ e ∙ sym (newest-reverse_aux ys [])))
