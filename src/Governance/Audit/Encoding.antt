-- ===== src/Governance/Audit/Encoding.antt =====
-- What the hash is taken of determines what is hashed.
use light_waf.Prelude.{
  ℕ, zero, suc, ◌/◌, ◌%◌, ◌^◌, ◌<◌, ◌≡◌, refl, sym, ap₂, ◌∙◌, arith, List, [], ◌∷◌, ◌++◌, Bytes,
  length, length-append, append_assoc, append-nil,
}
use light_waf.Governance.Audit.{AuditRecord, ts_micros, be_bytes, feed, or_empty, hash_input}
use native.Mathlib.Nat.{pow-suc}
use mathlib.Core.List.{tail-eq_of_cons-eq, head-eq_of_cons-eq}

append_inj {ℓ} :
    {A : Type ℓ} (a b c d : List A) → length a ≡ length b → (a ++ c) ≡ (b ++ d) → (a ≡ b) × (c ≡ d)
append_inj [] [] c d l e = (refl, e)
append_inj [] (y ∷ b) c d l e = absurd (omega arith)
append_inj (x ∷ a) [] c d l e = absurd (omega arith)
append_inj (x ∷ a) (y ∷ b) c d l e =
    let (p, q) = append_inj a b c d (omega arith) (tail-eq_of_cons-eq e) in
    (ap₂ (λ h t. h ∷ t) (head-eq_of_cons-eq e) p, q)

length-be_bytes : (k n : ℕ) → length (be_bytes k n) ≡ k
unfolding be_bytes
length-be_bytes zero n = refl
length-be_bytes (suc k) n =
    omega (arith, length-append (be_bytes k (n / 256)) (n % 256 ∷ []), length-be_bytes k (n / 256))

div-lt : (k n : ℕ) → n < 256 ^ suc k → n / 256 < 256 ^ k
div-lt k n h = omega (arith, pow-suc 256 k)

be_bytes_inj : (k m n : ℕ) → m < 256 ^ k → n < 256 ^ k → be_bytes k m ≡ be_bytes k n → m ≡ n
unfolding be_bytes
be_bytes_inj zero m n h h' e = omega arith
be_bytes_inj (suc k) m n h h' e =
    let (front, last) =
      append_inj (be_bytes k (m / 256)) (be_bytes k (n / 256)) (m % 256 ∷ []) (n % 256 ∷ [])
        (length-be_bytes k (m / 256) ∙ sym (length-be_bytes k (n / 256))) e in
    omega (
      arith,
      be_bytes_inj k (m / 256) (n / 256) (div-lt k m h) (div-lt k n h') front,
      head-eq_of_cons-eq last,
    )

word_inj :
    (m n : ℕ) (a b : Bytes)
    → m < 2 ^ 64
    → n < 2 ^ 64
    → (be_bytes 8 m ++ a) ≡ (be_bytes 8 n ++ b)
    → (m ≡ n) × (a ≡ b)
word_inj m n a b h h' e =
    let (p, q) =
      append_inj (be_bytes 8 m) (be_bytes 8 n) a b (length-be_bytes 8 m ∙ sym (length-be_bytes 8 n))
        e in
    (be_bytes_inj 8 m n (omega arith) (omega arith) p, q)

feed_inj :
    (f g a b : Bytes)
    → length f < 2 ^ 64
    → length g < 2 ^ 64
    → (feed f ++ a) ≡ (feed g ++ b)
    → (f ≡ g) × (a ≡ b)
unfolding feed
feed_inj f g a b hf hg e =
    let (l, rest) =
      word_inj (length f % 2 ^ 64) (length g % 2 ^ 64) (f ++ a) (g ++ b) (omega arith) (omega arith)
        (sym (append_assoc (be_bytes 8 (length f % 2 ^ 64)) f a)
          ∙ e
          ∙ append_assoc (be_bytes 8 (length g % 2 ^ 64)) g b) in
    append_inj f g a b (omega arith) rest

-- what the hash covers of a record: its times to the microsecond, an absent target as an empty one
pub record Content : Type 0 where
  pub seq : ℕ
  pub micros : ℕ
  pub actor : Bytes
  pub action : Bytes
  pub target : Bytes
  pub details : Bytes
  pub prev_hash : Bytes

unfoldable pub content : AuditRecord → Content
unfolding or_empty ts_micros
content r = record {
  seq = r.seq;
  micros = ts_micros r.ts;
  actor = r.actor;
  action = r.action;
  target = or_empty r.target;
  details = r.details;
  prev_hash = r.prev_hash;
}

abbrev Fits : Bytes → Type 0
Fits b = length b < 2 ^ 64

-- the fields have lengths, and the sequence number a value, that a machine word holds
pub record IsStorable (r : AuditRecord) : Type 0 where
  pub seq_fits : r.seq < 2 ^ 64
  pub actor_fits : Fits r.actor
  pub action_fits : Fits r.action
  pub target_fits : Fits (or_empty r.target)
  pub details_fits : Fits r.details
  pub prev_hash_fits : Fits r.prev_hash

abbrev pub input_of : AuditRecord → Bytes
input_of r = hash_input r.seq (ts_micros r.ts) r.actor r.action r.target r.details r.prev_hash

-- Two records that give the digest the same input have the same content.
pub content-input_of :
    (r s : AuditRecord)
    → IsStorable r
    → IsStorable s
    → input_of r ≡ input_of s
    → content r ≡ content s
unfolding hash_input ts_micros content
content-input_of r s hr hs e =
    let (seq, e1) = word_inj r.seq s.seq _ _ hr.seq_fits hs.seq_fits e in
    let (micros, e2) =
      word_inj (r.ts / 1000 % 2 ^ 64) (s.ts / 1000 % 2 ^ 64) _ _ (omega arith) (omega arith) e1 in
    let (actor, e3) = feed_inj r.actor s.actor _ _ hr.actor_fits hs.actor_fits e2 in
    let (action, e4) = feed_inj r.action s.action _ _ hr.action_fits hs.action_fits e3 in
    let (target, e5) =
      feed_inj (or_empty r.target) (or_empty s.target) _ _ hr.target_fits hs.target_fits e4 in
    let (details, e6) = feed_inj r.details s.details _ _ hr.details_fits hs.details_fits e5 in
    let (prev, done) =
      feed_inj r.prev_hash s.prev_hash [] [] hr.prev_hash_fits hs.prev_hash_fits
        (append-nil (feed r.prev_hash) ∙ e6 ∙ sym (append-nil (feed s.prev_hash))) in
    λ i. record {
      seq = seq i;
      micros = micros i;
      actor = actor i;
      action = action i;
      target = target i;
      details = details i;
      prev_hash = prev i;
    }
