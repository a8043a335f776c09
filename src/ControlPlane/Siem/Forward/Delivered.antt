-- ===== src/ControlPlane/Siem/Forward/Delivered.antt =====
-- Delivery is at least once, as long as rows appear in the order of their ids.
use light_waf.Prelude.{
  ◌≡◌, refl, sym, ap, ◌∙◌, subst, ℕ, zero, suc, ◌≤◌, ◌<◌, true, false, inl, inr, ◌⊎◌, List, [], ◌∷◌,
  ◌++◌, All, ltb, leb, Bool-cases, Option-cases, arith,
}
use light_waf.Governance.Store.{Outage, answered, lost_before, lost_after}
use light_waf.ControlPlane.Siem.Forward.{
  Cycle, Row, Export, get_cursor, insert_by_id, by_id, first_after, fetch_since, last_id, deliver,
  advance, send, send_batch, forward_stream,
}

-- a row is one of them
abbrev pub In : {A : Type 0} → A → List A → Type 0
In x [] = ⊥
In x (y ∷ l) = (x ≡ y) ⊎ In x l

module _ {A : Type 0} where
  pub In-left : (x : A) (a b : List A) → In x a → In x (a ++ b)
  In-left x [] b h = absurd h
  In-left x (y ∷ a) b (inl e) = inl e
  In-left x (y ∷ a) b (inr h) = inr (In-left x a b h)

  pub In-right : (x : A) (a b : List A) → In x b → In x (a ++ b)
  In-right x [] b h = h
  In-right x (y ∷ a) b h = inr (In-right x a b h)

  All-map : (P Q : A → Type 0) (l : List A) → ((a : A) → P a → Q a) → All P l → All Q l
  All-map P Q [] f h = tt
  All-map P Q (a ∷ l) f h = (f a h.0, All-map P Q l f h.1)

  All-snoc : (P : A → Type 0) (l : List A) (a : A) → All P l → P a → All P (l ++ (a ∷ []))
  All-snoc P [] a h p = (p, tt)
  All-snoc P (b ∷ l) a h p = (h.0, All-snoc P l a h.1 p)

module _ {A : Type 0} where
  -- by ascending id
  abbrev pub IsAscending : List (Row A) → Type 0
  IsAscending [] = Unit
  IsAscending (r ∷ rows) = All (λ (s : Row A). r.0 < s.0) rows × IsAscending rows

  -- every row up to the cursor is among the acknowledged ones
  abbrev pub IsDelivered : ℕ → List (Row A) → List (Row A) → Type 0
  IsDelivered cursor acknowledged rows = All (λ (r : Row A). r.0 ≤ cursor → In r acknowledged) rows

  -- a table in order is as the query orders it
  insert_by_id-IsAscending :
      (r : Row A) (rows : List (Row A))
      → All (λ (s : Row A). r.0 < s.0) rows
      → insert_by_id r rows ≡ r ∷ rows
  unfolding insert_by_id
  insert_by_id-IsAscending r [] h = refl
  insert_by_id-IsAscending r (x ∷ rows) h =
      let first : leb r.0 x.0 ≡ true = ground (arith, h.0) in rw first refl

  by_id-IsAscending : (rows : List (Row A)) → IsAscending rows → by_id rows ≡ rows
  unfolding by_id
  by_id-IsAscending [] h = refl
  by_id-IsAscending (r ∷ rows) h =
      ap (insert_by_id r) (by_id-IsAscending rows h.1) ∙ insert_by_id-IsAscending r rows h.0

  fetch_since-IsAscending :
      (after n : ℕ) (rows : List (Row A))
      → IsAscending rows
      → fetch_since after n rows ≡ first_after after n rows
  unfolding fetch_since
  fetch_since-IsAscending after n rows h = ap (first_after after n) (by_id-IsAscending rows h)

  later :
      (r x : Row A) (l : List (Row A)) (after : ℕ)
      → (r.0 ≤ after) ⊎ In r l
      → (r.0 ≤ after) ⊎ In r (x ∷ l)
  later r x l after (inl old) = inl old
  later r x l after (inr h) = inr (inr h)

  pub first-new :
      (after n : ℕ) (x : Row A) (rows : List (Row A))
      → ltb after x.0 ≡ true
      → first_after after (suc n) (x ∷ rows) ≡ x ∷ first_after after n rows
  unfolding first_after
  first-new after n x rows new = rw new refl

  pub first-old :
      (after n : ℕ) (x : Row A) (rows : List (Row A))
      → ltb after x.0 ≡ false
      → first_after after n (x ∷ rows) ≡ first_after after n rows
  unfolding first_after
  first-old after n x rows old = rw old refl

  -- what the batch reaches, it holds: a row up to its last id is an old one or in the batch
  abbrev IsCovered : ℕ → ℕ → List (Row A) → List (Row A) → Type 0
  IsCovered after d rows batch =
      All (λ (r : Row A). r.0 ≤ last_id d batch → (r.0 ≤ after) ⊎ In r batch) rows

  covers :
      (rows : List (Row A)) (limit after d : ℕ)
      → IsAscending rows
      → All (λ (r : Row A). r.0 ≤ d → r.0 ≤ after) rows
      → IsCovered after d rows (first_after after limit rows)
  unfolding last_id first_after
  covers rows zero after d up low = All-map _ _ rows (λ r f h. inl (f h)) low
  covers [] (suc n) after d up low = tt
  covers (x ∷ rows) (suc n) after d up low = elim (Bool-cases (ltb after x.0)) [
    | inr old ↦
        subst (IsCovered after d (x ∷ rows)) (sym (first-old after (suc n) x rows old))
          ((λ _. inl (ground arith)), covers rows (suc n) after d up.1 low.1)
    | inl new ↦ subst (IsCovered after d (x ∷ rows)) (sym (first-new after n x rows new)) (
      (λ _. inr (inl refl)),
      All-map _ _ rows (λ r f h. later r x (first_after after n rows) after (f h))
          (covers rows n after x.0 up.1 (
            All-map (λ r. x.0 < r.0) (λ r. r.0 ≤ x.0 → r.0 ≤ after) rows
              (λ r above h. absurd (omega arith)) up.0)),
    )
  ]

  -- the table is in order; what the cursor has passed is delivered; the cursor is below every number
  -- that is above all ids
  pub record IsExported (rows : List (Row A)) (e : Export A) : Type 0 where
    pub ascending : IsAscending rows
    pub delivered : IsDelivered (get_cursor e.cursor) e.acknowledged rows
    pub bounded : (n : ℕ) → 0 < n → All (λ (r : Row A). r.0 < n) rows → get_cursor e.cursor < n

  last-below :
      (n after d : ℕ) (limit : ℕ) (rows : List (Row A))
      → d < n
      → All (λ (r : Row A). r.0 < n) rows
      → last_id d (first_after after limit rows) < n
  unfolding last_id first_after
  last-below n after d zero rows h below = h
  last-below n after d (suc k) [] h below = h
  last-below n after d (suc k) (x ∷ rows) h below = elim (Bool-cases (ltb after x.0)) [
    | inl new ↦
        subst (λ b. last_id d b < n) (sym (first-new after k x rows new))
          (last-below n after x.0 k rows below.0 below.1)
    | inr old ↦
        subst (λ b. last_id d b < n) (sym (first-old after (suc k) x rows old))
          (last-below n after d (suc k) rows h below.1)
  ]

  module _ (batch_size : ℕ) (rows : List (Row A)) (e : Export A) (h : IsExported rows e) where
    abbrev fetched : List (Row A)
    fetched = fetch_since (get_cursor e.cursor) batch_size rows

    abbrev reached : ℕ
    reached = last_id (get_cursor e.cursor) fetched

    abbrev in_order : fetched ≡ first_after (get_cursor e.cursor) batch_size rows
    in_order = fetch_since-IsAscending (get_cursor e.cursor) batch_size rows h.ascending

    IsDelivered-more :
        (cursor : ℕ)
        → (cursor ≡ get_cursor e.cursor) ⊎ (cursor ≡ reached)
        → IsDelivered cursor (e.acknowledged ++ fetched) rows
    IsDelivered-more cursor (inl same) =
        All-map _ _ rows
          (λ r f below. In-left r e.acknowledged fetched (f (omega (arith, below, same))))
          h.delivered
    IsDelivered-more cursor (inr moved) = both rows h.delivered (
        subst (IsCovered (get_cursor e.cursor) (get_cursor e.cursor) rows) (sym in_order) (
          covers rows batch_size (get_cursor e.cursor) (get_cursor e.cursor) h.ascending
            (All-map _ _ rows (λ r _ below. below) h.delivered)))
      where
        pick :
            (r : Row A)
            → (r.0 ≤ get_cursor e.cursor → In r e.acknowledged)
            → (r.0 ≤ get_cursor e.cursor) ⊎ In r fetched
            → In r (e.acknowledged ++ fetched)
        pick r f (inl old) = In-left r e.acknowledged fetched (f old)
        pick r f (inr new) = In-right r e.acknowledged fetched new

        both :
            (l : List (Row A))
            → IsDelivered (get_cursor e.cursor) e.acknowledged l
            → IsCovered (get_cursor e.cursor) (get_cursor e.cursor) l fetched
            → IsDelivered cursor (e.acknowledged ++ fetched) l
        both [] d c = tt
        both (r ∷ l) d c =
            ((λ below. pick r d.0 (c.0 (omega (arith, below, moved)))), both l d.1 c.1)

    bounded_more : (n : ℕ) → 0 < n → All (λ (r : Row A). r.0 < n) rows → reached < n
    bounded_more n pos below =
        subst (λ b. last_id (get_cursor e.cursor) b < n) (sym in_order)
          (last-below n (get_cursor e.cursor) (get_cursor e.cursor) batch_size rows
            (h.bounded n pos below) below)

    advance-IsExported :
        (c : Cycle) (outage : Outage) (sent : List (Row A))
        → c.stores_cursor ≡ outage
        → IsExported rows (advance c reached fetched (record e { sent = sent })).1
    unfolding advance get_cursor
    advance-IsExported c answered sent stored =
        rw (stored, advance)
          (record {
            ascending = h.ascending;
            delivered = IsDelivered-more reached (inr refl);
            bounded = bounded_more;
          })
    advance-IsExported c lost_before sent lost =
        rw (lost, advance)
          (record {
            ascending = h.ascending;
            delivered = IsDelivered-more (get_cursor e.cursor) (inl refl);
            bounded = h.bounded;
          })
    advance-IsExported c lost_after sent lost =
        rw (lost, advance)
          (record {
            ascending = h.ascending;
            delivered = IsDelivered-more reached (inr refl);
            bounded = bounded_more;
          })

    send-IsExported : (c : Cycle) → IsExported rows (send c reached fetched e).1
    unfolding send
    send-IsExported c = elim (Option-cases (deliver c.sink)) [
      | inl acked ↦ rw (acked, send) (advance-IsExported c c.stores_cursor (e.sent ++ fetched) refl)
      | inr (text, refused) ↦
          rw (refused, send)
            (record { ascending = h.ascending; delivered = h.delivered; bounded = h.bounded })
    ]

    batch-IsExported :
        (c : Cycle) (batch : List (Row A))
        → fetched ≡ batch
        → IsExported rows (send_batch c (last_id (get_cursor e.cursor) batch) batch e).1
    unfolding send_batch
    batch-IsExported c [] same = h
    batch-IsExported c (r ∷ batch) same =
        subst (λ b. IsExported rows (send c (last_id (get_cursor e.cursor) b) b e).1) same
          (send-IsExported c)

    pub forward_stream-IsExported :
        (c : Cycle) → IsExported rows (forward_stream batch_size rows c e).1
    unfolding forward_stream
    forward_stream-IsExported c = elim (Option-cases c.reads_cursor) [
      | inr (text, lost) ↦ rw (lost, forward_stream) h
      | inl read ↦ elim (Option-cases c.reads_rows) [
        | inr (text, lost) ↦ rw (read, forward_stream) (rw lost h)
        | inl found ↦ rw (read, forward_stream) (rw found (batch-IsExported c fetched refl))
      ]
    ]
