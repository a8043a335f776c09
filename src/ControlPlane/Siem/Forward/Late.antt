-- ===== src/ControlPlane/Siem/Forward/Late.antt =====
-- A row that appears below the cursor is not sent.
use light_waf.Prelude.{
  ◌≡◌, refl, sym, subst, ℕ, zero, suc, ◌≤◌, ◌<◌, true, inl, inr, ◌⊎◌, List, [], ◌∷◌, ◌++◌, ltb,
  ltb→lt, Bool-cases, Option-cases, arith,
}
use light_waf.Governance.Store.{Outage, answered, lost_before, lost_after}
use light_waf.ControlPlane.Siem.Forward.{
  Cycle, Row, Export, get_cursor, by_id, first_after, fetch_since, last_id, deliver, advance, send,
  send_batch, forward_stream,
}
use light_waf.ControlPlane.Siem.Forward.Delivered.{In, In-left, In-right, first-new, first-old}
use light_waf.ControlPlane.Siem.Forward.Run.{Event, appears, cycles, run}

module _ {A : Type 0} (r : Row A) where
  -- the cursor is past the row, and no batch that was posted has held it
  pub record IsLate (e : Export A) : Type 0 where
    pub passed : r.0 ≤ get_cursor e.cursor
    pub missing : ¬ In r e.sent

  In-append : (a b : List (Row A)) → In r (a ++ b) → In r a ⊎ In r b
  In-append [] b h = inr h
  In-append (x ∷ a) b (inl same) = inl (inl same)
  In-append (x ∷ a) b (inr h) = elim (In-append a b h) [
    | inl left ↦ inl (inr left)
    | inr right ↦ inr right
  ]

  first :
      (after : ℕ) (x : Row A) (l : List (Row A))
      → ltb after x.0 ≡ true
      → (In r l → after < r.0)
      → (r ≡ x) ⊎ In r l
      → after < r.0
  first after x l new more (inl same) = rw same (ltb→lt after x.0 new)
  first after x l new more (inr h) = more h

  -- a batch holds only rows above the cursor
  first-above :
      (rows : List (Row A)) (limit after : ℕ) → In r (first_after after limit rows) → after < r.0
  unfolding first_after
  first-above rows zero after h = absurd h
  first-above [] (suc n) after h = absurd h
  first-above (x ∷ rows) (suc n) after h = elim (Bool-cases (ltb after x.0)) [
    | inl new ↦
        first after x (first_after after n rows) new (first-above rows n after)
          (subst (In r) (first-new after n x rows new) h)
    | inr old ↦ first-above rows (suc n) after (subst (In r) (first-old after (suc n) x rows old) h)
  ]

  last-above :
      (rows : List (Row A)) (limit after d : ℕ)
      → after ≤ d
      → after ≤ last_id d (first_after after limit rows)
  unfolding last_id first_after
  last-above rows zero after d h = h
  last-above [] (suc n) after d h = h
  last-above (x ∷ rows) (suc n) after d h = elim (Bool-cases (ltb after x.0)) [
    | inl new ↦
        subst (λ b. after ≤ last_id d b) (sym (first-new after n x rows new))
          (last-above rows n after x.0 (omega (arith, ltb→lt after x.0 new)))
    | inr old ↦
        subst (λ b. after ≤ last_id d b) (sym (first-old after (suc n) x rows old))
          (last-above rows (suc n) after d h)
  ]

  module _ (batch_size : ℕ) (rows : List (Row A)) (e : Export A) (h : IsLate e) where
    abbrev fetched : List (Row A)
    fetched = fetch_since (get_cursor e.cursor) batch_size rows

    abbrev reached : ℕ
    reached = last_id (get_cursor e.cursor) fetched

    still_missing : ¬ In r (e.sent ++ fetched)
    unfolding fetch_since
    still_missing found = elim (In-append e.sent fetched found) [
      | inl sent ↦ h.missing sent
      | inr new ↦
          absurd
            (omega (arith, first-above (by_id rows) batch_size (get_cursor e.cursor) new, h.passed))
    ]

    still_passed : r.0 ≤ reached
    unfolding fetch_since
    still_passed = omega (
      arith,
      h.passed,
      last-above (by_id rows) batch_size (get_cursor e.cursor) (get_cursor e.cursor) (omega arith),
    )

    advance-IsLate :
        (c : Cycle) (outage : Outage)
        → c.stores_cursor ≡ outage
        → IsLate (advance c reached fetched (record e { sent = e.sent ++ fetched })).1
    unfolding advance get_cursor
    advance-IsLate c answered stored =
        rw (stored, advance) (record { passed = still_passed; missing = still_missing })
    advance-IsLate c lost_before lost =
        rw (lost, advance) (record { passed = h.passed; missing = still_missing })
    advance-IsLate c lost_after lost =
        rw (lost, advance) (record { passed = still_passed; missing = still_missing })

    send-IsLate : (c : Cycle) → IsLate (send c reached fetched e).1
    unfolding send
    send-IsLate c = elim (Option-cases (deliver c.sink)) [
      | inl acked ↦ rw (acked, send) (advance-IsLate c c.stores_cursor refl)
      | inr (text, refused) ↦
          rw (refused, send) (record { passed = h.passed; missing = still_missing })
    ]

    batch-IsLate :
        (c : Cycle) (batch : List (Row A))
        → fetched ≡ batch
        → IsLate (send_batch c (last_id (get_cursor e.cursor) batch) batch e).1
    unfolding send_batch
    batch-IsLate c [] same = h
    batch-IsLate c (x ∷ batch) same =
        subst (λ b. IsLate (send c (last_id (get_cursor e.cursor) b) b e).1) same (send-IsLate c)

    forward_stream-IsLate : (c : Cycle) → IsLate (forward_stream batch_size rows c e).1
    unfolding forward_stream
    forward_stream-IsLate c = elim (Option-cases c.reads_cursor) [
      | inr (text, lost) ↦ rw (lost, forward_stream) h
      | inl read ↦ elim (Option-cases c.reads_rows) [
        | inr (text, lost) ↦ rw (read, forward_stream) (rw lost h)
        | inl found ↦ rw (read, forward_stream) (rw found (batch-IsLate c fetched refl))
      ]
    ]

  -- the rest of a history, with the row in the table
  stays :
      (batch_size : ℕ) (events : List (Event A)) (rows : List (Row A)) (e : Export A)
      → IsLate e
      → In r rows
      → In r (run batch_size events (rows, e)).0 × (¬ In r (run batch_size events (rows, e)).1.sent)
  unfolding run
  stays batch_size [] rows e late there = (there, late.missing)
  stays batch_size (appears x ∷ events) rows e late there =
      stays batch_size events (rows ++ (x ∷ [])) e late (In-left r rows (x ∷ []) there)
  stays batch_size (cycles c ∷ events) rows e late there =
      stays batch_size events rows (forward_stream batch_size rows c e).1
        (forward_stream-IsLate batch_size rows e late c) there

  -- A row that appears in the table when the stored cursor is at its id or above, and that no batch has
  -- held, is in the table and in no batch that was ever posted to the sink, acknowledged or not, after
  -- any further cycles and rows, whatever the ids of the rows and the order in which they appear.
  pub run-IsLate :
      (batch_size : ℕ) (events : List (Event A)) (rows : List (Row A)) (e : Export A)
      → r.0 ≤ get_cursor e.cursor
      → ¬ In r e.sent
      → In r (run batch_size (appears r ∷ events) (rows, e)).0
        × (¬ In r (run batch_size (appears r ∷ events) (rows, e)).1.sent)
  unfolding run
  run-IsLate batch_size events rows e passed missing =
      stays batch_size events (rows ++ (r ∷ [])) e (record { passed = passed; missing = missing })
        (In-right r rows (r ∷ []) (inl refl))
