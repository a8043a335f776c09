-- ===== src/ControlPlane/Siem/Forward/Run.antt =====
-- A table that grows while it is exported.
use light_waf.Prelude.{ℕ, ◌<◌, List, [], ◌∷◌, ◌++◌, All, arith}
use light_waf.ControlPlane.Siem.Forward.{
  StreamStatus, Cycle, Row, Export, no_export, get_cursor, forward_stream,
}
use light_waf.ControlPlane.Siem.Forward.Delivered.{
  IsAscending, IsDelivered, IsExported, forward_stream-IsExported,
}

-- what happens: a row is committed to the table, whatever its id, or a cycle runs
pub data Event (A : Type 0) : Type 0 where
  appears : Row A → Event A
  cycles : Cycle → Event A

module _ {A : Type 0} where
  unfoldable pub run : ℕ → List (Event A) → List (Row A) × Export A → List (Row A) × Export A
  unfolding forward_stream
  run batch_size [] s = s
  run batch_size (appears r ∷ events) (rows, e) = run batch_size events (rows ++ (r ∷ []), e)
  run batch_size (cycles c ∷ events) (rows, e) =
      run batch_size events (rows, (forward_stream batch_size rows c e).1)

  -- each row that appears has an id above those that are there
  abbrev pub IsInOrder : List (Event A) → List (Row A) → Type 0
  IsInOrder [] rows = Unit
  IsInOrder (appears r ∷ events) rows =
      (0 < r.0) × All (λ (s : Row A). s.0 < r.0) rows × IsInOrder events (rows ++ (r ∷ []))
  IsInOrder (cycles c ∷ events) rows = IsInOrder events rows

  IsAscending-snoc :
      (rows : List (Row A)) (r : Row A)
      → IsAscending rows
      → All (λ (s : Row A). s.0 < r.0) rows
      → IsAscending (rows ++ (r ∷ []))
  IsAscending-snoc [] r up below = (tt, tt)
  IsAscending-snoc (x ∷ rows) r up below = (above rows up.0, IsAscending-snoc rows r up.1 below.1)
    where
      above :
          (l : List (Row A))
          → All (λ (s : Row A). x.0 < s.0) l
          → All (λ (s : Row A). x.0 < s.0) (l ++ (r ∷ []))
      above [] h = (below.0, tt)
      above (y ∷ l) h = (h.0, above l h.1)

  IsDelivered-snoc :
      (cursor : ℕ) (acknowledged rows : List (Row A)) (r : Row A)
      → cursor < r.0
      → IsDelivered cursor acknowledged rows
      → IsDelivered cursor acknowledged (rows ++ (r ∷ []))
  IsDelivered-snoc cursor acknowledged [] r new h = ((λ old. absurd (omega (arith, old, new))), tt)
  IsDelivered-snoc cursor acknowledged (x ∷ rows) r new h =
      (h.0, IsDelivered-snoc cursor acknowledged rows r new h.1)

  bounded-snoc :
      (n : ℕ) (rows : List (Row A)) (r : Row A)
      → All (λ (s : Row A). s.0 < n) (rows ++ (r ∷ []))
      → All (λ (s : Row A). s.0 < n) rows
  bounded-snoc n [] r h = tt
  bounded-snoc n (x ∷ rows) r h = (h.0, bounded-snoc n rows r h.1)

  appears-IsExported :
      (rows : List (Row A)) (e : Export A) (r : Row A)
      → IsExported rows e
      → 0 < r.0
      → All (λ (s : Row A). s.0 < r.0) rows
      → IsExported (rows ++ (r ∷ [])) e
  appears-IsExported rows e r h pos below = record {
    ascending = IsAscending-snoc rows r h.ascending below;
    delivered =
        IsDelivered-snoc (get_cursor e.cursor) e.acknowledged rows r (h.bounded r.0 pos below)
          h.delivered;
    bounded = λ n p all. h.bounded n p (bounded-snoc n rows r all);
  }

  run-IsExported :
      (batch_size : ℕ) (events : List (Event A)) (rows : List (Row A)) (e : Export A)
      → IsExported rows e
      → IsInOrder events rows
      → IsExported (run batch_size events (rows, e)).0 (run batch_size events (rows, e)).1
  unfolding run
  run-IsExported batch_size [] rows e h order = h
  run-IsExported batch_size (appears r ∷ events) rows e h order =
      run-IsExported batch_size events (rows ++ (r ∷ [])) e
        (appears-IsExported rows e r h order.0 order.1) order.2
  run-IsExported batch_size (cycles c ∷ events) rows e h order =
      run-IsExported batch_size events rows (forward_stream batch_size rows c e).1
        (forward_stream-IsExported batch_size rows e h c) order

  -- From an empty table and an export that has sent nothing, whatever the sink answers and whatever
  -- becomes of the queries, every row up to the stored cursor is in a batch that the sink has
  -- acknowledged, provided that each row that appears has an id above those that are there.
  pub run-IsDelivered :
      (batch_size : ℕ) (status : StreamStatus) (events : List (Event A))
      → IsInOrder events []
      → IsDelivered
          (get_cursor (run batch_size events ([], no_export A status)).1.cursor)
          (run batch_size events ([], no_export A status)).1.acknowledged
          (run batch_size events ([], no_export A status)).0
  unfolding get_cursor
  run-IsDelivered batch_size status events order =
      (run-IsExported batch_size events [] (no_export A status)
        (record { ascending = tt; delivered = tt; bounded = λ n pos _. pos }) order).delivered
