-- ===== src/ControlPlane/Siem/Forward.antt =====
-- crates/waf-controlplane/src/siem_forward.rs, with the queries of store.rs that it makes: the export of
-- one stream to one destination. A row of the stream is its id with its event, and the table is its rows in
-- whatever order they were committed. What becomes of a cycle's steps is given to it: of the queries, and of
-- the request.
pub mod Delivered
pub mod Run
pub mod Late
use light_waf.Prelude.{
  ℕ, ◌+◌, Bool, true, false, not, ◌&&◌, Option, none, some, List, [], ◌∷◌, ◌++◌, map, Bytes, codes,
  length, take, filterb, leb, ltb, decimal, if◌then◌else◌,
}
use light_waf.Governance.Store.{Outage, answered, lost_before, lost_after}

unfoldable pub is_success : ℕ → Bool
is_success status = leb 200 status && ltb status 300

-- an answer with its status, or the text of the failure to get one
pub data Sink : Type 0 where
  answer : ℕ → Sink
  failed : Bytes → Sink

pub record StreamStatus : Type 0 where
  pub last_cursor : ℕ
  pub last_delivered : ℕ
  pub last_success_at : Option ℕ
  pub last_error : Option Bytes
  pub last_error_at : Option ℕ

pub data Outcome : Type 0 where
  ok : ℕ → Outcome
  err : Bytes → Outcome

-- what a cycle meets: the text of a query's failure, if it fails, and the sink's answer
pub record Cycle : Type 0 where
  pub now : ℕ
  pub reads_cursor : Option Bytes
  pub reads_rows : Option Bytes
  pub sink : Sink
  pub stores_cursor : Outage
  pub stores_error : Bytes

module _ (A : Type 0) where
  abbrev pub Row : Type 0
  Row = ℕ × A

  -- the stored cursor, the status, and the rows of each batch that was posted to the sink, and of each that
  -- the sink has acknowledged
  pub record Export : Type 0 where
    pub cursor : Option ℕ
    pub status : StreamStatus
    pub sent : List Row
    pub acknowledged : List Row

-- before the first cycle
abbrev pub no_export : (A : Type 0) → StreamStatus → Export A
no_export A status = record { cursor = none; status = status; sent = []; acknowledged = [] }

-- `unwrap_or(0)`
unfoldable pub get_cursor : Option ℕ → ℕ
get_cursor none = 0
get_cursor (some v) = v

unfoldable pub deliver : Sink → Option Bytes
unfolding is_success
deliver (failed e) = some e
deliver (answer status) = if is_success status then none else some (codes "HTTP " ++ decimal status)

unfoldable pub record_success : ℕ → ℕ → ℕ → StreamStatus → StreamStatus
record_success now cursor delivered s = record s {
  last_cursor = cursor;
  last_delivered = delivered;
  last_success_at = some now;
}

unfoldable pub record_error : ℕ → Bytes → StreamStatus → StreamStatus
record_error now e s = record s { last_error = some e; last_error_at = some now }

module _ {A : Type 0} where
  -- a row in front of those with its id or a greater one
  unfoldable pub insert_by_id : Row A → List (Row A) → List (Row A)
  insert_by_id r [] = r ∷ []
  insert_by_id r (x ∷ rows) =
      let rest = insert_by_id r rows in if leb r.0 x.0 then r ∷ x ∷ rows else x ∷ rest

  -- `ORDER BY id`
  unfoldable pub by_id : List (Row A) → List (Row A)
  unfolding insert_by_id
  by_id [] = []
  by_id (r ∷ rows) = insert_by_id r (by_id rows)

  -- `WHERE id > after … LIMIT limit`
  unfoldable pub first_after : ℕ → ℕ → List (Row A) → List (Row A)
  first_after after limit rows = take limit (filterb (λ (r : Row A). ltb after r.0) rows)

  unfoldable pub fetch_since : ℕ → ℕ → List (Row A) → List (Row A)
  unfolding by_id first_after
  fetch_since after limit rows = first_after after limit (by_id rows)

  -- `rows.last().map(id).unwrap_or(after)`
  unfoldable pub last_id : ℕ → List (Row A) → ℕ
  last_id after [] = after
  last_id after (r ∷ rows) = last_id r.0 rows

  -- `siem_set_cursor` and what follows an acknowledged batch
  unfoldable pub advance : Cycle → ℕ → List (Row A) → Export A → Outcome × Export A
  unfolding record_success
  advance c max_id batch e =
      let delivered = record e { acknowledged = e.acknowledged ++ batch } in
      elim c.stores_cursor [
        | answered ↦ (
          ok (length batch),
          record delivered {
            cursor = some max_id;
            status = record_success c.now max_id (length batch) e.status;
          },
        )
        | lost_before ↦ (err c.stores_error, delivered)
        | lost_after ↦ (err c.stores_error, record delivered { cursor = some max_id })
      ]

  -- one batch that is not empty
  unfoldable pub send : Cycle → ℕ → List (Row A) → Export A → Outcome × Export A
  unfolding deliver advance record_error
  send c max_id batch e =
      let posted = record e { sent = e.sent ++ batch } in
      elim (deliver c.sink) [
        | none ↦ advance c max_id batch posted
        | some text ↦ (err text, record posted { status = record_error c.now text e.status })
      ]

  unfoldable pub send_batch : Cycle → ℕ → List (Row A) → Export A → Outcome × Export A
  unfolding send
  send_batch c max_id [] e = (ok 0, e)
  send_batch c max_id (r ∷ rows) e = send c max_id (r ∷ rows) e

  unfoldable pub forward_stream : ℕ → List (Row A) → Cycle → Export A → Outcome × Export A
  unfolding get_cursor fetch_since last_id send_batch
  forward_stream batch_size rows c e = elim c.reads_cursor [
    | some text ↦ (err text, e)
    | none ↦ elim c.reads_rows [
      | some text ↦ (err text, e)
      | none ↦
          let after = get_cursor e.cursor in
          let batch = fetch_since after batch_size rows in
          send_batch c (last_id after batch) batch e
    ]
  ]
