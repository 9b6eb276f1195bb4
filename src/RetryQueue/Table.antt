-- ===== src/RetryQueue/Table.antt =====
-- The two SQLite tables of kazenai/retry_queue.py, and the statements that the queue runs on them.
use kazenai_core.Base.{
  ℕ, ◌+◌, Bool, false, not, ◌&&◌, Option, none, some, List, [], ◌∷◌, String, leb, ◌==◌,
  if◌then◌else◌, keep, take, count, str_eq,
}

-- A row of `pending_events`. The primary key grows by one with each insertion.
pub record Row : Type 0 where
  pub id : ℕ
  pub created_at_ms : ℕ
  pub event_id : Option String
  pub org_id : Option String
  pub payload_json : String
  pub attempts : ℕ
  pub lease_until_ms : ℕ
  pub poison : Bool

-- A row of `dead_letter`, whose key no statement reads.
pub record Dead : Type 0 where
  pub moved_at_ms : ℕ
  pub event_id : Option String
  pub org_id : Option String
  pub payload_json : String
  pub attempts : ℕ
  pub reason : String

-- `event_id = ?`: a NULL equals nothing.
abbrev pub id_is : String → Option String → Bool
id_is e none = false
id_is e (some x) = str_eq x e

abbrev pub row_has : String → Row → Bool
row_has e r = id_is e r.event_id

abbrev pub dead_has : String → Dead → Bool
dead_has e d = id_is e d.event_id

-- `DELETE FROM pending_events WHERE id = ?`.
unfoldable pub delete_row : ℕ → List Row → List Row
delete_row i [] = []
delete_row i (r ∷ rs) = let rest = delete_row i rs in if r.id == i then rest else r ∷ rest

-- `SELECT … FROM pending_events WHERE id = ?`, its first row.
unfoldable pub find_row : ℕ → List Row → Option Row
find_row i [] = none
find_row i (r ∷ rs) = if r.id == i then some r else find_row i rs

-- `UPDATE pending_events SET lease_until_ms = ?, attempts = attempts + ? WHERE id = ?`.
unfoldable pub set_lease : ℕ → ℕ → ℕ → List Row → List Row
set_lease until more i [] = []
set_lease until more i (r ∷ rs) =
    let rest = set_lease until more i rs in
    if r.id == i
    then record r { lease_until_ms = until; attempts = r.attempts + more } ∷ rest
    else r ∷ rest

-- `WHERE poison = 0 AND lease_until_ms <= ?`.
abbrev pub is_due : ℕ → Row → Bool
is_due now r = not r.poison && leb r.lease_until_ms now

-- `ORDER BY id ASC LIMIT ?`: the table is kept in the order of its key.
unfoldable pub first_due : ℕ → ℕ → List Row → List Row
first_due now limit rows = take limit (keep (is_due now) rows)

-- `SELECT COUNT(1) FROM pending_events WHERE poison=0`.
abbrev pub count_pending : List Row → ℕ
count_pending rows = count (λ r. not r.poison) rows
