-- ===== src/RetryQueue.antt =====
-- kazenai/retry_queue.py: the durable spool of events that could not be delivered. The clock and
-- the size of the file on disk are arguments; each operation runs under the object's lock in one
-- transaction, and so is one function on the state.
pub mod Table
pub mod Rows
pub mod Identity
pub mod Admission
pub mod Steps
pub mod Leases
pub mod Exclusive
pub mod Delivery
mod Tests
use kazenai_core.Base.{
  ℕ, suc, ◌+◌, Bool, false, ◌||◌, not, Option, none, some, List, [], ◌∷◌, ◌++◌, map, String, leb,
  ◌==◌, if◌then◌else◌, keep, any, length, or_else, str_eq,
}
use kazenai_core.Base.Text.{strip, is_empty}
use Table.{Row, Dead, row_has, dead_has, delete_row, find_row, set_lease, first_due, count_pending}

-- An event: the two keys that the queue reads, as text (empty if missing), and the other content.
pub record Event : Type 0 where
  pub event_id : String
  pub org_id : String
  pub content : String

-- `json.dumps` and `json.loads`; `none` is a text that does not parse.
pub record Codec : Type 0 where
  pub dumps : Event → String
  pub loads : String → Option Event

pub record Config : Type 0 where
  pub org_id : Option String
  pub max_pending : ℕ
  pub max_disk_bytes : ℕ
  pub max_attempts : ℕ
  pub lease_ttl_ms : ℕ

pub record Stats : Type 0 where
  pub enqueued : ℕ
  pub deduped : ℕ
  pub acked : ℕ
  pub nacked : ℕ
  pub poison : ℕ
  pub disk_full : ℕ
  pub rejected_tenant : ℕ

pub record Spool : Type 0 where
  pub config : Config
  pub open config use {max_pending, max_disk_bytes, max_attempts, lease_ttl_ms}
  pub pending : List Row
  pub next_id : ℕ
  pub dead : List Dead
  pub stats : Stats

pub data Outcome : Type 0 where
  applied duplicate rejected_disk rejected_tenant : Outcome

pub record LeasedEvent : Type 0 where
  pub row_id : ℕ
  pub event : Event
  pub attempts : ℕ
  pub event_id : Option String
  pub org_id : Option String

-- `RetryQueue(path, …)` over a new file.
pub init : Config → Spool
init config = record {
  config = config;
  pending = [];
  next_id = 1;
  dead = [];
  stats = record {
    enqueued = 0;
    deduped = 0;
    acked = 0;
    nacked = 0;
    poison = 0;
    disk_full = 0;
    rejected_tenant = 0;
  };
}

-- `str(value or "").strip() or None`.
unfoldable pub clean : String → Option String
clean text = let t = strip text in if is_empty t then none else some t

-- `self._org_id and org_id and org_id != self._org_id`.
unfoldable pub is_foreign : Option String → Option String → Bool
is_foreign none given = false
is_foreign (some own) none = false
is_foreign (some own) (some given) = not (str_eq given own)

-- The two SELECT statements that look for an event id, where there is one.
unfoldable pub is_known : Option String → Spool → Bool
is_known none s = false
is_known (some e) s = any (row_has e) s.pending || any (dead_has e) s.dead

-- The unique index on event ids that are not NULL.
unfoldable pub violates_index : Option String → List Row → Bool
violates_index none rows = false
violates_index (some e) rows = any (row_has e) rows

unfoldable pub new_row : Codec → Spool → ℕ → Event → Row
new_row codec s now event = record {
  id = s.next_id;
  created_at_ms = now;
  event_id = clean event.event_id;
  org_id = or_else (clean event.org_id) s.config.org_id;
  payload_json = codec.dumps event;
  attempts = 0;
  lease_until_ms = 0;
  poison = false;
}

pub bump_deduped : Spool → Spool
bump_deduped s = record s { stats = record (s.stats) { deduped = s.stats.deduped + 1 } }

pub bump_disk_full : Spool → Spool
bump_disk_full s = record s { stats = record (s.stats) { disk_full = s.stats.disk_full + 1 } }

pub bump_rejected_tenant : Spool → Spool
bump_rejected_tenant s = record s {
  stats = record (s.stats) { rejected_tenant = s.stats.rejected_tenant + 1 };
}

-- The INSERT; `sqlite3.IntegrityError` is a duplicate.
pub insert_row : Spool → Row → Spool × Outcome
unfolding bump_deduped violates_index
insert_row s row = if violates_index row.event_id s.pending then (bump_deduped s, duplicate) else (
  record s {
    pending = s.pending ++ row ∷ [];
    next_id = suc s.next_id;
    stats = record (s.stats) { enqueued = s.stats.enqueued + 1 };
  },
  applied,
)

-- `enqueue(event)` at a time, over a file of a size.
pub enqueue : Codec → Spool → ℕ → ℕ → Event → Spool × Outcome
unfolding insert_row new_row is_known is_foreign bump_deduped bump_disk_full bump_rejected_tenant
enqueue codec s now disk event =
    if is_foreign s.config.org_id (clean event.org_id)
    then (bump_rejected_tenant s, rejected_tenant)
    else if leb s.max_disk_bytes disk
    then (bump_disk_full s, rejected_disk)
    else if leb s.max_pending (count_pending s.pending)
    then (bump_disk_full s, rejected_disk)
    else if is_known (clean event.event_id) s
    then (bump_deduped s, duplicate)
    else insert_row s (new_row codec s now event)

abbrev pub dead_of : ℕ → String → Row → Dead
dead_of now reason r = record {
  moved_at_ms = now;
  event_id = r.event_id;
  org_id = r.org_id;
  payload_json = r.payload_json;
  attempts = r.attempts;
  reason = reason;
}

-- The INSERT into `dead_letter` and the DELETE, with the counter.
unfoldable pub bury : ℕ → String → Row → Spool → Spool
bury now reason r s = record s {
  pending = delete_row r.id s.pending;
  dead = s.dead ++ dead_of now reason r ∷ [];
  stats = record (s.stats) { poison = s.stats.poison + 1 };
}

pub leased : Row → Event → LeasedEvent
leased r event = record {
  row_id = r.id;
  event = event;
  attempts = r.attempts + 1;
  event_id = r.event_id;
  org_id = r.org_id;
}

-- One round of the loop of `lease`.
pub lease_row : Codec → ℕ → Row → Spool → Spool × Option LeasedEvent
unfolding leased bury
lease_row codec now r s = elim (codec.loads r.payload_json) [
  | none ↦ (bury now "json_parse" r s, none)
  | some event ↦ (
    record s { pending = set_lease (now + s.lease_ttl_ms) 1 r.id s.pending },
    some (leased r event),
  )
]

abbrev pub cons_some {ℓ} : {A : Type ℓ} → Option A → List A → List A
cons_some none xs = xs
cons_some (some x) xs = x ∷ xs

pub lease_rows : Codec → ℕ → List Row → Spool → Spool × List LeasedEvent
lease_rows codec now [] s = (s, [])
lease_rows codec now (r ∷ rs) s =
    let (s', item) = lease_row codec now r s in
    let (s'', items) = lease_rows codec now rs s' in (s'', cons_some item items)

-- `lease(limit=…)`.
pub lease : Codec → Spool → ℕ → ℕ → Spool × List LeasedEvent
lease codec s now limit = lease_rows codec now (first_due now limit s.pending) s

-- `ack(row_ids)`: one DELETE … WHERE id IN (…).
pub ack : Spool → List ℕ → Spool
ack s [] = s
ack s (i ∷ ids) = record s {
  pending = keep (λ r. not (any (λ j. r.id == j) (i ∷ ids))) s.pending;
  stats = record (s.stats) { acked = s.stats.acked + length (i ∷ ids) };
}

-- One round of the loop of `nack`.
pub nack_row : ℕ → String → ℕ → Spool → Spool
unfolding bury
nack_row now reason i s = elim (find_row i s.pending) [
  | none ↦ s
  | some r ↦ if leb s.max_attempts r.attempts then bury now reason r s else record s {
    pending = set_lease 0 0 i s.pending;
    stats = record (s.stats) { nacked = s.stats.nacked + 1 };
  }
]

-- `nack(row_ids, reason=…)`.
pub nack : Spool → ℕ → String → List ℕ → Spool
nack s now reason [] = s
nack s now reason (i ∷ ids) = nack (nack_row now reason i s) now reason ids

-- `drain(limit=…)`: lease, then acknowledge at once.
pub drain : Codec → Spool → ℕ → ℕ → Spool × List Event
drain codec s now limit =
    let (s', items) = lease codec s now limit in
    (ack s' (map (λ i. i.row_id) items), map (λ i. i.event) items)

-- `pending_count()` and `dead_letter_count()`.
pub pending_count : Spool → ℕ
pending_count s = count_pending s.pending

pub dead_letter_count : Spool → ℕ
dead_letter_count s = length s.dead
