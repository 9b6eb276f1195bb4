-- ===== src/RetryQueue/Delivery.antt =====
-- What a lease hands out, and where a row goes that is given back (kazenai/retry_queue.py).
use kazenai_core.Base.{
  zero, ℕ, suc, ◌+◌, ◌≤◌, ◌<◌, ◌≡◌, refl, ap, ◌∙◌, inl, inr, Bool, true, Option, none, some, List,
  [], ◌∷◌, ◌++◌, arith, String, leb, keep, take, length, length-append, length-keep-le,
  length-take-le, Bool-cases, Option-cases,
}
use kazenai_core.RetryQueue.Table.{Row, find_row, set_lease, delete_row, first_due, is_due}
use kazenai_core.RetryQueue.Admission.{Admitted, added, refused, enqueue-Admitted}
use kazenai_core.RetryQueue.Identity.{find_row-id}
use kazenai_core.RetryQueue.{
  Event, Codec, Spool, Outcome, applied, LeasedEvent, clean, or_else, cons_some, leased, dead_of,
  new_row, enqueue, bury, lease_row, lease_rows, lease, nack_row,
}

-- What a lease makes of a row: nothing if its text does not parse.
pub item_of : Codec → Row → Option LeasedEvent
item_of codec r = elim (codec.loads r.payload_json) [
  | none ↦ none
  | some event ↦ some (leased r event)
]

pub items_of : Codec → List Row → List LeasedEvent
items_of codec [] = []
items_of codec (r ∷ rows) = cons_some (item_of codec r) (items_of codec rows)

lease_rows-items_of :
    (codec : Codec) (now : ℕ) (rows : List Row) (s : Spool)
    → (lease_rows codec now rows s).1 ≡ items_of codec rows
unfolding lease_rows items_of lease_row item_of
lease_rows-items_of codec now [] s = refl
lease_rows-items_of codec now (r ∷ rows) s =
    let later = lease_rows-items_of codec now rows (lease_row codec now r s).0 in
    ap (cons_some (lease_row codec now r s).1) later
    ∙ ap (λ x. cons_some x (items_of codec rows)) (item r s)
  where
    item : (r : Row) (s : Spool) → (lease_row codec now r s).1 ≡ item_of codec r
    item r s = elim (Option-cases (codec.loads r.payload_json)) [
      | inl e ↦ rw (e, lease_row, item_of)
      | inr (event, e) ↦ rw (e, lease_row, item_of)
    ]

length-items_of-le : (codec : Codec) (rows : List Row) → length (items_of codec rows) ≤ length rows
unfolding items_of
length-items_of-le codec [] = omega arith
length-items_of-le codec (r ∷ rows) = ground (arith, length-items_of-le codec rows)

items_of-append :
    (codec : Codec) (xs ys : List Row)
    → items_of codec (xs ++ ys) ≡ items_of codec xs ++ items_of codec ys
unfolding items_of
items_of-append codec [] ys = refl
items_of-append codec (r ∷ xs) ys = ground (arith, items_of-append codec xs ys)

-- A lease hands out the rows that are due and parse, in the order of their keys, and at most
-- `limit` of them.
pub lease-items_of :
    (codec : Codec) (s : Spool) (now limit : ℕ)
    → ((lease codec s now limit).1 ≡ items_of codec (first_due now limit s.pending))
      × (length (lease codec s now limit).1 ≤ limit)
unfolding lease first_due
lease-items_of codec s now limit =
    let e = lease_rows-items_of codec now (first_due now limit s.pending) s in
    (
      e,
      rw e (
          omega (
            arith,
            length-items_of-le codec (first_due now limit s.pending),
            length-take-le limit (keep (is_due now) s.pending),
          )),
    )

take_of_le {ℓ} :
    {A : Type ℓ} (limit : ℕ) (items : List A) → length items ≤ limit → take limit items ≡ items
take_of_le zero [] room = refl
take_of_le (suc limit) [] room = refl
take_of_le zero (item ∷ items) room = absurd (omega arith)
take_of_le (suc limit) (item ∷ items) room =
    let rest = take_of_le limit items (omega arith) in ap (λ kept. item ∷ kept) rest

keep-append {ℓ} :
    {A : Type ℓ} (p : A → Bool) (xs ys : List A) → keep p (xs ++ ys) ≡ keep p xs ++ keep p ys
keep-append p [] ys = refl
keep-append p (x ∷ xs) ys = ground (arith, keep-append p xs ys)

first_due-append :
    (now limit : ℕ) (rows : List Row) (r : Row)
    → is_due now r ≡ true
    → length (rows ++ r ∷ []) ≤ limit
    → first_due now limit (rows ++ r ∷ []) ≡ keep (is_due now) rows ++ r ∷ []
unfolding first_due
first_due-append now limit rows r due h =
    take_of_le limit (keep (is_due now) (rows ++ r ∷ []))
      (omega (arith, length-keep-le (is_due now) (rows ++ r ∷ [])))
    ∙ keep-append (is_due now) rows (r ∷ [])
    ∙ rw due

items_of-parsed :
    (codec : Codec) (r : Row) (event : Event)
    → codec.loads r.payload_json ≡ some event
    → items_of codec (r ∷ []) ≡ leased r event ∷ []
unfolding items_of item_of
items_of-parsed codec r event e = rw (e, item_of)

-- A lease that is wider than the pending rows, of a spool that has just admitted an event, hands the
-- event out last, after the due events before it: with its own content, under the key the spool was to
-- give next, at attempt one, with its stripped event id, and with its stripped organization or, where
-- that is empty, the spool's. The codec reads back what it wrote of the event.
pub lease-enqueue :
    (codec : Codec) (s : Spool) (now disk later limit : ℕ) (event : Event)
    → codec.loads (codec.dumps event) ≡ some event
    → (enqueue codec s now disk event).1 ≡ applied
    → length s.pending < limit
    → (lease codec (enqueue codec s now disk event).0 later limit).1
      ≡ items_of codec (keep (is_due later) s.pending)
        ++ record {
          row_id = s.next_id;
          event = event;
          attempts = 1;
          event_id = clean event.event_id;
          org_id = or_else (clean event.org_id) s.config.org_id;
        }
          ∷ []
unfolding new_row leased
lease-enqueue codec s now disk later limit event law a room =
    delivered (enqueue-Admitted codec s now disk event) a
  where
    delivered :
        {r : Spool × Outcome}
        → Admitted codec s now event r
        → r.1 ≡ applied
        → (lease codec r.0 later limit).1
          ≡ items_of codec (keep (is_due later) s.pending)
            ++ leased (new_row codec s now event) event ∷ []
    delivered (added {t} free new p n d c) o =
        (lease-items_of codec t later limit).0
        ∙ ap (λ k. items_of codec (first_due later limit k)) p
        ∙ ap (items_of codec) (
            first_due-append later limit s.pending (new_row codec s now event) (ground arith)
              (omega (arith, length-append s.pending (new_row codec s now event ∷ []))))
        ∙ items_of-append codec (keep (is_due later) s.pending) (new_row codec s now event ∷ [])
        ∙ ap (λ k. items_of codec (keep (is_due later) s.pending) ++ k)
            (items_of-parsed codec (new_row codec s now event) event law)
    delivered (refused o p n d c) a' = absurd (o a')

-- The three ends of a row that is given back: it is not there; it has used up its attempts, and
-- moves to the dead letters; or it is due again at once, its attempts kept.
pub data GivenBack (s : Spool) (now i : ℕ) (reason : String) (t : Spool) : Type 0 where
  unknown : find_row i s.pending ≡ none → t ≡ s → GivenBack s now i reason t
  buried :
      (r : Row)
      → find_row i s.pending ≡ some r
      → s.max_attempts ≤ r.attempts
      → t.pending ≡ delete_row i s.pending
      → t.dead ≡ s.dead ++ dead_of now reason r ∷ []
      → GivenBack s now i reason t
  released :
      (r : Row)
      → find_row i s.pending ≡ some r
      → r.attempts < s.max_attempts
      → find_row i t.pending ≡ some (record r { lease_until_ms = 0; attempts = r.attempts + 0 })
      → t.dead ≡ s.dead
      → GivenBack s now i reason t

find_row-set_lease :
    (until more i : ℕ) (rows : List Row) (r : Row)
    → find_row i rows ≡ some r
    → find_row i (set_lease until more i rows)
      ≡ some (record r { lease_until_ms = until; attempts = r.attempts + more })
unfolding find_row set_lease
find_row-set_lease until more i [] r e = absurd (ground arith)
find_row-set_lease until more i (x ∷ rows) r e =
    ground (arith, find_row-set_lease until more i rows r)

-- Each round of `nack` ends in one of three ways: the row is not there and nothing changes; it has
-- used up its attempts and moves to the dead letters; or it is due again at once, its attempts
-- kept.
pub nack_row-GivenBack :
    (s : Spool) (now i : ℕ) (reason : String) → GivenBack s now i reason (nack_row now reason i s)
unfolding nack_row bury
nack_row-GivenBack s now i reason = elim (Option-cases (find_row i s.pending)) [
  | inl e ↦ rw (e, nack_row) (unknown e refl)
  | inr (r, e) ↦
      let same = find_row-id i s.pending r e in
      elim (Bool-cases (leb s.max_attempts r.attempts)) [
        | inl full ↦
            rw (e, full, nack_row)
              (buried r e (ground arith) (ap (λ k. delete_row k s.pending) same) refl)
        | inr room ↦
            rw (e, room, nack_row)
              (released r e (ground arith) (find_row-set_lease 0 0 i s.pending r e) refl)
      ]
]
