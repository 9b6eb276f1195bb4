-- ===== src/RetryQueue/Identity.antt =====
-- Where an event is, across every operation of kazenai/retry_queue.py.
use kazenai_core.Base.{
  sym, subst, ℕ, suc, ◌+◌, ◌≤◌, ◌<◌, ◌≡◌, refl, ◌∙◌, ◌≢◌, inl, inr, not, some, List, [], ◌∷◌, map,
  arith, String, ◌==◌, leb, any, count, count-append, count-keep-le, All, Bool-cases, Option-cases,
}
use kazenai_core.RetryQueue.Table.{Row, row_has, dead_has, find_row, set_lease, first_due}
use kazenai_core.RetryQueue.Rows.{
  Within, Within-keep, Within-delete, Within-set_lease, count-delete, count-set_lease,
  find_row-delete_ne, find_row-set_lease_ne, Found, first_due-Found, first_due-Within,
}
use kazenai_core.RetryQueue.{
  Codec, Spool, dead_of, bury, lease_row, lease_rows, lease, ack, nack_row, nack, drain,
}

-- How many rows of the two tables carry an event id.
abbrev pub tally : String → Spool → ℕ
tally e s = count (row_has e) s.pending + count (dead_has e) s.dead

-- Keys ascend below the next one, and no event id stands in two rows of the two tables.
pub record IsSound (s : Spool) : Type 0 where
  pub ordered : Within 0 s.next_id s.pending
  pub once : (e : String) → tally e s ≤ 1

pub bury-tally :
    (e : String) (now : ℕ) (reason : String) (r : Row) (s : Spool)
    → Within 0 s.next_id s.pending
    → Found s.pending r
    → tally e (bury now reason r s) ≡ tally e s
unfolding bury
bury-tally e now reason r s w f = ground (
  arith,
  count-delete (row_has e) r.id 0 s.next_id s.pending r w f,
  count-append (dead_has e) s.dead (dead_of now reason r ∷ []),
)

module _ (codec : Codec) (now : ℕ) (r : Row) (s : Spool) where
  pub lease_row_cases {ℓ} :
      (P : Spool → Type ℓ)
      → P (bury now "json_parse" r s)
      → P (record s { pending = set_lease (now + s.lease_ttl_ms) 1 r.id s.pending })
      → P (lease_row codec now r s).0
  unfolding lease_row
  lease_row_cases P buried kept = elim (Option-cases (codec.loads r.payload_json)) [
    | inl e ↦ rw (e, lease_row) buried
    | inr (event, e) ↦ rw (e, lease_row) kept
  ]

  lease_row-tally :
      (e : String)
      → Within 0 s.next_id s.pending
      → Found s.pending r
      → tally e (lease_row codec now r s).0 ≡ tally e s
  lease_row-tally e w f =
      lease_row_cases (λ t. tally e t ≡ tally e s) (bury-tally e now "json_parse" r s w f)
        (omega (arith, count-set_lease e (now + s.lease_ttl_ms) 1 r.id s.pending))

  lease_row-Within :
      Within 0 s.next_id s.pending
      → Within 0 (lease_row codec now r s).0.next_id (lease_row codec now r s).0.pending
  unfolding bury
  lease_row-Within w =
      lease_row_cases (λ t. Within 0 t.next_id t.pending)
        (Within-delete r.id 0 s.next_id s.pending w)
        (Within-set_lease (now + s.lease_ttl_ms) 1 r.id 0 s.next_id s.pending w)

  lease_row-Found :
      (x : Row) → r.id < x.id → Found s.pending x → Found (lease_row codec now r s).0.pending x
  unfolding bury
  lease_row-Found x h f =
      let apart : r.id ≢ x.id = omega arith in
      lease_row_cases (λ t. Found t.pending x) (find_row-delete_ne r.id x.id s.pending apart ∙ f)
        (find_row-set_lease_ne (now + s.lease_ttl_ms) 1 r.id x.id s.pending apart ∙ f)

-- The rows that are still to be leased, in the order of their keys.
record Awaits (lo hi : ℕ) (rows : List Row) (s : Spool) : Type 0 where
  ordered : Within 0 s.next_id s.pending
  ascending : Within lo hi rows
  found : All (Found s.pending) rows

lease_row-Awaits :
    (codec : Codec) (now lo hi : ℕ) (r : Row) (rows : List Row) (s : Spool)
    → Awaits lo hi (r ∷ rows) s
    → Awaits (suc r.id) hi rows (lease_row codec now r s).0
lease_row-Awaits codec now lo hi r rows s a = record {
  ordered = lease_row-Within codec now r s a.ordered;
  ascending = a.ascending.1;
  found = later (suc r.id) rows (omega arith) a.ascending.1 a.found.1;
}
  where
    later :
        (k : ℕ) (xs : List Row)
        → r.id < k
        → Within k hi xs
        → All (Found s.pending) xs
        → All (Found (lease_row codec now r s).0.pending) xs
    later k [] h w f = tt
    later k (x ∷ xs) h w f = (
      lease_row-Found codec now r s x (omega arith) f.0,
      later (suc x.id) xs (omega arith) w.1 f.1,
    )

lease_rows-tally :
    (codec : Codec) (e : String) (now lo hi : ℕ) (rows : List Row) (s : Spool)
    → Awaits lo hi rows s
    → (tally e (lease_rows codec now rows s).0 ≡ tally e s)
      × Within 0 (lease_rows codec now rows s).0.next_id (lease_rows codec now rows s).0.pending
unfolding lease_rows
lease_rows-tally codec e now lo hi [] s a = (refl, a.ordered)
lease_rows-tally codec e now lo hi (r ∷ rows) s a =
    let later =
      lease_rows-tally codec e now (suc r.id) hi rows (lease_row codec now r s).0
        (lease_row-Awaits codec now lo hi r rows s a) in
    (later.0 ∙ lease_row-tally codec now r s e a.ordered a.found.0, later.1)

pub lease-tally :
    (codec : Codec) (e : String) (s : Spool) (now limit : ℕ)
    → Within 0 s.next_id s.pending
    → (tally e (lease codec s now limit).0 ≡ tally e s)
      × Within 0 (lease codec s now limit).0.next_id (lease codec s now limit).0.pending
unfolding lease
lease-tally codec e s now limit w =
    lease_rows-tally codec e now 0 s.next_id (first_due now limit s.pending) s (record {
      ordered = w;
      ascending = first_due-Within now limit s.next_id s.pending w;
      found = first_due-Found now limit s.next_id s.pending w;
    })

pub find_row-id : (i : ℕ) (rs : List Row) (r : Row) → find_row i rs ≡ some r → r.id ≡ i
unfolding find_row
find_row-id i [] r h = absurd (ground arith)
find_row-id i (x ∷ rs) r h = ground (arith, find_row-id i rs r)

-- What holds of the two ways in which a row goes back holds after any round of `nack`.
pub nack_row_cases {ℓ} :
    (P : Spool → Type ℓ) (now i : ℕ) (reason : String) (s : Spool)
    → P s
    → ((r : Row) → Found s.pending r → P (bury now reason r s))
    → P (record s {
      pending = set_lease 0 0 i s.pending;
      stats = record (s.stats) { nacked = s.stats.nacked + 1 };
    })
    → P (nack_row now reason i s)
unfolding nack_row
nack_row_cases P now i reason s missing buried released =
    elim (Option-cases (find_row i s.pending)) [
      | inl e ↦ rw (e, nack_row) missing
      | inr (r, e) ↦
          let same = find_row-id i s.pending r e in
          let found = subst (λ k. find_row k s.pending ≡ some r) (sym same) e in
          elim (Bool-cases (leb s.max_attempts r.attempts)) [
            | inl full ↦ rw (e, full, nack_row) (buried r found)
            | inr room ↦ rw (e, room, nack_row) released
          ]
    ]

nack_row-tally :
    (e : String) (now i : ℕ) (reason : String) (s : Spool)
    → Within 0 s.next_id s.pending
    → (tally e (nack_row now reason i s) ≡ tally e s)
      × Within 0 (nack_row now reason i s).next_id (nack_row now reason i s).pending
unfolding bury
nack_row-tally e now i reason s w =
    nack_row_cases (λ t. (tally e t ≡ tally e s) × Within 0 t.next_id t.pending) now i reason s
      (refl, w)
      (λ r f. (bury-tally e now reason r s w f, Within-delete r.id 0 s.next_id s.pending w))
      (
        omega (arith, count-set_lease e 0 0 i s.pending),
        Within-set_lease 0 0 i 0 s.next_id s.pending w,
      )

pub nack-tally :
    (e : String) (s : Spool) (now : ℕ) (reason : String) (ids : List ℕ)
    → Within 0 s.next_id s.pending
    → (tally e (nack s now reason ids) ≡ tally e s)
      × Within 0 (nack s now reason ids).next_id (nack s now reason ids).pending
unfolding nack
nack-tally e s now reason [] w = (refl, w)
nack-tally e s now reason (i ∷ ids) w =
    let one = nack_row-tally e now i reason s w in
    let rest = nack-tally e (nack_row now reason i s) now reason ids one.1 in
    (rest.0 ∙ one.0, rest.1)

pub ack-tally-le :
    (e : String) (s : Spool) (ids : List ℕ)
    → Within 0 s.next_id s.pending
    → (tally e (ack s ids) ≤ tally e s) × Within 0 (ack s ids).next_id (ack s ids).pending
unfolding ack
ack-tally-le e s [] w = (omega arith, w)
ack-tally-le e s (i ∷ ids) w = (
  omega (arith, count-keep-le (row_has e) (λ r. not (any (λ j. r.id == j) (i ∷ ids))) s.pending),
  Within-keep _ 0 s.next_id s.pending w,
)

pub drain-tally-le :
    (codec : Codec) (e : String) (s : Spool) (now limit : ℕ)
    → Within 0 s.next_id s.pending
    → (tally e (drain codec s now limit).0 ≤ tally e s)
      × Within 0 (drain codec s now limit).0.next_id (drain codec s now limit).0.pending
unfolding drain
drain-tally-le codec e s now limit w =
    let (t, items) = lease codec s now limit in
    let leased = lease-tally codec e s now limit w in
    let acked = ack-tally-le e t (map (λ i. i.row_id) items) leased.1 in
    (omega (arith, acked.0, leased.0), acked.1)
