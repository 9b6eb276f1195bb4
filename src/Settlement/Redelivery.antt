-- ===== src/Settlement/Redelivery.antt =====
-- A whole flush: kazenai/spine/settle_queue.py, `_flush_locked` over the records of a listing.
use kazenai_core.Base.{
  ℕ, ◌<◌, ◌≡◌, refl, sym, subst, ◌∙◌, true, false, not, ◌&&◌, Option, none, some, List, [], ◌∷◌,
  String, arith, ltb, str_eq, eq_iff, if_cases, All,
}
use mathlib.Core.List.{Memᴰ}
use kazenai_core.Base.Text.{is_empty, or_text, rstrip_slash}
use kazenai_core.Base.Dir.{read}
use kazenai_core.SettleQueue.Intent.{intent_fingerprint}
use kazenai_core.SettleQueue.Claims.{journaled, Record, Quarantined, Queue, Setup}
use kazenai_core.SettleQueue.Files.{
  retried, read-schedule_retry, read-quarantine, read-ack, ack-quarantine,
  schedule_retry-quarantine, quarantine-grows,
}
use kazenai_core.SettleQueue.{schedule_retry, quarantine, ack}
use kazenai_core.Settlement.{
  Posted, returned, rejected, retry, not_sent, Outside, Tally, flush_clock, flush_posted,
  flush_item, flush_items, rejection_text,
}
use kazenai_core.Settlement.Flush.{
  verdict, flush-verdict, Fate, waits, delivered, kept, set_aside, flush_item-Fate,
}

-- What has become of a record of the listing: it waits as it was; it was acknowledged and is gone;
-- it is kept with one more attempt; or it is gone and stands among the files set aside.
pub data After (out : Outside) (name : String) (r : Record) (q : Queue) : Type 0 where
  waiting :
      out.now < r.next_attempt_at → read name q.pending ≡ some (journaled r) → After out name r q
  gone :
      verdict r.body.event (out.answer r) ≡ returned true
      → read name q.pending ≡ none
      → After out name r q
  later :
      (after : Option ℕ)
      → read name q.pending ≡ some (journaled (retried out.now (out.draw r) after r))
      → After out name r q
  aside :
      (reason : String)
      → read name q.pending ≡ none
      → Memᴰ (record { name = name; reason = reason; file = journaled r }) q.quarantine
      → After out name r q

Fate→After :
    {out : Outside} {name : String} {r : Record} {q : Queue} {t : Tally} {w : Queue × Tally}
    → read name q.pending ≡ some (journaled r)
    → Fate out name r q t w
    → After out name r w.0
Fate→After there (waits h) = waiting h there
Fate→After there (delivered said e) = gone said e
Fate→After there (kept after e) = later after e
Fate→After there (set_aside reason e listed) = aside reason e (rw listed (Memᴰ.head refl))

-- Another record's file is as it was, and nothing set aside is lost.
pub Keeps : String → Queue → Queue → Type 0
Keeps name q q' =
    ((other : String) → str_eq name other ≡ false → read other q'.pending ≡ read other q.pending)
    × ((x : Quarantined) → Memᴰ x q.quarantine → Memᴰ x q'.quarantine)

Keeps-After :
    {out : Outside} (name : String) {other : String} {r : Record} {q q' : Queue}
    → str_eq name other ≡ false
    → Keeps name q q'
    → After out other r q
    → After out other r q'
unfolding Keeps
Keeps-After name {other} apart (same, more) (waiting h e) = waiting h (same other apart ∙ e)
Keeps-After name {other} apart (same, more) (gone said e) = gone said (same other apart ∙ e)
Keeps-After name {other} apart (same, more) (later after e) = later after (same other apart ∙ e)
Keeps-After name {other} apart (same, more) (aside reason e m) =
    aside reason (same other apart ∙ e) (more _ m)

Keeps-same : (name : String) (q : Queue) → Keeps name q q
unfolding Keeps
Keeps-same name q = (λ other apart. refl, λ x m. m)

module _ (setup : Setup) (out : Outside) (name : String) (r : Record) (q : Queue)
    (named : is_empty name ≡ false) where
  retry-Keeps :
      (after : Option ℕ) → Keeps name q (schedule_retry q out.now (out.draw r) after name r)
  unfolding Keeps
  retry-Keeps after = (
    λ other apart.
        read-schedule_retry q out.now (out.draw r) after name other r named ∙ rw apart refl,
    λ x m. subst (Memᴰ x) (sym (schedule_retry-quarantine q out.now (out.draw r) after name r)) m,
  )

  quarantine-Keeps : (reason : String) → Keeps name q (quarantine q name reason)
  unfolding Keeps
  quarantine-Keeps reason = (
    λ other apart. read-quarantine q name reason other ∙ rw apart refl,
    quarantine-grows q name reason,
  )

  ack-Keeps : (fp : String) → Keeps name q (ack setup q name fp true).0
  unfolding Keeps
  ack-Keeps fp = (
    λ other apart. read-ack setup q name fp other true apart,
    λ x m. subst (Memᴰ x) (sym (ack-quarantine setup q name fp true)) m,
  )

  posted-Keeps :
      (fp : String) (posted : Posted) (t : Tally)
      → Keeps name q (flush_posted setup out fp name r (q, posted) t).0
  unfolding flush_posted
  posted-Keeps fp (returned true) t =
      if_cases (λ (w : Queue × Tally). Keeps name q w.0) (ack setup q name fp true).1
        (λ _. ack-Keeps fp) (λ _. ack-Keeps fp)
  posted-Keeps fp (returned false) t = retry-Keeps none
  posted-Keeps fp (rejected reason) t = quarantine-Keeps (rejection_text reason)
  posted-Keeps fp (retry after) t = retry-Keeps after
  posted-Keeps fp not_sent t = retry-Keeps none

  item-Keeps :
      (base : String) (t : Tally) → Keeps name q (flush_item setup out base (name, r) (q, t)).0
  unfolding flush_item
  item-Keeps base t =
      if_cases (λ (w : Queue × Tally). Keeps name q w.0) (ltb out.now r.next_attempt_at)
        (λ _. Keeps-same name q)
        (λ _.
          if_cases (λ (w : Queue × Tally). Keeps name q w.0) (is_empty (rstrip_slash base))
            (λ _. retry-Keeps none)
            (λ _.
              if_cases (λ (w : Queue × Tally). Keeps name q w.0)
                (not (is_empty r.base_url)
                  && not
                      (str_eq (out.destination r.base_url) (out.destination (rstrip_slash base))))
                (λ _. quarantine-Keeps "destination_mismatch")
                (λ _.
                  rw
                    (flush-verdict setup (flush_clock out) q (rstrip_slash base)
                      (or_text r.org_id r.body.org_id) r.body (out.answer r))
                    (posted-Keeps
                      (or_text r.fingerprint (
                        intent_fingerprint setup.digests r.body (or_text r.org_id r.body.org_id)
                          (rstrip_slash base)))
                      (verdict r.body.event (out.answer r)) t))))

-- The records of a listing, each in the journal under its own name, with a name and a fingerprint.
unfoldable pub Pending : List (String × Record) → Queue → Type 0
Pending [] q = Unit
Pending ((name, r) ∷ items) q =
    (read name q.pending ≡ some (journaled r))
    × (is_empty name ≡ false)
    × (is_empty r.fingerprint ≡ false)
    × All (λ (item : String × Record). str_eq name item.0 ≡ false) items
    × Pending items q

Keeps-Pending :
    (name : String) (q q' : Queue) (items : List (String × Record))
    → Keeps name q q'
    → All (λ (item : String × Record). str_eq name item.0 ≡ false) items
    → Pending items q
    → Pending items q'
unfolding Pending Keeps
Keeps-Pending name q q' [] keeps apart ok = tt
Keeps-Pending name q q' ((other, r) ∷ items) keeps (first, apart) (there, named, print, alone, ok) =
    (keeps.0 other first ∙ there, named, print, alone, Keeps-Pending name q q' items keeps apart ok)

pub apart-sym : (a b : String) → str_eq a b ≡ false → str_eq b a ≡ false
apart-sym a b h = ground (arith, eq_iff a b, eq_iff b a)

-- What has become of a record is not changed by the rest of the flush.
items-After :
    (setup : Setup) (out : Outside) (base name : String) (r : Record)
    (items : List (String × Record)) (w : Queue × Tally)
    → All (λ (item : String × Record). str_eq name item.0 ≡ false) items
    → Pending items w.0
    → After out name r w.0
    → After out name r (flush_items setup out base items w).0
unfolding flush_items Pending
items-After setup out base name r [] w apart ok done = done
items-After setup out base name r ((other, s) ∷ items) w (first, apart)
      (there, named, print, alone, ok) done =
    let keeps = item-Keeps setup out other s w.0 named base w.1 in
    items-After setup out base name r items (flush_item setup out base (other, s) w) apart
      (Keeps-Pending other w.0 (flush_item setup out base (other, s) w).0 items keeps alone ok)
      (Keeps-After other (apart-sym name other first) keeps done)

-- After a flush of records that are in the journal under different names, each with a name and a
-- fingerprint that are not empty, none is lost: each waits for its time as it was, was acknowledged
-- by the server and is gone, is kept with one more attempt, or is set aside with a reason.
pub flush_items-After :
    (setup : Setup) (out : Outside) (base : String) (items : List (String × Record)) (q : Queue)
    (t : Tally)
    → Pending items q
    → All
        (λ (item : String × Record).
          After out item.0 item.1 (flush_items setup out base items (q, t)).0)
        items
unfolding flush_items Pending
flush_items-After setup out base [] q t ok = tt
flush_items-After setup out base ((name, r) ∷ items) q t (there, named, print, alone, ok) =
    let w = flush_item setup out base (name, r) (q, t) in
    let keeps = item-Keeps setup out name r q named base t in
    let rest = Keeps-Pending name q w.0 items keeps alone ok in
    (
      items-After setup out base name r items w alone rest
          (Fate→After there (flush_item-Fate setup out name r q t there named base print)),
      flush_items-After setup out base items w.0 w.1 rest,
    )
