-- ===== src/RetryQueue/Leases.antt =====
-- A leased row stays with its holder until the lease runs out or is given back
-- (kazenai/retry_queue.py, `lease` and `nack`).
use kazenai_core.Base.{
  ap, subst, ==_iff, All-take, ℕ, suc, ◌+◌, ◌<◌, ◌≡◌, refl, sym, ◌∙◌, inl, inr, Bool, true, false,
  not, ◌||◌, List, [], ◌∷◌, arith, String, leb, ◌==◌, keep, any, All, Bool-cases, Option-cases,
}
use kazenai_core.RetryQueue.Table.{Row, delete_row, set_lease, is_due, first_due}
use kazenai_core.RetryQueue.Rows.{Within-le, Within, first_due-Within}
use kazenai_core.RetryQueue.Identity.{lease_row_cases}
use kazenai_core.RetryQueue.{
  Codec, Spool, LeasedEvent, cons_some, bury, leased, lease_row, lease_rows, lease,
}

-- Whether a list of leased events names a row.
abbrev pub holds : ℕ → List LeasedEvent → Bool
holds i items = any (λ x. x.row_id == i) items

abbrev pub guarded : ℕ → ℕ → Row → Bool
guarded deadline i r = not (r.id == i) || leb deadline r.lease_until_ms

-- The row with a key, where there is one, is leased until a time at least.
abbrev pub IsHeld : ℕ → ℕ → List Row → Type 0
IsHeld deadline i = All (λ r. guarded deadline i r ≡ true)

-- A list of rows does not name a key.
abbrev pub Lacks : ℕ → List Row → Type 0
Lacks i = All (λ r. (r.id == i) ≡ false)

IsHeld-delete : (d i j : ℕ) (rs : List Row) → IsHeld d i rs → IsHeld d i (delete_row j rs)
unfolding delete_row
IsHeld-delete d i j [] h = tt
IsHeld-delete d i j (r ∷ rs) h = ground (arith, IsHeld-delete d i j rs h.1)

IsHeld-delete_self : (d i : ℕ) (rs : List Row) → IsHeld d i (delete_row i rs)
unfolding delete_row
IsHeld-delete_self d i [] = tt
IsHeld-delete_self d i (r ∷ rs) = ground (arith, IsHeld-delete_self d i rs)

IsHeld-set_lease_ne :
    (d i until more j : ℕ) (rs : List Row)
    → (j == i) ≡ false
    → IsHeld d i rs
    → IsHeld d i (set_lease until more j rs)
unfolding set_lease
IsHeld-set_lease_ne d i until more j [] n h = tt
IsHeld-set_lease_ne d i until more j (r ∷ rs) n h =
    ground (arith, IsHeld-set_lease_ne d i until more j rs n h.1)

IsHeld-set_lease_self : (d i more : ℕ) (rs : List Row) → IsHeld d i (set_lease d more i rs)
unfolding set_lease
IsHeld-set_lease_self d i more [] = tt
IsHeld-set_lease_self d i more (r ∷ rs) = ground (arith, IsHeld-set_lease_self d i more rs)

Lacks-above : (i lo hi : ℕ) (rs : List Row) → i < lo → Within lo hi rs → Lacks i rs
Lacks-above i lo hi [] h w = tt
Lacks-above i lo hi (r ∷ rs) h w = (ground arith, Lacks-above i (suc r.id) hi rs (omega arith) w.1)

-- What is leased until later than `now` is not selected at `now`.
first_due-Lacks :
    (now limit d i : ℕ) (rs : List Row) → now < d → IsHeld d i rs → Lacks i (first_due now limit rs)
unfolding first_due
first_due-Lacks now limit d i rs h k =
    All-take (λ r. (r.id == i) ≡ false) limit (keep (is_due now) rs) (keep-Lacks rs k)
  where
    keep-Lacks : (xs : List Row) → IsHeld d i xs → Lacks i (keep (is_due now) xs)
    keep-Lacks [] g = tt
    keep-Lacks (x ∷ xs) g = let rest = keep-Lacks xs g.1 in ground arith

-- Held until a time, with a key that was given out.
pub record IsKept (deadline i : ℕ) (s : Spool) : Type 0 where
  pub held : IsHeld deadline i s.pending
  pub older : i < s.next_id

pub bury-IsKept :
    (now d i : ℕ) (reason : String) (r : Row) (s : Spool)
    → IsKept d i s
    → IsKept d i (bury now reason r s)
unfolding bury
bury-IsKept now d i reason r s h = record {
  held = IsHeld-delete d i r.id s.pending h.held;
  older = h.older;
}

pub set_lease-IsKept :
    (d i until more j : ℕ) (s : Spool)
    → (j == i) ≡ false
    → IsKept d i s
    → IsKept d i (record s { pending = set_lease until more j s.pending })
set_lease-IsKept d i until more j s n h = record {
  held = IsHeld-set_lease_ne d i until more j s.pending n h.held;
  older = h.older;
}

lease_row-config :
    (codec : Codec) (now : ℕ) (r : Row) (s : Spool) → (lease_row codec now r s).0.config ≡ s.config
unfolding bury
lease_row-config codec now r s = lease_row_cases codec now r s (λ t. t.config ≡ s.config) refl refl

lease_row-holds :
    (codec : Codec) (now i : ℕ) (r : Row) (items : List LeasedEvent) (s : Spool)
    → (r.id == i) ≡ false
    → holds i (cons_some (lease_row codec now r s).1 items) ≡ holds i items
unfolding lease_row leased
lease_row-holds codec now i r items s n = elim (Option-cases (codec.loads r.payload_json)) [
  | inl e ↦ rw (e, lease_row)
  | inr (event, e) ↦ rw (e, lease_row) (ground arith)
]

-- A lease that does not select a row leaves it with its holder, and hands it to nobody.
lease_rows_other :
    (codec : Codec) (now d i : ℕ) (rows : List Row) (s : Spool)
    → Lacks i rows
    → IsKept d i s
    → IsKept d i (lease_rows codec now rows s).0 × (holds i (lease_rows codec now rows s).1 ≡ false)
unfolding lease_rows
lease_rows_other codec now d i [] s l h = (h, refl)
lease_rows_other codec now d i (r ∷ rows) s l h =
    let s' = (lease_row codec now r s).0 in
    let kept =
      lease_row_cases codec now r s (IsKept d i) (bury-IsKept now d i "json_parse" r s h)
        (set_lease-IsKept d i (now + s.lease_ttl_ms) 1 r.id s l.0 h) in
    let rest = lease_rows_other codec now d i rows s' l.1 kept in
    (rest.0, lease_row-holds codec now i r (lease_rows codec now rows s').1 s l.0 ∙ rest.1)

pub lease_other :
    (codec : Codec) (s : Spool) (now limit d i : ℕ)
    → now < d
    → IsKept d i s
    → IsKept d i (lease codec s now limit).0 × (holds i (lease codec s now limit).1 ≡ false)
unfolding lease
lease_other codec s now limit d i early h =
    lease_rows_other codec now d i (first_due now limit s.pending) s
      (first_due-Lacks now limit d i s.pending early h.held) h

lease_row-IsKept_self :
    (codec : Codec) (now i : ℕ) (r : Row) (s : Spool)
    → r.id ≡ i
    → i < s.next_id
    → IsKept (now + s.lease_ttl_ms) i (lease_row codec now r s).0
unfolding bury
lease_row-IsKept_self codec now i r s e b =
    lease_row_cases codec now r s (IsKept (now + s.lease_ttl_ms) i)
      (record {
        held =
            subst (λ k. IsHeld (now + s.lease_ttl_ms) k (delete_row r.id s.pending)) e
              (IsHeld-delete_self (now + s.lease_ttl_ms) r.id s.pending);
        older = b;
      })
      (record {
        held =
            subst
              (λ k.
                IsHeld (now + s.lease_ttl_ms) k (set_lease (now + s.lease_ttl_ms) 1 r.id s.pending))
              e (IsHeld-set_lease_self (now + s.lease_ttl_ms) r.id 1 s.pending);
        older = b;
      })

lease_row-next_id :
    (codec : Codec) (now : ℕ) (r : Row) (s : Spool)
    → (lease_row codec now r s).0.next_id ≡ s.next_id
unfolding bury
lease_row-next_id codec now r s =
    lease_row_cases codec now r s (λ t. t.next_id ≡ s.next_id) refl refl

lease_rows-IsKept :
    (codec : Codec) (now ttl lo hi i : ℕ) (rows : List Row) (s : Spool)
    → s.lease_ttl_ms ≡ ttl
    → s.next_id ≡ hi
    → Within lo hi rows
    → holds i (lease_rows codec now rows s).1 ≡ true
    → IsKept (now + ttl) i (lease_rows codec now rows s).0
unfolding lease_rows
lease_rows-IsKept codec now ttl lo hi i [] s e n w h = absurd (ground arith)
lease_rows-IsKept codec now ttl lo hi i (r ∷ rows) s e n w h =
    let s' = (lease_row codec now r s).0 in
    elim (Bool-cases (r.id == i)) [
      | inl hit ↦
          let same = (==_iff r.id i).0 hit in
          let below = Within-le (suc r.id) hi rows w.1 in
          let kept =
            subst (λ k. IsKept (now + k) i s') e
              (lease_row-IsKept_self codec now i r s same (omega arith)) in
          (lease_rows_other codec now (now + ttl) i rows s'
            (Lacks-above i (suc r.id) hi rows (omega arith) w.1) kept).0
      | inr miss ↦
          lease_rows-IsKept codec now ttl (suc r.id) hi i rows s'
            (ap (λ c. c.lease_ttl_ms) (lease_row-config codec now r s) ∙ e)
            (lease_row-next_id codec now r s ∙ n) w.1
            (sym (lease_row-holds codec now i r (lease_rows codec now rows s').1 s miss) ∙ h)
    ]

-- A row that a lease hands out is held until the lease runs out.
pub lease-IsKept :
    (codec : Codec) (s : Spool) (now limit i : ℕ)
    → Within 0 s.next_id s.pending
    → holds i (lease codec s now limit).1 ≡ true
    → IsKept (now + s.lease_ttl_ms) i (lease codec s now limit).0
unfolding lease
lease-IsKept codec s now limit i w h =
    lease_rows-IsKept codec now s.lease_ttl_ms 0 s.next_id i (first_due now limit s.pending) s refl
      refl (first_due-Within now limit s.next_id s.pending w) h
