-- ===== src/Transitions/Keys.antt =====
-- The identities and keys of kazenai/lifecycle_transitions.py.
use kazenai_core.Base.{
  ◌≤◌, ◌≡◌, ◌≢◌, refl, sym, ap, ◌∙◌, true, false, none, some, String, if◌then◌else◌, str_eq, eq_iff,
  arith, if_cases, Option-cases, inl, inr,
}
use kazenai_core.Base.Text.{concat, or_text, is_empty}
use kazenai_core.Transitions.{
  AttemptIdentities, Wanted, create_attempt_identities, settle_idempotency_key, settle_event_suffix,
  Payload, SettleCall, build_settle_payload, key_of, payload_of,
}

-- The text after the first character.
tail : String → String
tail String.[] = String.[]
tail (String.◌∷◌ c s) = s

concat-inj : (a b c : String) → concat a b ≡ concat a c → b ≡ c
unfolding concat tail
concat-inj String.[] b c e = e
concat-inj (String.◌∷◌ x a) b c e = concat-inj a b c (ap tail e)

unfoldable event_of : String → String
event_of s =
    if str_eq s "started"
    then "provider_started"
    else if str_eq s "usage"
    then "usage_known"
    else if str_eq s "unknown"
    then "outcome_unknown"
    else if str_eq s "cancelled"
    then "cancel_before_call"
    else "replay_pending"

event_of-hit :
    (e word suffix s : String)
    → event_of suffix ≡ word
    → str_eq e word ≡ true
    → some suffix ≡ some s
    → event_of s ≡ e
event_of-hit e word suffix s known same found =
    let same_suffix : suffix ≡ s = ground arith in
    let same_event : e ≡ word = (eq_iff e word).0 same in
    ap event_of (sym same_suffix) ∙ known ∙ sym same_event

-- Each suffix belongs to one event.
event_of-suffix : (e s : String) → settle_event_suffix e ≡ some s → event_of s ≡ e
unfolding settle_event_suffix event_of
event_of-suffix e s =
    if_cases (λ k. k ≡ some s → event_of s ≡ e) (str_eq e "provider_started")
      (event_of-hit e "provider_started" "started" s refl)
      (λ _.
        if_cases (λ k. k ≡ some s → event_of s ≡ e) (str_eq e "usage_known")
          (event_of-hit e "usage_known" "usage" s refl)
          (λ _.
            if_cases (λ k. k ≡ some s → event_of s ≡ e) (str_eq e "outcome_unknown")
              (event_of-hit e "outcome_unknown" "unknown" s refl)
              (λ _.
                if_cases (λ k. k ≡ some s → event_of s ≡ e) (str_eq e "cancel_before_call")
                  (event_of-hit e "cancel_before_call" "cancelled" s refl)
                  (λ _.
                    if_cases (λ k. k ≡ some s → event_of s ≡ e) (str_eq e "replay_pending")
                      (event_of-hit e "replay_pending" "replay" s refl)
                      (λ _ n. absurd (ground arith))))))

key-suffix :
    (reservation event key : String)
    → settle_idempotency_key reservation event ≡ some key
    → (suffix : String) × (settle_event_suffix event ≡ some suffix)
      × (concat "settle:" (concat reservation (concat ":" suffix)) ≡ key)
unfolding settle_idempotency_key
key-suffix reservation event key e = elim (Option-cases (settle_event_suffix event)) [
  | inl n ↦ absurd (ground (arith, n, e))
  | inr (suffix, n) ↦ (suffix, n, ground (arith, n, e))
]

-- Two events of one reservation have the same idempotency key only if they are the same event.
pub settle_idempotency_key-inj :
    (reservation e f key : String)
    → settle_idempotency_key reservation e ≡ some key
    → settle_idempotency_key reservation f ≡ some key
    → e ≡ f
settle_idempotency_key-inj reservation e f key a b =
    let (s, is_e, key_e) = key-suffix reservation e key a in
    let (t, is_f, key_f) = key-suffix reservation f key b in
    let same : s ≡ t = concat-inj ":" s t (
      concat-inj reservation (concat ":" s) (concat ":" t) (
        concat-inj "settle:" (concat reservation (concat ":" s)) (concat reservation (concat ":" t))
          (key_e ∙ sym key_f))) in
    sym (event_of-suffix e s is_e) ∙ ap event_of same ∙ event_of-suffix f t is_f

-- A body of a settlement is built exactly when there is a key and, for known usage, an amount; it
-- carries an amount only for known usage, and the number of its attempt is at least 1.
pub build_settle_payload-Built :
    (c : SettleCall) (p : Payload)
    → build_settle_payload c ≡ some p
    → (key_of c ≡ some p.idempotency_key)
      × (p.event ≡ c.event)
      × (1 ≤ p.attempt)
      × (p.actual_usd_micros ≡ (if str_eq c.event "usage_known" then c.actual_usd_micros else none))
      × (str_eq c.event "usage_known" ≡ true → p.actual_usd_micros ≢ none)
unfolding build_settle_payload payload_of
build_settle_payload-Built c p e = ground arith

abbrev pub IsPresent : AttemptIdentities → Type 0
IsPresent ids =
    (is_empty ids.operation_id ≡ false)
    × (is_empty ids.call_id ≡ false)
    × (1 ≤ ids.attempt)
    × (is_empty ids.attempt_id ≡ false)
    × (is_empty ids.idempotency_key ≡ false)

-- The number of an attempt is at least 1, and the ids that are missing or blank are made from the
-- fresh ones: no identity of an attempt is empty.
pub create_attempt_identities-IsPresent :
    (new_op new_call new_key : String) (w : Wanted)
    → IsPresent (create_attempt_identities new_op new_call new_key w)
unfolding create_attempt_identities or_text concat is_empty
create_attempt_identities-IsPresent new_op new_call new_key w = ground arith
