-- ===== src/Policies/Refusals.antt =====
-- kazenai/provider_errors.py: which errors of a provider prove that nothing was billed.
use kazenai_core.Base.{ℕ, Bool, false, not, ◌&&◌, ◌||◌, leb, ltb, ◌==◌}

-- A status of an error: absent, a number, or what `int` refuses.
pub data Status : Type 0 where
  no_status : Status
  number : ℕ → Status
  not_a_number : Status

-- The error's own status, or else the response's.
abbrev pub first_status : Status → Status → Status
first_status no_status response = response
first_status (number n) response = number n
first_status not_a_number response = not_a_number

-- `code not in _AMBIGUOUS_4XX`, between 400 and 499.
unfoldable pub is_refusal_code : ℕ → Bool
is_refusal_code code =
    leb 400 code && ltb code 500 && not (code == 408 || code == 409 || code == 499)

abbrev pub status_refuses : Status → Bool
status_refuses no_status = false
status_refuses (number n) = is_refusal_code n
status_refuses not_a_number = false

-- `is_definitive_provider_rejection(exc)`.
pub is_definitive_provider_rejection : (own response : Status) → Bool
unfolding is_refusal_code
is_definitive_provider_rejection own response = status_refuses (first_status own response)
