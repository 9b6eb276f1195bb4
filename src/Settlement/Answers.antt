-- ===== src/Settlement/Answers.antt =====
-- kazenai/spine/guard.py: what an answer to a settlement means.
use kazenai_core.Base.{
  ℕ, min, Bool, not, ◌&&◌, ◌||◌, Option, none, some, String, ltb, leb, ◌==◌, if◌then◌else◌, str_eq,
}
use kazenai_core.Base.Amount.{ℤ, pos, negsuc}
use kazenai_core.Base.Text.{is_empty, or_text, word_is}

-- An answer: a response with the texts under `result` and `status` (empty if missing), an HTTP
-- error with its `detail.error_code` (empty if missing) and its Retry-After header in milliseconds,
-- or none.
pub data Answer : Type 0 where
  response : (result status : String) → Answer
  http_error : (status : ℕ) (error_code : String) (retry_after : Option ℤ) → Answer
  transport_error : Answer

-- `_finops_result_ack(payload, event=…)`.
unfoldable pub result_ack : String → String → String → Bool
result_ack event result status =
    let code = or_text result status in
    let done = word_is "applied" code || word_is "duplicate" code in
    if str_eq event "outcome_unknown" || str_eq event "replay_pending"
    then done || word_is "pending" code
    else done

-- Why a settlement is refused for good: the server's code, or the HTTP status.
pub data Rejection : Type 0 where
  coded : String → Rejection
  http_status : ℕ → Rejection

-- `_permanent_settle_rejection(exc)`.
unfoldable pub permanent_rejection : ℕ → String → Option Rejection
permanent_rejection status code =
    if status == 408 || status == 429 || not (leb 400 status && ltb status 500)
    then none
    else if is_empty code
    then some (http_status status)
    else some (coded code)

-- `status in (408, 429) or status >= 500`.
unfoldable pub retryable : ℕ → Bool
retryable status = status == 408 || status == 429 || leb 500 status

-- `_retry_after_seconds(exc)`: a negative delay is none, and no delay is above the cap.
unfoldable pub retry_after_ms : Option ℤ → Option ℕ
retry_after_ms none = none
retry_after_ms (some (negsuc n)) = none
retry_after_ms (some (pos n)) = some (min 300000 n)
