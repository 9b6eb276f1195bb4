-- ===== src/OrgPolicy/Tests.antt =====
-- Runs of kazenai/spine/org_policy.py, with a hash that returns its text.
use kazenai_core.Base.{◌≡◌, refl, true, false, String, List, [], ◌∷◌, Option, none, some}
use kazenai_core.Base.Text.{strip, is_empty, take_chars, concat, or_text}
use kazenai_core.OrgPolicy.{
  fail_open, Key, path_of, Block, policy_named, policy_from_capabilities, reported_org, keep_entry,
  remember_policy, remember, read_file, lookup_in, lookup, allows_fail_open, Step, remembers, looks,
  restarts, step, run, empty,
}
use kazenai_core.OrgPolicy.Newest.{newest, is_open_policy, run-allows_fail_open}
use kazenai_core.OrgPolicy.Sent.{IsSent, run-IsSent}

abbrev text_of : String → String
text_of text = text

abbrev one_key : Key
one_key = record { base = "u"; org = "o"; fingerprint = "f" }

abbrev other_key : Key
other_key = record { base = "u"; org = "o"; fingerprint = "g" }

abbrev says : String → Option Block
says text = some (record { when_unreachable = text; org_id = "" })

abbrev history : List Step
history =
    remembers one_key (says "fail_closed") true
    ∷ remembers other_key (says "fail_closed") true
    ∷ remembers one_key (says "fail_open") true
    ∷ restarts
    ∷ looks one_key
    ∷ []

run-allows_fail_open_example :
    allows_fail_open text_of one_key (run text_of empty history)
    ≡ is_open_policy (newest one_key none history)
unfolding is_empty path_of take_chars concat
run-allows_fail_open_example =
    run-allows_fail_open text_of one_key history refl
      ((λ h. absurd (cc), refl), ((λ h. refl, refl), ((λ h. absurd (cc), refl), (tt, (tt, tt)))))

abbrev unsaved : List Step
unsaved = remembers one_key (says "fail_open") false ∷ looks one_key ∷ []

allowed : allows_fail_open text_of one_key (run text_of empty unsaved) ≡ true
unfolding is_empty path_of take_chars concat allows_fail_open lookup lookup_in run step remember
    remember_policy keep_entry policy_named policy_from_capabilities reported_org read_file strip
    or_text
allowed = refl

run-IsSent_example : IsSent one_key fail_open unsaved
run-IsSent_example = run-IsSent text_of one_key unsaved (λ h. absurd (cc), (tt, tt)) allowed

-- A setting whose file could not be written is not written when it comes again: after a restart the old file
-- is acted on.
abbrev missed : List Step
missed =
    remembers one_key (says "fail_open") true
    ∷ remembers one_key (says "fail_closed") false
    ∷ remembers one_key (says "fail_closed") true
    ∷ restarts
    ∷ []

stale_open : allows_fail_open text_of one_key (run text_of empty missed) ≡ true
unfolding is_empty path_of take_chars concat allows_fail_open lookup lookup_in run step remember
    remember_policy keep_entry policy_named policy_from_capabilities reported_org read_file strip
    or_text
stale_open = refl
