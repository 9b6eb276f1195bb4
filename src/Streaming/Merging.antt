-- ===== src/Streaming/Merging.antt =====
-- What the merging of usage snapshots keeps: kazenai/streaming/lifecycle.py, `merged` and
-- `observe_usage`.
use kazenai_core.Base.{
  ◌≡◌, refl, ◌∙◌, true, ◌||◌, Option, none, some, List, [], ◌∷◌, is_some, arith, if_cases, any,
}
use kazenai_core.Base.Amount.{ℤ, ◌+ℤ◌}
use kazenai_core.Streaming.Usage.{
  StreamUsage, pick, merged, effective_input, effective_output, says_something, observe_usage,
}

-- The snapshots of a stream, in order.
unfoldable pub observe_all : StreamUsage → List StreamUsage → StreamUsage
observe_all u [] = u
observe_all u (v ∷ vs) = observe_all (observe_usage u v) vs

-- A usage that can be settled: where both counts are known the total is their sum, and usage that
-- is authoritative has a total.
pub record IsConsistent (u : StreamUsage) : Type 0 where
  pub total :
      (a b : ℤ)
      → effective_input u ≡ some a
      → effective_output u ≡ some b
      → u.total_tokens ≡ some (a +ℤ b)
  pub counted : u.authoritative ≡ true → is_some u.total_tokens ≡ true

merged-IsConsistent : (u v : StreamUsage) → IsConsistent (merged u v)
unfolding merged
merged-IsConsistent u v = record { total = λ a b e f. ground arith; counted = ground arith }

observe-IsConsistent : (u v : StreamUsage) → IsConsistent u → IsConsistent (observe_usage u v)
unfolding observe_usage
observe-IsConsistent u v ok =
    if_cases IsConsistent (says_something v) (λ _. merged-IsConsistent u v) (λ _. ok)

-- Whatever a provider reports over a stream, the observed usage has the sum of both counts as its
-- total where both are known, and has a total where it is authoritative.
pub observe_all-IsConsistent :
    (u : StreamUsage) (vs : List StreamUsage) → IsConsistent u → IsConsistent (observe_all u vs)
unfolding observe_all
observe_all-IsConsistent u [] ok = ok
observe_all-IsConsistent u (v ∷ vs) ok =
    observe_all-IsConsistent (observe_usage u v) vs (observe-IsConsistent u v ok)

-- The newest known value of a count.
abbrev pub newest : (StreamUsage → Option ℤ) → List StreamUsage → Option ℤ
newest count [] = none
newest count (v ∷ vs) = pick (newest count vs) (count v)

pick_assoc : (a b c : Option ℤ) → pick a (pick b c) ≡ pick (pick a b) c
pick_assoc none b c = refl
pick_assoc (some x) b c = refl

observe-counts :
    (u v : StreamUsage)
    → ((observe_usage u v).prompt_tokens ≡ pick v.prompt_tokens u.prompt_tokens)
      × ((observe_usage u v).completion_tokens ≡ pick v.completion_tokens u.completion_tokens)
      × ((observe_usage u v).input_tokens ≡ pick v.input_tokens u.input_tokens)
      × ((observe_usage u v).output_tokens ≡ pick v.output_tokens u.output_tokens)
unfolding observe_usage merged says_something
observe-counts u v = ground arith

-- No count is lost: each count of the observed usage is the newest that the stream reported, or
-- else the one from before.
pub observe_all-newest :
    (u : StreamUsage) (vs : List StreamUsage)
    → ((observe_all u vs).prompt_tokens ≡ pick (newest (λ v. v.prompt_tokens) vs) u.prompt_tokens)
      × ((observe_all u vs).completion_tokens
          ≡ pick (newest (λ v. v.completion_tokens) vs) u.completion_tokens)
      × ((observe_all u vs).input_tokens ≡ pick (newest (λ v. v.input_tokens) vs) u.input_tokens)
      × ((observe_all u vs).output_tokens ≡ pick (newest (λ v. v.output_tokens) vs) u.output_tokens)
unfolding observe_all
observe_all-newest u [] = (refl, refl, refl, refl)
observe_all-newest u (v ∷ vs) =
    let (p, c, i, o) = observe-counts u v in
    let (ps, cs, ins, outs) = observe_all-newest (observe_usage u v) vs in
    (
      ps ∙ rw p (pick_assoc (newest (λ v. v.prompt_tokens) vs) v.prompt_tokens u.prompt_tokens),
      cs
          ∙ rw c (
              pick_assoc (newest (λ v. v.completion_tokens) vs) v.completion_tokens
                u.completion_tokens),
      ins ∙ rw i (pick_assoc (newest (λ v. v.input_tokens) vs) v.input_tokens u.input_tokens),
      outs ∙ rw o (pick_assoc (newest (λ v. v.output_tokens) vs) v.output_tokens u.output_tokens),
    )

observe-authoritative :
    (u v : StreamUsage)
    → (observe_usage u v).authoritative ≡ true
    → (u.authoritative || v.authoritative) ≡ true
unfolding observe_usage merged says_something
observe-authoritative u v h = ground arith

-- Observed usage is authoritative only if one of the snapshots was, or the usage before them.
pub observe_all-authoritative :
    (u : StreamUsage) (vs : List StreamUsage)
    → (observe_all u vs).authoritative ≡ true
    → (u.authoritative || any (λ v. v.authoritative) vs) ≡ true
unfolding observe_all
observe_all-authoritative u [] h = ground arith
observe_all-authoritative u (v ∷ vs) h =
    let later = observe_all-authoritative (observe_usage u v) vs h in
    let here = observe-authoritative u v in ground arith
