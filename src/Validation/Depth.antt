-- ===== src/Validation/Depth.antt =====
-- What the bounds of kazenai/validation/bounds.py let through.
use kazenai_core.Base.{
  ◌≡◌, ◌↔◌, ap, ◌∙◌, ℕ, suc, ◌+◌, ◌≤◌, ◌<◌, ltb, false, max, if_cases, arith, Bool-cases, inl, inr,
  subst, ◌⊎◌, Option, none, some,
}
use kazenai_core.Base.Results.{ok, refuse_if, bind_ok, refuse_if_ok, ok_inj}
use kazenai_core.Validation.{
  Json, scalar, container, Values, no_more, and_more, json_depth, largest_depth, too_large,
  too_deep, or_unserializable, enforce_json_bounds,
}

-- How deep values are nested, without a limit.
unfoldable mutual
  pub height : Json → ℕ
  height scalar = 0
  height (container no_more) = 0
  height (container (and_more v vs)) = let h = height v in let r = heights vs in suc (max h r)

  pub heights : Values → ℕ
  heights no_more = 0
  heights (and_more v vs) = let h = height v in let r = heights vs in max h r

-- Within the limit the depth is exact, and beyond it, it is beyond.
pub record IsDepth (limit exact found : ℕ) : Type 0 where
  pub within : exact ≤ limit → found ≡ exact
  pub beyond : limit < exact → limit < found

larger : (a b limit : ℕ) → limit < max a b → (limit < a) ⊎ (limit < b)
larger a b limit h = elim (Bool-cases (ltb limit a)) [
  | inl k ↦ inl (ground arith)
  | inr k ↦ let low : a ≤ limit = ground arith in inr (omega arith)
]

beyond_max :
    (limit a b x y : ℕ)
    → (limit < a → limit < x)
    → (limit < b → limit < y)
    → limit < max a b
    → limit < max x y
beyond_max limit a b x y f g h = elim (larger a b limit h) [
  | inl k ↦ let m = f k in omega arith
  | inr k ↦ let m = g k in omega arith
]

IsDepth-max :
    (limit a b x y : ℕ) → IsDepth limit a x → IsDepth limit b y → IsDepth limit (max a b) (max x y)
IsDepth-max limit a b x y first second = record {
  within =
      λ h. let p = first.within (omega arith) in let q = second.within (omega arith) in omega arith;
  beyond = λ h. beyond_max limit a b x y first.beyond second.beyond h;
}

same_exact : (limit a b found : ℕ) → a ≡ b → IsDepth limit a found → IsDepth limit b found
same_exact limit a b found e is = record {
  within = λ h. is.within (omega arith) ∙ e;
  beyond = λ h. is.beyond (omega arith);
}

module _ (limit : ℕ) where
  mutual
    unfolding json_depth largest_depth height heights

    json_depth-IsDepth :
        (depth : ℕ) (v : Json) → IsDepth limit (depth + height v) (json_depth limit depth v)
    json_depth-IsDepth depth scalar = record {
      within = λ h. omega arith;
      beyond = λ h. omega arith;
    }
    json_depth-IsDepth depth (container no_more) = record {
      within = λ h. omega arith;
      beyond = λ h. omega arith;
    }
    json_depth-IsDepth depth (container (and_more v vs)) =
        let first = json_depth-IsDepth (suc depth) v in
        let all =
          largest_depth-IsDepth (suc depth) vs (suc depth + height v)
            (json_depth limit (suc depth) v) (omega arith) first in
        if_cases (IsDepth limit (depth + suc (max (height v) (heights vs)))) (ltb limit depth)
          (λ deep.
            let d : limit < depth = ground arith in
            record { within = λ h. absurd (omega arith); beyond = λ h. d })
          (λ _. same_exact limit _ _ _ (omega arith) all)

    largest_depth-IsDepth :
        (depth : ℕ) (vs : Values) (exact found : ℕ)
        → depth ≤ exact
        → IsDepth limit exact found
        → IsDepth limit (max exact (depth + heights vs)) (largest_depth limit depth found vs)
    largest_depth-IsDepth depth no_more exact found low is =
        subst (λ e. IsDepth limit e found) (omega arith) is
    largest_depth-IsDepth depth (and_more v vs) exact found low is =
        same_exact limit _ _ _ (omega arith) (
          largest_depth-IsDepth depth vs (max exact (depth + height v))
            (max found (json_depth limit depth v)) (omega arith)
            (IsDepth-max limit exact (depth + height v) found _ is (json_depth-IsDepth depth v)))

ltb_le : (a b : ℕ) → ltb a b ≡ false → b ≤ a
ltb_le a b h = ground arith

le_ltb : (a b : ℕ) → b ≤ a → ltb a b ≡ false
le_ltb a b h = ground arith

not_beyond :
    (limit exact found : ℕ) → (limit < exact → limit < found) → found ≤ limit → exact ≤ limit
not_beyond limit exact found beyond low = elim (Bool-cases (ltb limit exact)) [
  | inl far ↦ let further = beyond (ground arith) in absurd (omega arith)
  | inr near ↦ ltb_le limit exact near
]

serialized : (m : Option ℕ) (n : ℕ) → or_unserializable m ≡ ok n → m ≡ some n
serialized none n e = absurd (cc)
serialized (some k) n e = ap some (ok_inj k n e)

-- A value passes, unchanged, just where it can be written as JSON, in no more bytes than the bound, and is
-- nested no deeper than the bound, although the search for its depth stops beyond it.
pub enforce_json_bounds-height :
    (size : Json → Option ℕ) (max_bytes max_depth : ℕ) (value result : Json)
    → (enforce_json_bounds size max_bytes max_depth value ≡ ok result) ↔ (
        (value ≡ result)
        × ((n : ℕ) × (size value ≡ some n) × (n ≤ max_bytes))
        × (height value ≤ max_depth))
unfolding enforce_json_bounds
enforce_json_bounds-height size max_bytes max_depth value result =
    let is =
      same_exact max_depth (0 + height value) (height value) (json_depth max_depth 0 value)
        (omega arith) (json_depth-IsDepth max_depth 0 value) in
    (
      λ h.
          let (n, written, h0) = bind_ok (or_unserializable (size value)) _ h in
          let (u, small, h1) = bind_ok (refuse_if (ltb max_bytes n) too_large) _ h0 in
          let (w, flat, h2) =
            bind_ok (refuse_if (ltb max_depth (json_depth max_depth 0 value)) too_deep) _ h1 in
          (
            ok_inj value result h2,
            (n, serialized (size value) n written, ltb_le max_bytes n (refuse_if_ok _ _ small)),
            not_beyond max_depth (height value) (json_depth max_depth 0 value) is.beyond
                (ltb_le max_depth (json_depth max_depth 0 value) (refuse_if_ok _ _ flat)),
          ),
      λ h.
          let (same, (n, written, small), low) = h in
          let flat : json_depth max_depth 0 value ≤ max_depth =
            let exact = is.within low in omega arith in
          rw
            (
              written,
              le_ltb max_bytes n small,
              le_ltb max_depth (json_depth max_depth 0 value) flat,
            )
            (ap ok same),
    )
