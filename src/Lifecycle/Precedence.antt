-- ===== src/Lifecycle/Precedence.antt =====
-- Which profile `resolve_effective_lifecycle` of kazenai/lifecycle_config.py selects.
use kazenai_core.Base.{
  ◌≡◌, refl, sym, ap, ◌∙◌, Bool, true, false, not, ◌&&◌, List, [], ◌∷◌, any, All, Option, none,
  some, if◌then◌else◌, is_some, Bool-cases, inl, inr, subst, arith,
}
use kazenai_core.Lifecycle.{Var, Env, norm, is_set}
use kazenai_core.Base.Results.{ok, ◌>>=◌, bind_ok, ok_inj}
use kazenai_core.Lifecycle.Config.{
  Profile, control, legacy, EffectiveLifecycleConfig, profile_vars, classify_profile, Alias,
  classified, is_same, aliases_disagree, finops_url_key, winning,
}
use kazenai_core.Lifecycle.Resolve.{
  Asked, is_ambiguous_allowed, config_of, accounting_of, version_of, resolve,
}
use kazenai_core.Lifecycle.Policy.{resolve-Steps}

-- The first variable of a list that is set.
abbrev pub first_set : Env → List Var → Option Var
first_set env [] = none
first_set env (v ∷ vs) =
    let later = first_set env vs in if is_set (norm (env v)) then some v else later

-- What a variable says, or without one control where the URL of the service is set.
abbrev pub IsProfile : Env → Option Var → Profile → Type 0
IsProfile env none profile = profile ≡ (if is_some (finops_url_key env) then control else legacy)
IsProfile env (some v) profile = classify_profile (norm (env v)) ≡ ok profile

-- Every variable that is set says the same.
abbrev pub IsAgreed : Env → Profile → List Var → Type 0
IsAgreed env profile vs =
    All (λ v. is_set (norm (env v)) ≡ true → classify_profile (norm (env v)) ≡ ok profile) vs

no_alias :
    (env : Env) (url : Option Var) → (winning [] url).0 ≡ (if is_some url then control else legacy)
unfolding winning
no_alias env none = refl
no_alias env (some key) = refl

-- How the loop treats one variable: it adds an alias, or passes over it.
data IsRead (env : Env) (v : Var) (vs : List Var) (aliases : List Alias) : Type 0 where
  adds :
      (label : Profile) (others : List Alias)
      → is_set (norm (env v)) ≡ true
      → classify_profile (norm (env v)) ≡ ok label
      → classified env vs ≡ ok others
      → record { var = v; raw = norm (env v); label = label } ∷ others ≡ aliases
      → IsRead env v vs aliases
  passes : is_set (norm (env v)) ≡ false → classified env vs ≡ ok aliases → IsRead env v vs aliases

module _ {ℓ} {A : Type ℓ} (b : Bool) (x y : A) {r : A} where
  then_branch : b ≡ true → (if b then x else y) ≡ r → x ≡ r
  then_branch e h = ap (λ c. if c then x else y) (sym e) ∙ h

  else_branch : b ≡ false → (if b then x else y) ≡ r → y ≡ r
  else_branch e h = ap (λ c. if c then x else y) (sym e) ∙ h

IsRead-alias :
    (env : Env) (v : Var) (vs : List Var) (aliases : List Alias)
    → classified env (v ∷ vs) ≡ ok aliases
    → IsRead env v vs aliases
unfolding classified
IsRead-alias env v vs aliases h = elim (Bool-cases (is_set (norm (env v)))) [
  | inl given ↦
      let h1 : ((classify_profile (norm (env v))) >>= λ label. classified env vs >>= λ aliases.
      ok (record { var = v; raw = norm (env v); label = label } ∷ aliases))
          ≡ ok aliases =
        then_branch (is_set (norm (env v))) _ (classified env vs) given h in
      let (label, label_is, h2) = bind_ok (classify_profile (norm (env v))) _ h1 in
      let (others, others_are, h3) = bind_ok (classified env vs) _ h2 in
      adds label others given label_is others_are (ok_inj _ aliases h3)
  | inr missing ↦
      passes missing (else_branch (is_set (norm (env v))) _ (classified env vs) missing h)
]

classified-first :
    (env : Env) (vs : List Var) (aliases : List Alias)
    → classified env vs ≡ ok aliases
    → IsProfile env (first_set env vs) (winning aliases (finops_url_key env)).0
unfolding classified winning
classified-first env [] aliases h =
    let none_is : [] ≡ aliases = ok_inj [] aliases h in
    ap (λ (l : List Alias). (winning l (finops_url_key env)).0) (sym none_is)
    ∙ no_alias env (finops_url_key env)
classified-first env (v ∷ vs) aliases h = elim (IsRead-alias env v vs aliases h) [
  | adds label others given label_is others_are same ↦ rw (given, sym same) label_is
  | passes missing others_are ↦ rw (missing) (classified-first env vs aliases others_are)
]

classified-IsAgreed :
    (env : Env) (profile : Profile) (vs : List Var) (aliases : List Alias)
    → classified env vs ≡ ok aliases
    → All (λ (a : Alias). a.label ≡ profile) aliases
    → IsAgreed env profile vs
classified-IsAgreed env profile [] aliases h same = tt
classified-IsAgreed env profile (v ∷ vs) aliases h same = elim (IsRead-alias env v vs aliases h) [
  | adds label others given label_is others_are are ↦
      let labels = subst (All (λ (a : Alias). a.label ≡ profile)) (sym are) same in
      (
        λ _. label_is ∙ ap ok labels.0,
        classified-IsAgreed env profile vs others others_are labels.1,
      )
  | passes missing others_are ↦
      (λ given. absurd (cc), classified-IsAgreed env profile vs aliases others_are same)
]

same_label : (a b : Profile) → is_same a b ≡ true → b ≡ a
same_label control control h = refl
same_label legacy legacy h = refl
same_label control legacy h = absurd (cc)
same_label legacy control h = absurd (cc)

All-labels :
    (label : Profile) (rest : List Alias)
    → any (λ (b : Alias). not (is_same label b.label)) rest ≡ false
    → All (λ (a : Alias). a.label ≡ label) rest
All-labels label [] h = tt
All-labels label (b ∷ rest) h =
    (same_label label b.label (ground arith), All-labels label rest (ground arith))

undisputed_labels :
    (aliases : List Alias) (url : Option Var)
    → aliases_disagree aliases ≡ false
    → All (λ (a : Alias). a.label ≡ (winning aliases url).0) aliases
unfolding aliases_disagree winning
undisputed_labels [] url h = tt
undisputed_labels (a ∷ rest) url h = (refl, All-labels a.label rest h)

no_conflict : (a b : Bool) → b ≡ true → (a && b) ≡ false → a ≡ false
no_conflict a b h k = ground arith

-- What a configuration says of its profile. Accounting and version go with it.
pub record IsSelected (env : Env) (strict : Bool) (cfg : EffectiveLifecycleConfig) : Type 0 where
  pub first : IsProfile env (first_set env profile_vars) cfg.profile
  pub agreed : strict ≡ true → IsAgreed env cfg.profile profile_vars
  pub accounting : cfg.accounting_mode ≡ accounting_of cfg.profile
  pub version : cfg.lifecycle_version ≡ version_of cfg.profile

-- A configuration that is returned has the profile of the first profile variable that is set, or without
-- one Control exactly where the URL of the service is set, whatever the strict flag says; its accounting
-- and version are those of the profile; and where no conflict is allowed, every profile variable that
-- is set says the same.
pub resolve-IsSelected :
    (env : Env) (asked : Asked) (cfg : EffectiveLifecycleConfig)
    → resolve env asked ≡ ok cfg
    → IsSelected env (not (is_ambiguous_allowed env asked.allow)) cfg
unfolding config_of
resolve-IsSelected env asked cfg h =
    let steps = resolve-Steps env asked cfg h in
    subst (IsSelected env (not (is_ambiguous_allowed env asked.allow))) steps.is (record {
      first = classified-first env profile_vars steps.aliases steps.aliases_are;
      agreed = λ strict. classified-IsAgreed env _ profile_vars steps.aliases steps.aliases_are (
          undisputed_labels steps.aliases (finops_url_key env)
            (no_conflict _ _ strict steps.agreed));
      accounting = refl;
      version = refl;
    })
