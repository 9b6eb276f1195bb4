-- ===== src/Principal/Tenant.antt =====
-- Which organization a request of kazenai/auth/_principal_impl.py runs in.
use kazenai_core.Base.{
  ◌≡◌, refl, sym, ap, ◌∙◌, ◌⊎◌, inl, inr, Bool, true, false, not, ◌&&◌, String, str_eq, eq_iff,
  if◌then◌else◌, arith,
}
use kazenai_core.Base.Text.{strip, is_empty, or_text}
use kazenai_core.Base.Results.{ok, ◌>>◌, refuse_if, bind_ok, refuse_if_ok, ok_inj}
use kazenai_core.Principal.{
  CanonicalPrincipal, org_required, org_header_mismatch, act_as_mismatch, act_as_not_authorized,
  Headers, is_service_role, is_untrusted, header, or_empty, reject_client_privileged_headers,
  membership_allows_org, membership_error, cross_org_error, acting_as, resolve_own, resolve_act_as,
  resolve_effective_org,
}

-- The organization of the principal itself, of which it is a member.
pub record IsOwn (p : CanonicalPrincipal) (org : String) (q : CanonicalPrincipal) : Type 0 where
  pub same : p ≡ q
  pub own : org ≡ or_empty p.org_id
  pub member : membership_allows_org p org ≡ true

-- An organization that a service names in the header of delegation, on a trusted way in.
pub record IsDelegated (p : CanonicalPrincipal) (headers : Headers) (ingress org : String)
    (q : CanonicalPrincipal) : Type 0 where
  pub service : is_service_role p.role ≡ true
  pub named : header "x-kazen-act-as-org" headers ≡ org
  pub trusted : is_untrusted ingress ≡ false
  pub acting : acting_as org p ≡ q

un_not : (b : Bool) → not b ≡ false → b ≡ true
un_not b h = ground arith

resolve_own-IsOwn :
    (p : CanonicalPrincipal) (org : String) (r : String × CanonicalPrincipal)
    → resolve_own p org ≡ ok r
    → (org ≡ r.0) × IsOwn p org r.1
unfolding resolve_own
resolve_own-IsOwn p org r h =
    let (u, member, h1) =
      bind_ok (refuse_if (not (membership_allows_org p org)) (membership_error p org)) _ h in
    let (v, own, h2) =
      bind_ok (refuse_if (not (str_eq org (or_empty p.org_id))) (cross_org_error p)) _ h1 in
    let same = ok_inj (org, p) r h2 in
    (
      ap (λ (x : String × CanonicalPrincipal). x.0) same,
      record {
        same = ap (λ (x : String × CanonicalPrincipal). x.1) same;
        own = (eq_iff org (or_empty p.org_id)).0 (un_not _ (refuse_if_ok _ _ own));
        member = un_not _ (refuse_if_ok _ _ member);
      },
    )

-- Which branch of two nested tests gave a result.
three_ways {ℓ} :
    {A : Type ℓ} (a b : Bool) (x y z : A) {r : A}
    → (if a then x else if b then y else z) ≡ r
    → ((a ≡ true) × (x ≡ r))
      ⊎ (((a ≡ false) × (b ≡ true) × (y ≡ r)) ⊎ ((a ≡ false) × (b ≡ false) × (z ≡ r)))
three_ways true b x y z h = inl (refl, h)
three_ways false true x y z h = inr (inl (refl, refl, h))
three_ways false false x y z h = inr (inr (refl, refl, h))

-- A service that acts as the organization that its header names.
abbrev ActsAs : CanonicalPrincipal → String → String → CanonicalPrincipal → Type 0
ActsAs p org act_as q =
    (is_service_role p.role ≡ true)
    × (is_empty act_as ≡ false)
    × (act_as ≡ org)
    × (acting_as org p ≡ q)

service-ActsAs :
    (p : CanonicalPrincipal) (org act_as : String) (r : String × CanonicalPrincipal)
    → is_service_role p.role ≡ true
    → is_empty act_as ≡ false
    → (refuse_if (not (str_eq org act_as)) act_as_mismatch >> ok (act_as, acting_as act_as p))
      ≡ ok r
    → (org ≡ r.0) × ActsAs p org act_as r.1
service-ActsAs p org act_as r role given h =
    let (u, named, h1) = bind_ok (refuse_if (not (str_eq org act_as)) act_as_mismatch) _ h in
    let same = ok_inj (act_as, acting_as act_as p) r h1 in
    let is : org ≡ act_as = (eq_iff org act_as).0 (un_not _ (refuse_if_ok _ _ named)) in
    (
      is ∙ ap (λ (x : String × CanonicalPrincipal). x.0) same,
      (
        role,
        given,
        sym is,
        ap (λ o. acting_as o p) is ∙ ap (λ (x : String × CanonicalPrincipal). x.1) same,
      ),
    )

member-IsOwn :
    (p : CanonicalPrincipal) (org act_as : String) (r : String × CanonicalPrincipal)
    → (refuse_if (not (str_eq act_as (or_empty p.org_id))) act_as_not_authorized
        >> (refuse_if (not (str_eq org act_as)) act_as_mismatch >> resolve_own p org))
      ≡ ok r
    → (org ≡ r.0) × IsOwn p org r.1
member-IsOwn p org act_as r h =
    let (u, _, h1) =
      bind_ok (refuse_if (not (str_eq act_as (or_empty p.org_id))) act_as_not_authorized) _ h in
    let (v, _, h2) = bind_ok (refuse_if (not (str_eq org act_as)) act_as_mismatch) _ h1 in
    resolve_own-IsOwn p org r h2

act_as-ActsAs :
    (p : CanonicalPrincipal) (org act_as : String) (r : String × CanonicalPrincipal)
    → resolve_act_as p org act_as ≡ ok r
    → (org ≡ r.0) × (IsOwn p org r.1 ⊎ ActsAs p org act_as r.1)
unfolding resolve_act_as
act_as-ActsAs p org act_as r h =
    elim (three_ways (is_empty act_as) (is_service_role p.role) _ _ _ h) [
      | inl (none_given, own) ↦
          let (org_is, is_own) = resolve_own-IsOwn p org r own in (org_is, inl is_own)
      | inr (inl (given, role, acts)) ↦
          let (org_is, acting) = service-ActsAs p org act_as r role given acts in
          (org_is, inr acting)
      | inr (inr (given, role, own)) ↦
          let (org_is, is_own) = member-IsOwn p org act_as r own in (org_is, inl is_own)
    ]

untrusted_act_as : (a b c : Bool) → (a && not (b && c)) ≡ false → b ≡ false → a ≡ false
untrusted_act_as a b c h k = ground arith

-- A request that is let through runs in the organization that its body names, which is either the
-- principal's own, of which it is a member, with the principal unchanged; or one that a service
-- role names in the header of delegation, and then the request did not come in from a client that
-- is not trusted.
pub resolve_effective_org-IsOwn :
    (p : CanonicalPrincipal) (headers : Headers) (body_org_id ingress : String)
    (r : String × CanonicalPrincipal)
    → resolve_effective_org p headers body_org_id ingress ≡ ok r
    → (strip body_org_id ≡ r.0)
      × (IsOwn p (strip body_org_id) r.1 ⊎ IsDelegated p headers ingress (strip body_org_id) r.1)
unfolding resolve_effective_org reject_client_privileged_headers
resolve_effective_org-IsOwn p headers body_org_id ingress r h =
    let (u, passed, h1) = bind_ok (reject_client_privileged_headers ingress headers) _ h in
    let (v, _, h2) = bind_ok (refuse_if (is_empty (strip body_org_id)) org_required) _ h1 in
    let header_org = or_text (header "x-kazen-org-id" headers) (header "x-org-id" headers) in
    let (w, _, h3) =
      bind_ok
        (refuse_if (not (is_empty header_org) && not (str_eq header_org (strip body_org_id)))
          org_header_mismatch)
        _ h2 in
    let (org_is, way) =
      act_as-ActsAs p (strip body_org_id) (header "x-kazen-act-as-org" headers) r h3 in
    (
      org_is,
      elim way [
        | inl own ↦ inl own
        | inr (role, given, named, acting) ↦ inr (record {
          service = role;
          named = named;
          trusted =
              untrusted_act_as (is_untrusted ingress) _
                (is_empty (header "x-kazen-user-scope" headers)) (refuse_if_ok _ _ passed) given;
          acting = acting;
        })
      ],
    )
