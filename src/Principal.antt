-- ===== src/Principal.antt =====
-- kazenai/auth/_principal_impl.py: the tenant and workspace that a request runs in. Headers are a list in
-- which the last of a name counts, as in the dict that the code makes; a value may be missing.
use kazenai_core.Base.{
  Bool, true, false, not, ◌&&◌, ◌||◌, String, str_eq, List, [], ◌∷◌, any, Option, none, some,
  if◌then◌else◌,
}
use kazenai_core.Base.Text.{strip, is_empty, or_text, lower_codes, codes, codes_eq}
use kazenai_core.Base.Results.{Result, ok, refused, ◌>>=◌, ◌>>◌, refuse_if}
pub mod Tenant
mod Tests

pub record Delegation : Type 0 where
  pub kind : String
  pub asserted_org_id : Option String
  pub asserted_actor_id : Option String
  pub audience : Option String
  pub scope : List String

pub record CanonicalPrincipal : Type 0 where
  pub role : String
  pub auth_type : String
  pub identity_kind : String
  pub subject_id : Option String
  pub actor_id : Option String
  pub user_id : Option String
  pub org_id : Option String
  pub workspace_id : Option String
  pub authorized_org_ids : Option (List String)
  pub authorized_workspace_ids : Option (List String)
  pub delegation : Delegation

pub data PrincipalError : Type 0 where
  privileged_headers org_required org_header_mismatch : PrincipalError
  act_as_not_authorized act_as_mismatch service_requires_act_as : PrincipalError
  membership_missing org_not_authorized : PrincipalError
  cross_org_forbidden cross_org_requires_act_as workspace_not_authorized : PrincipalError

abbrev pub Headers : Type 0
Headers = List (String × Option String)

abbrev pub is_one_of : String → List String → Bool
is_one_of text words = any (λ word. str_eq text word) words

abbrev pub is_service_role : String → Bool
is_service_role role = is_one_of role (
    "service" ∷ "internal_admin" ∷ "growthops_service" ∷ "gateway_service" ∷ "brain_service"
    ∷ "finops_service" ∷ "lens_service" ∷ "platform_service" ∷ [])

-- `ingress in UNTRUSTED_INGRESS`.
abbrev pub is_untrusted : String → Bool
is_untrusted ingress = is_one_of ingress ("browser_client" ∷ "untrusted_client" ∷ "human_jwt" ∷ [])

-- The value of a header in the map of `_norm_header_map`, and after it the one found before.
unfoldable pub header_from : String → String → Headers → String
header_from name found [] = found
header_from name found ((key, none) ∷ rest) = header_from name found rest
header_from name found ((key, some value) ∷ rest) =
    header_from name (if codes_eq (lower_codes key) (codes name) then strip value else found) rest

-- `normalized.get(name) or ""`.
unfoldable pub header : String → Headers → String
header name headers = header_from name "" headers

abbrev pub is_privileged : String → Bool
is_privileged key =
    codes_eq (lower_codes key) (codes "x-kazen-act-as-org")
    || codes_eq (lower_codes key) (codes "x-kazen-user-scope")

abbrev drop_privileged : Headers → Headers
drop_privileged [] = []
drop_privileged (h ∷ rest) =
    let later = drop_privileged rest in if is_privileged h.0 then later else h ∷ later

-- `strip_privileged_headers`.
unfoldable pub strip_privileged_headers : String → Headers → Headers
strip_privileged_headers ingress headers =
    if is_untrusted ingress then drop_privileged headers else headers

-- `reject_client_privileged_headers`.
unfoldable pub reject_client_privileged_headers :
    String → Headers → Result PrincipalError (Unit {0})
reject_client_privileged_headers ingress headers =
    refuse_if
      (is_untrusted ingress
        && not (
            is_empty (header "x-kazen-act-as-org" headers)
            && is_empty (header "x-kazen-user-scope" headers)))
      privileged_headers

abbrev pub or_empty : Option String → String
or_empty none = ""
or_empty (some text) = text

abbrev or_id : Option String → Option String → Option String
or_id new old = if is_empty (or_empty new) then old else new

-- `membership_allows_org`, of an id that is stripped.
unfoldable pub membership_allows_org : CanonicalPrincipal → String → Bool
membership_allows_org p org = not (is_empty org) && (elim p.authorized_org_ids [
  | some orgs ↦ is_one_of org orgs
  | none ↦ not (is_empty (or_empty p.org_id)) && str_eq org (or_empty p.org_id)
])

-- `membership_allows_workspace`, of an id that is stripped and not empty.
unfoldable pub membership_allows_workspace : CanonicalPrincipal → String → Bool
membership_allows_workspace p workspace = elim p.authorized_workspace_ids [
  | some workspaces ↦ is_one_of workspace workspaces
  | none ↦ is_empty (or_empty p.workspace_id) || str_eq workspace (or_empty p.workspace_id)
]

-- The principal of a service that acts as an organization.
unfoldable pub acting_as : String → CanonicalPrincipal → CanonicalPrincipal
acting_as org p = record {
  role = p.role;
  auth_type = p.auth_type;
  identity_kind = "service";
  subject_id = or_id p.subject_id p.actor_id;
  actor_id = or_id p.actor_id p.subject_id;
  user_id = p.user_id;
  org_id = some org;
  workspace_id = p.workspace_id;
  authorized_org_ids = p.authorized_org_ids;
  authorized_workspace_ids = p.authorized_workspace_ids;
  delegation = record {
    kind = "act_as_org";
    asserted_org_id = some org;
    asserted_actor_id = none;
    audience = p.delegation.audience;
    scope = p.delegation.scope;
  };
}

-- Why a membership does not allow an organization.
unfoldable pub membership_error : CanonicalPrincipal → String → PrincipalError
membership_error p org =
    if is_service_role p.role && not (str_eq org (or_empty p.org_id))
    then service_requires_act_as
    else elim p.authorized_org_ids [
      | none ↦ org_not_authorized
      | some [] ↦ membership_missing
      | some (x ∷ xs) ↦ org_not_authorized
    ]

-- Why another organization than the principal's own is refused.
unfoldable pub cross_org_error : CanonicalPrincipal → PrincipalError
cross_org_error p =
    if is_service_role p.role
    then service_requires_act_as
    else if not (is_one_of p.role ("admin" ∷ "owner" ∷ "internal_admin" ∷ []))
    then cross_org_forbidden
    else cross_org_requires_act_as

-- The request for the principal's own organization.
unfoldable pub resolve_own :
    CanonicalPrincipal → String → Result PrincipalError (String × CanonicalPrincipal)
resolve_own p org = do
  refuse_if (not (membership_allows_org p org)) (membership_error p org)
  refuse_if (not (str_eq org (or_empty p.org_id))) (cross_org_error p)
  ok (org, p)

-- What the header of delegation makes of a request.
unfoldable pub resolve_act_as :
    CanonicalPrincipal → String → String → Result PrincipalError (String × CanonicalPrincipal)
resolve_act_as p org act_as =
    if is_empty act_as
    then resolve_own p org
    else if is_service_role p.role
    then (do refuse_if (not (str_eq org act_as)) act_as_mismatch; ok (act_as, acting_as act_as p))
    else (do
      refuse_if (not (str_eq act_as (or_empty p.org_id))) act_as_not_authorized
      refuse_if (not (str_eq org act_as)) act_as_mismatch
      resolve_own p org)

-- `resolve_effective_org`.
unfoldable pub resolve_effective_org :
    CanonicalPrincipal
    → Headers
    → String
    → String
    → Result PrincipalError (String × CanonicalPrincipal)
resolve_effective_org p headers body_org_id ingress = do
  reject_client_privileged_headers ingress headers
  let org = strip body_org_id
  refuse_if (is_empty org) org_required
  let header_org = or_text (header "x-kazen-org-id" headers) (header "x-org-id" headers)
  refuse_if (not (is_empty header_org) && not (str_eq header_org org)) org_header_mismatch
  resolve_act_as p org (header "x-kazen-act-as-org" headers)

-- `act_as_delegation_active`.
unfoldable pub act_as_delegation_active : CanonicalPrincipal → Headers → Bool
act_as_delegation_active p headers =
    not (is_empty (header "x-kazen-act-as-org" headers)) && is_service_role p.role

abbrev or_default : String → String
or_default text = or_text text "default"

-- `resolve_effective_workspace`.
unfoldable pub resolve_effective_workspace :
    CanonicalPrincipal → Headers → String → Bool → Result PrincipalError String
resolve_effective_workspace p headers body_workspace_id active =
    if active then ok (or_default (strip (or_default body_workspace_id))) else (do
      let named =
          or_text (strip body_workspace_id)
            (or_text (header "x-kazen-workspace-id" headers) "default")
      let workspace = or_default (strip named)
      refuse_if (not (membership_allows_workspace p workspace)) workspace_not_authorized
      ok workspace)
