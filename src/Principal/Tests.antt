-- ===== src/Principal/Tests.antt =====
-- Runs of kazenai/auth/_principal_impl.py.
use kazenai_core.Base.{◌≡◌, ◌⊎◌, refl, String, [], ◌∷◌, none, some}
use kazenai_core.Base.Text.{strip, is_empty, or_text, lower_codes, codes, codes_eq}
use kazenai_core.Base.Results.{ok, refused}
use kazenai_core.Principal.{
  CanonicalPrincipal, Headers, header, header_from, membership_allows_org, acting_as, resolve_own,
  resolve_act_as, reject_client_privileged_headers, resolve_effective_org, act_as_not_authorized,
  privileged_headers,
}
use kazenai_core.Principal.Tenant.{IsOwn, IsDelegated, resolve_effective_org-IsOwn}

abbrev member : String → CanonicalPrincipal
member role = record {
  role = role;
  auth_type = "key";
  identity_kind = "human";
  subject_id = some "s";
  actor_id = none;
  user_id = none;
  org_id = some "a";
  workspace_id = none;
  authorized_org_ids = none;
  authorized_workspace_ids = none;
  delegation = record {
    kind = "none";
    asserted_org_id = none;
    asserted_actor_id = none;
    audience = none;
    scope = [];
  };
}

abbrev acts : Headers
acts = ("X-Kazen-Act-As-Org", some "b") ∷ []

delegated :
    resolve_effective_org (member "service") acts " b" "api"
    ≡ ok ("b", acting_as "b" (member "service"))
unfolding resolve_effective_org resolve_act_as resolve_own reject_client_privileged_headers header
    header_from membership_allows_org acting_as strip is_empty or_text lower_codes codes codes_eq
delegated = refl

resolve_effective_org-IsOwn_example :
    (strip " b" ≡ "b")
    × (IsOwn (member "service") (strip " b") (acting_as "b" (member "service"))
        ⊎ IsDelegated (member "service") acts "api" (strip " b") (acting_as "b" (member "service")))
resolve_effective_org-IsOwn_example =
    resolve_effective_org-IsOwn (member "service") acts " b" "api"
      ("b", acting_as "b" (member "service")) delegated

-- A member who names another organization is refused, and a browser's header is.
not_a_service :
    resolve_effective_org (member "owner") acts "b" "api" ≡ refused act_as_not_authorized
unfolding resolve_effective_org resolve_act_as resolve_own reject_client_privileged_headers header
    header_from membership_allows_org acting_as strip is_empty or_text lower_codes codes codes_eq
not_a_service = refl

from_browser :
    resolve_effective_org (member "service") acts "b" "browser_client" ≡ refused privileged_headers
unfolding resolve_effective_org resolve_act_as resolve_own reject_client_privileged_headers header
    header_from membership_allows_org acting_as strip is_empty or_text lower_codes codes codes_eq
from_browser = refl
