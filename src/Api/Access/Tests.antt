-- ===== src/Api/Access/Tests.antt =====
-- An instance of the property of the gate: a verifier that knows one token, in which the address is
-- the operator's.
use doc_eng_demo.Prelude.{◌≡◌, refl, none, some, codes, same_codes, split_on, if◌then◌else◌, ◌&&◌}
use doc_eng_demo.Api.Access.{
  AccessEnv, AccessIdentity, Verifier, passed, require_access_identity, issuer_of,
}
use doc_eng_demo.Api.Access.Gate.{IsAuthenticated, require_access_identity-IsAuthenticated}

abbrev operator : AccessIdentity
operator = record { email = codes "ops@example.com"; sub = codes "7" }

abbrev one_token : Verifier
one_token token issuer audience =
    if same_codes token (codes "token") && same_codes audience (codes "aud")
    then some operator
    else none

abbrev env : AccessEnv
env = record {
  demo_admin_enabled = some (codes "true");
  access_team_domain = some (codes "team.example.com");
  access_aud = some (codes "aud");
  access_operator_emails = some (codes "ops@example.com, second@example.com");
}

operator_passes : require_access_identity one_token env (some (codes "token")) ≡ passed operator
unfolding require_access_identity doc_eng_demo.Api.Access.domain_ok
    doc_eng_demo.Concord.Normalize.lower_case doc_eng_demo.Api.Access.operator_ok
    doc_eng_demo.Api.Access.operator_emails split_on doc_eng_demo.Concord.Normalize.trim
operator_passes = refl

require_access_identity-IsAuthenticated_example :
    IsAuthenticated one_token env (some (codes "token")) operator
require_access_identity-IsAuthenticated_example =
    require_access_identity-IsAuthenticated one_token env (some (codes "token")) operator
      operator_passes
