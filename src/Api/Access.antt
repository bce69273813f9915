-- ===== src/Api/Access.antt =====
-- packages/concord-api/src/middleware/access.ts: the identity gate. The verification of tokens is
-- the library `jose`, of which the gate uses `jwtVerify` with an issuer and an audience.
pub mod Gate
pub mod Tests
use doc_eng_demo.Prelude.{
  String, Bool, true, false, ◌&&◌, ◌||◌, not, Option, none, some, List, [], ◌∷◌, ◌++◌, map, filter,
  any, codes, same_codes, has_suffix, split_on, ◌==◌, if◌then◌else◌,
}
use doc_eng_demo.Contracts.Records.{Text}
use doc_eng_demo.Concord.Normalize.{trim, lower_case}

pub record AccessEnv : Type 0 where
  pub demo_admin_enabled : Option Text
  pub access_team_domain : Option Text
  pub access_aud : Option Text
  pub access_operator_emails : Option Text

-- `String(payload.email ?? "")` and `String(payload.sub ?? "")` of a verified token.
pub record AccessIdentity : Type 0 where
  pub email : Text
  pub sub : Text

-- `jwtVerify(token, keys, { issuer, audience })`; `none` where it throws.
abbrev pub Verifier : Type 0
Verifier = Text → Text → Text → Option AccessIdentity

pub data Denial : Type 0 where
  access_not_configured access_missing_assertion : Denial
  access_invalid_assertion access_domain_denied : Denial

-- A 404, a 403 with its code, or the identity with which the next handler runs.
pub data Outcome : Type 0 where
  not_found : Outcome
  forbidden : Denial → Outcome
  passed : AccessIdentity → Outcome

-- The text of a value that is neither absent nor empty.
abbrev pub truthy : Option Text → Option Text
truthy none = none
truthy (some []) = none
truthy (some (c ∷ cs)) = some (c ∷ cs)

abbrev pub is_true : Option Text → Bool
is_true none = false
is_true (some t) = same_codes t (codes "true")

abbrev or_empty : Option Text → Text
or_empty none = []
or_empty (some t) = t

abbrev is_filled : Text → Bool
is_filled [] = false
is_filled (c ∷ cs) = true

unfoldable pub operator_emails : AccessEnv → List Text
operator_emails env =
    filter is_filled
      (map (λ e. lower_case (trim e)) (split_on b',' (or_empty env.access_operator_emails)))

abbrev pub domain_suffix : Text
domain_suffix = codes "@anthropic.com"

unfoldable pub domain_ok : Text → Bool
domain_ok email = has_suffix domain_suffix (lower_case email)

unfoldable pub operator_ok : AccessEnv → Text → Bool
operator_ok env email = any (λ e. same_codes e (lower_case email)) (operator_emails env)

pub issuer_of : Text → Text
issuer_of domain = codes "https://" ++ domain

admit : AccessEnv → AccessIdentity → Outcome
admit env identity =
    if not (domain_ok identity.email) && not (operator_ok env identity.email)
    then forbidden access_domain_denied
    else passed identity

check_token : AccessEnv → Option AccessIdentity → Outcome
unfolding admit
check_token env none = forbidden access_invalid_assertion
check_token env (some identity) = admit env identity

module _ (verify : Verifier) where
  with_token : AccessEnv → Text → Text → Option Text → Outcome
  unfolding check_token
  with_token env domain aud none = forbidden access_missing_assertion
  with_token env domain aud (some token) = check_token env (verify token (issuer_of domain) aud)

  with_config : AccessEnv → Option Text → Option Text → Option Text → Outcome
  unfolding with_token
  with_config env (some domain) (some aud) header = with_token env domain aud (truthy header)
  with_config env _ _ header = forbidden access_not_configured

  -- `header` is the request's `Cf-Access-Jwt-Assertion`.
  unfoldable pub require_access_identity : AccessEnv → Option Text → Outcome
  unfolding with_config
  require_access_identity env header =
      if not (is_true env.demo_admin_enabled)
      then not_found
      else with_config env (truthy env.access_team_domain) (truthy env.access_aud) header
