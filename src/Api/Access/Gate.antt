-- ===== src/Api/Access/Gate.antt =====
-- Who passes the identity gate (packages/concord-api/src/middleware/access.ts).
use doc_eng_demo.Prelude.{
  ◌≡◌, refl, ap, ◌⊎◌, inl, inr, true, ◌||◌, Option, none, some, ◌++◌, codes, same_codes,
  same_codes_sound, has_suffix, has_suffix_sound, Member, any-Member, arith, Bool-cases,
}
use doc_eng_demo.Contracts.Records.{Text}
use doc_eng_demo.Concord.Normalize.{lower_case}
use doc_eng_demo.Api.Access.{
  AccessEnv, AccessIdentity, Verifier, not_found, passed, truthy, is_true, operator_emails,
  domain_suffix, domain_ok, operator_ok, issuer_of, admit, check_token, with_token, with_config,
  require_access_identity,
}

-- An identity that may act: of the domain, or named in full among the operators.
abbrev pub IsAdmitted : AccessEnv → Text → Type 0
IsAdmitted env email =
    ((user : Text) × (lower_case email ≡ user ++ domain_suffix))
    ⊎ Member (lower_case email) (operator_emails env)

-- What a request that passes has shown: the surface is switched on and configured, and the token of
-- its header is valid for the configured issuer and audience and names an admitted identity.
pub record IsAuthenticated (verify : Verifier) (env : AccessEnv) (header : Option Text)
    (identity : AccessIdentity) : Type 0 where
  pub enabled : env.demo_admin_enabled ≡ some (codes "true")
  pub domain : Text
  pub team : truthy env.access_team_domain ≡ some domain
  pub audience : Text
  pub aud : truthy env.access_aud ≡ some audience
  pub token : Text
  pub presented : truthy header ≡ some token
  pub verified : verify token (issuer_of domain) audience ≡ some identity
  pub admitted : IsAdmitted env identity.email

admit_lem :
    (env : AccessEnv) (identity got : AccessIdentity)
    → admit env got ≡ passed identity
    → (got ≡ identity) × ((domain_ok got.email || operator_ok env got.email) ≡ true)
unfolding admit
admit_lem env identity got h = (ground arith, ground arith)

IsAdmitted-of :
    (env : AccessEnv) (email : Text)
    → (domain_ok email || operator_ok env email) ≡ true
    → IsAdmitted env email
unfolding domain_ok operator_ok
IsAdmitted-of env email h = elim (Bool-cases (has_suffix domain_suffix (lower_case email))) [
  | inl e ↦ inl (has_suffix_sound domain_suffix (lower_case email) e)
  | inr e ↦
      let (entry, m, same) =
        any-Member (λ x. same_codes x (lower_case email)) (operator_emails env) (rw e at h) in
      inr (rw (← same_codes_sound entry (lower_case email) same) m)
]

check_token_lem :
    (env : AccessEnv) (o : Option AccessIdentity) (identity : AccessIdentity)
    → check_token env o ≡ passed identity
    → (o ≡ some identity) × IsAdmitted env identity.email
unfolding check_token
check_token_lem env none identity h = cc
check_token_lem env (some got) identity h =
    let (same, ok) = admit_lem env identity got h in
    (ap some same, IsAdmitted-of env identity.email (rw same at ok))

module _ (verify : Verifier) where
  with_token_lem :
      (env : AccessEnv) (domain aud : Text) (o : Option Text) (identity : AccessIdentity)
      → with_token verify env domain aud o ≡ passed identity
      → (token : Text) × (o ≡ some token)
        × (verify token (issuer_of domain) aud ≡ some identity)
        × IsAdmitted env identity.email
  unfolding with_token
  with_token_lem env domain aud none identity h = cc
  with_token_lem env domain aud (some token) identity h =
      let (valid, admitted) =
        check_token_lem env (verify token (issuer_of domain) aud) identity h in
      (token, refl, valid, admitted)

  with_config_lem :
      (env : AccessEnv) (d a header : Option Text) (identity : AccessIdentity)
      → with_config verify env d a header ≡ passed identity
      → (domain : Text) × (aud : Text) × (d ≡ some domain)
        × (a ≡ some aud)
        × (with_token verify env domain aud (truthy header) ≡ passed identity)
  unfolding with_config
  with_config_lem env (some domain) (some aud) header identity h = (domain, aud, refl, refl, h)
  with_config_lem env (some domain) none header identity h = cc
  with_config_lem env none _ header identity h = cc

is_true_lem : (o : Option Text) → is_true o ≡ true → o ≡ some (codes "true")
is_true_lem none h = cc
is_true_lem (some t) h = ap some (same_codes_sound t (codes "true") h)

-- A request reaches the handler only if it is authenticated; there is no way past the gate.
pub require_access_identity-IsAuthenticated :
    (verify : Verifier) (env : AccessEnv) (header : Option Text) (identity : AccessIdentity)
    → require_access_identity verify env header ≡ passed identity
    → IsAuthenticated verify env header identity
unfolding require_access_identity
require_access_identity-IsAuthenticated verify env header identity h =
    elim (Bool-cases (is_true env.demo_admin_enabled)) [
      | inr e ↦ absurd (hidden (rw e at h))
      | inl e ↦ shown e (rw e at h)
    ]
  where
    hidden : not_found ≡ passed identity → ⊥
    hidden k = cc

    shown :
        is_true env.demo_admin_enabled ≡ true
        → with_config verify env (truthy env.access_team_domain) (truthy env.access_aud) header
          ≡ passed identity
        → IsAuthenticated verify env header identity
    shown e k =
        let (domain, aud, team, audience, t) =
          with_config_lem verify env (truthy env.access_team_domain) (truthy env.access_aud) header
            identity k in
        let (token, presented, verified, admitted) =
          with_token_lem verify env domain aud (truthy header) identity t in
        record {
          enabled = is_true_lem env.demo_admin_enabled e;
          domain = domain;
          team = team;
          audience = aud;
          aud = audience;
          token = token;
          presented = presented;
          verified = verified;
          admitted = admitted;
        }
