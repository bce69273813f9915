-- ===== src/Concord/Validate/Patch.antt =====
-- packages/concord-core/src/patch-validate.ts: the gates that a model's patch passes. The
-- extractors and the digest are operations that the validation is given; the reason of a rejection
-- is a constructor for each text of the source.
pub mod Gates
pub mod Drafts
use doc_eng_demo.Prelude.{
  String, Bool, true, false, ◌&&◌, ◌||◌, not, Option, none, some, List, [], ◌∷◌, any, find?,
  is_some, ◌==◌, codes,
}
use doc_eng_demo.Contracts.Facts.{match_fact_key}
use doc_eng_demo.Contracts.Records.{
  Text, FactClaim, Evidence, EditorialRisk, structure, meaning, PatchProposal, PatchValidation,
  ActionClass, unresolved_conflict,
}
use doc_eng_demo.Concord.Types.{DocUnit, FactProjection}
use doc_eng_demo.Concord.Content.{has_tag, has_handler, has_javascript_uri, has_statement}
use doc_eng_demo.Concord.Validate.Path.{path_allowlisted}

unfoldable pub body_content_safe : Text → Bool
body_content_safe body =
    not (any (λ w. has_tag (codes w) body) ("script" ∷ "iframe" ∷ "object" ∷ "embed" ∷ []))
    && (not (has_handler body)
        && (not (has_javascript_uri body)
            && not (any (λ w. has_statement (codes w) body) ("import" ∷ "export" ∷ []))))

pub data Reason : Type 0 where
  zero_evidence : Reason
  unresolvable_locator : Evidence → Reason
  new_fact : FactProjection → Reason
  unsafe_body : Reason
  path_not_allowlisted : Reason
  risk_forced : Reason

pub record Rejection : Type 0 where
  pub reason : Reason
  pub reclassify_to : Option ActionClass
  pub force_editorial : Bool

pub data PatchVerdict : Type 0 where
  accepted : PatchValidation → PatchVerdict
  rejected : Rejection → PatchVerdict

pub record ValidatePatchInput : Type 0 where
  pub proposal : PatchProposal
  pub unit : DocUnit
  pub facts : List FactClaim
  pub detected_at : String

-- What the validation calls: the projections of one unit, the digest and the normal form.
pub record Operations : Type 0 where
  pub run_extractors : DocUnit → List FactClaim → String → List FactProjection
  pub sha256_hex : Text → String
  pub nfc : Text → Text

abbrev pub or_reject : Option Rejection → PatchVerdict → PatchVerdict
or_reject none v = v
or_reject (some r) v = rejected r

-- Gate (a): the first claim on the key has the locator.
abbrev pub resolves : List FactClaim → Evidence → Bool
resolves facts e = elim (find? (λ f. f.key == e.fact_key) facts) [
  | none ↦ false
  | some claim ↦ claim.locator == e.locator
]

abbrev pub gate_a : Reason → Rejection
gate_a r = record { reason = r; reclassify_to = some unresolved_conflict; force_editorial = false }

abbrev pub plain_rejection : Reason → Rejection
plain_rejection r = record { reason = r; reclassify_to = none; force_editorial = false }

-- The first item that fails, with what is said of it.
abbrev pub reject_first {ℓ} :
    {A : Type ℓ} → (A → Bool) → (A → Rejection) → List A → Option Rejection
reject_first p r xs = elim (find? p xs) [ none ↦ none | some x ↦ some (r x) ]

abbrev pub reject_if : Bool → Rejection → Option Rejection
reject_if true r = some r
reject_if false r = none

abbrev pub has_evidence : List Evidence → Bool
has_evidence [] = false
has_evidence (e ∷ es) = true

abbrev pub is_risky : EditorialRisk → Bool
is_risky structure = true
is_risky meaning = true
is_risky _ = false

abbrev pub cites : List Evidence → String → Bool
cites evidence key = any (λ e. e.fact_key == key) evidence

module _ (ops : Operations) where
  -- The unit with the proposed body.
  abbrev pub synthetic_unit : ValidatePatchInput → DocUnit
  synthetic_unit i = record i.unit {
    body = i.proposal.new_body;
    body_sha256 = ops.sha256_hex i.proposal.new_body;
  }

  abbrev pub new_projections : ValidatePatchInput → List FactProjection
  new_projections i = ops.run_extractors (synthetic_unit i) i.facts i.detected_at

  -- Gate (b): a registered fact that the evidence does not name and the old body does not assert.
  abbrev pub introduces : ValidatePatchInput → FactProjection → Bool
  introduces i p =
      is_some (match_fact_key p.fact_key)
      && (not (cites i.proposal.evidence p.fact_key)
          && not (
              any (λ q. q.fact_key == p.fact_key)
                (ops.run_extractors i.unit i.facts i.detected_at)))

  abbrev accepted_validation : PatchValidation
  accepted_validation = record {
    evidence_resolvable = true;
    introduces_no_new_facts = true;
    respects_editorial_register = true;
    path_allowlisted = true;
    falsification = record { attempted = false; refuted = false; refutation = none };
  }

  unfoldable pub validate_patch : ValidatePatchInput → PatchVerdict
  validate_patch i =
      or_reject (reject_if (not (has_evidence i.proposal.evidence)) (gate_a zero_evidence)) (
        or_reject
          (reject_first (λ e. not (resolves i.facts e)) (λ e. gate_a (unresolvable_locator e))
            i.proposal.evidence)
          (or_reject
            (reject_first (introduces i) (λ p. plain_rejection (new_fact p)) (new_projections i))
            (or_reject
              (reject_if (not (body_content_safe i.proposal.new_body))
                (plain_rejection unsafe_body))
              (or_reject
                (reject_if (not (path_allowlisted ops.nfc (codes i.unit.path)))
                  (plain_rejection path_not_allowlisted))
                (or_reject
                  (reject_if (is_risky i.proposal.editorial_risk)
                    (record { reason = risk_forced; reclassify_to = none; force_editorial = true }))
                  (accepted accepted_validation))))))
