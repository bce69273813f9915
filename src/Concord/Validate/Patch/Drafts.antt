-- ===== src/Concord/Validate/Patch/Drafts.antt =====
-- What a patch is like that packages/concord-core/src/patch-validate.ts rejects for its risk alone,
-- so that it may stay as a draft for an editor.
use doc_eng_demo.Prelude.{
  ◌≡◌, ◌≢◌, refl, Bool, true, false, not, Option, none, some, List, [], Member, find?, Option-cases,
  codes, inl, inr,
}
use doc_eng_demo.Contracts.Records.{FactClaim, Evidence, PatchValidation}
use doc_eng_demo.Concord.Types.{FactProjection}
use doc_eng_demo.Concord.Validate.Path.{path_allowlisted}
use doc_eng_demo.Concord.Validate.Path.Safe.{IsSafePath, path_allowlisted-IsSafePath}
use doc_eng_demo.Concord.Validate.Patch.{
  ValidatePatchInput, Operations, PatchVerdict, accepted, rejected, Rejection, or_reject,
  reject_first, reject_if, resolves, introduces, gate_a, plain_rejection, unresolvable_locator,
  new_fact, zero_evidence, unsafe_body, path_not_allowlisted, new_projections, body_content_safe,
  validate_patch,
}
use doc_eng_demo.Concord.Validate.Patch.Gates.{
  validate_patch-IsValid, reject_if-none, reject_first-none, resolves-claim, has_evidence-some,
  not-false,
}

-- All that the gates before the last ask for.
pub record IsChecked (ops : Operations) (i : ValidatePatchInput) : Type 0 where
  pub evident : i.proposal.evidence ≢ []
  pub resolvable :
      (e : Evidence)
      → Member e i.proposal.evidence
      → (claim : FactClaim) × Member claim i.facts
        × (claim.key ≡ e.fact_key)
        × (claim.locator ≡ e.locator)
  pub grounded :
      (p : FactProjection) → Member p (new_projections ops i) → introduces ops i p ≡ false
  pub safe_body : body_content_safe i.proposal.new_body ≡ true
  pub safe_path : IsSafePath ops.nfc (codes i.unit.path)

pub accepted-IsChecked :
    (ops : Operations) (i : ValidatePatchInput) (v : PatchValidation)
    → validate_patch ops i ≡ accepted v
    → IsChecked ops i
accepted-IsChecked ops i v h =
    let w = validate_patch-IsValid ops i v h in
    record {
      evident = w.evident;
      resolvable = w.resolvable;
      grounded = w.grounded;
      safe_body = w.safe_body;
      safe_path = w.safe_path;
    }

-- A gate that asks for no editor lets pass what is rejected with the wish for one.
abbrev IsPlain : Option Rejection → Type 0
IsPlain o = (r : Rejection) → o ≡ some r → r.force_editorial ≡ false

or_reject-forced :
    (o : Option Rejection) (v : PatchVerdict) {r : Rejection}
    → IsPlain o
    → or_reject o v ≡ rejected r
    → r.force_editorial ≡ true
    → (o ≡ none) × (v ≡ rejected r)
or_reject-forced none v plain h f = (refl, h)
or_reject-forced (some q) v {r} plain h f = absurd (clash (plain r (cc)) f)
  where
    clash : {b : Bool} → b ≡ false → b ≡ true → ⊥
    clash x y = cc

reject_if-IsPlain : (b : Bool) (q : Rejection) → q.force_editorial ≡ false → IsPlain (reject_if b q)
reject_if-IsPlain true q h r e = cc
reject_if-IsPlain false q h r e = absurd (cc)

reject_first-IsPlain :
    {A : Type 0} (p : A → Bool) (q : A → Rejection) (xs : List A)
    → ((a : A) → (q a).force_editorial ≡ false)
    → IsPlain (reject_first p q xs)
reject_first-IsPlain {A} p q xs plain r h = elim (Option-cases (find? p xs)) [
  | inl e ↦ absurd (none_some (rw (e, reject_first) at h))
  | inr (a, e) ↦ same a (rw (e, reject_first) at h)
]
  where
    none_some : none ≡ some r → ⊥
    none_some k = cc

    same : (a : A) → some (q a) ≡ some r → r.force_editorial ≡ false
    same a k = let w : q a ≡ r = cc in rw (← w) (plain a)

-- A patch that is rejected with the wish for an editor has passed all gates before the last: its
-- evidence is there and resolves, no registered fact comes in without it, and the body and the path
-- are safe.
pub forced-IsChecked :
    (ops : Operations) (i : ValidatePatchInput) (r : Rejection)
    → validate_patch ops i ≡ rejected r
    → r.force_editorial ≡ true
    → IsChecked ops i
unfolding validate_patch
forced-IsChecked ops i r h f =
    let (a, h1) = or_reject-forced _ _ (reject_if-IsPlain _ (gate_a zero_evidence) refl) h f in
    let (b, h2) =
      or_reject-forced _ _
        (reject_first-IsPlain (λ y. not (resolves i.facts y)) (λ y. gate_a (unresolvable_locator y))
          i.proposal.evidence (λ x. refl))
        h1 f in
    let (c, h3) =
      or_reject-forced _ _
        (reject_first-IsPlain (introduces ops i) (λ p. plain_rejection (new_fact p))
          (new_projections ops i) (λ x. refl))
        h2 f in
    let (d, h4) =
      or_reject-forced _ _ (reject_if-IsPlain _ (plain_rejection unsafe_body) refl) h3 f in
    let (e, _) =
      or_reject-forced _ _ (reject_if-IsPlain _ (plain_rejection path_not_allowlisted) refl) h4 f in
    record {
      evident = has_evidence-some i.proposal.evidence (reject_if-none _ _ a);
      resolvable = λ x m. resolves-claim i.facts x (
          not-false (resolves i.facts x) (
            reject_first-none (λ y. not (resolves i.facts y)) (λ y. gate_a (unresolvable_locator y))
              i.proposal.evidence b x m));
      grounded =
          reject_first-none (introduces ops i) (λ p. plain_rejection (new_fact p))
            (new_projections ops i) c;
      safe_body = not-false (body_content_safe i.proposal.new_body) (reject_if-none _ _ d);
      safe_path =
          path_allowlisted-IsSafePath ops.nfc (codes i.unit.path)
            (not-false (path_allowlisted ops.nfc (codes i.unit.path)) (reject_if-none _ _ e));
    }
