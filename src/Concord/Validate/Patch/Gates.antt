-- ===== src/Concord/Validate/Patch/Gates.antt =====
-- What an accepted patch of packages/concord-core/src/patch-validate.ts is like.
use doc_eng_demo.Prelude.{
  ◌≡◌, ◌≢◌, refl, Bool, true, false, not, Option, none, some, List, [], ◌∷◌, find?, find?-Member,
  Member, Option-cases, Bool-cases, arith, ◌==◌, eq_iff, codes, inl, inr,
}
use doc_eng_demo.Contracts.Records.{
  FactClaim, Evidence, EditorialRisk, structure, meaning, PatchValidation,
}
use doc_eng_demo.Concord.Types.{FactProjection}
use doc_eng_demo.Concord.Validate.Path.{path_allowlisted}
use doc_eng_demo.Concord.Validate.Path.Safe.{IsSafePath, path_allowlisted-IsSafePath}
use doc_eng_demo.Concord.Validate.Patch.{
  ValidatePatchInput, Operations, PatchVerdict, accepted, Rejection, or_reject, reject_first,
  reject_if, resolves, introduces, has_evidence, is_risky, gate_a, plain_rejection,
  unresolvable_locator, new_fact, new_projections, body_content_safe, validate_patch,
}

-- The evidence is in the snapshot, no fact comes in that the evidence does not name, the body has
-- nothing that runs, the file may be written, and the risk is one that needs no editor.
pub record IsValid (ops : Operations) (i : ValidatePatchInput) : Type 0 where
  pub evident : i.proposal.evidence ≢ []
  pub resolvable :
      (e : Evidence)
      → Member e i.proposal.evidence
      → (claim : FactClaim) × Member claim i.facts
        × (claim.key ≡ e.fact_key)
        × (claim.locator ≡ e.locator)
  pub grounded :
      (p : FactProjection) → Member p (new_projections ops i) → introduces ops i p ≡ false
  pub safe_body : body_content_safe i.proposal.new_body ≡ true
  pub safe_path : IsSafePath ops.nfc (codes i.unit.path)
  pub no_restructuring : i.proposal.editorial_risk ≢ structure
  pub no_new_meaning : i.proposal.editorial_risk ≢ meaning

or_reject-accepted :
    (o : Option Rejection) (v : PatchVerdict) {x : PatchValidation}
    → or_reject o v ≡ accepted x
    → (o ≡ none) × (v ≡ accepted x)
or_reject-accepted none v h = (refl, h)
or_reject-accepted (some r) v h = cc

pub reject_if-none : (b : Bool) (r : Rejection) → reject_if b r ≡ none → b ≡ false
reject_if-none true r h = cc
reject_if-none false r h = refl

pub find?-none :
    {A : Type 0} (p : A → Bool) (xs : List A) (x : A)
    → find? p xs ≡ none
    → Member x xs
    → p x ≡ false
find?-none p [] x h m = absurd m
find?-none p (y ∷ ys) x h m = elim (Bool-cases (p y)) [
  | inl e ↦ absurd (some_none (rw e at h))
  | inr e ↦ split e m (find?-none p ys x (rw e at h))
]
  where
    some_none : some y ≡ none → ⊥
    some_none k = cc

    split : p y ≡ false → Member x (y ∷ ys) → (Member x ys → p x ≡ false) → p x ≡ false
    split e (inl q) ih = rw q e
    split e (inr n) ih = ih n

pub reject_first-none :
    {A : Type 0} (p : A → Bool) (r : A → Rejection) (xs : List A)
    → reject_first p r xs ≡ none
    → (x : A) → Member x xs
    → p x ≡ false
reject_first-none {A} p r xs h x m = elim (Option-cases (find? p xs)) [
  | inl e ↦ find?-none p xs x e m
  | inr (a, e) ↦ absurd (some_none a (rw (e, reject_first) at h))
]
  where
    some_none : (a : A) → some (r a) ≡ none → ⊥
    some_none a k = cc

pub resolves-claim :
    (facts : List FactClaim) (e : Evidence)
    → resolves facts e ≡ true
    → (claim : FactClaim) × Member claim facts
      × (claim.key ≡ e.fact_key)
      × (claim.locator ≡ e.locator)
resolves-claim facts e h =
    elim (Option-cases (find? (λ (f : FactClaim). f.key == e.fact_key) facts)) [
      | inl q ↦ absurd (false_true (rw (q, resolves) at h))
      | inr (c, q) ↦
          let (m, k) = find?-Member (λ (f : FactClaim). f.key == e.fact_key) facts q in
          (
            c,
            m,
            (eq_iff c.key e.fact_key).0 k,
            (eq_iff c.locator e.locator).0 (rw (q, resolves) at h),
          )
    ]
  where
    false_true : false ≡ true → ⊥
    false_true k = cc

pub has_evidence-some : (es : List Evidence) → not (has_evidence es) ≡ false → es ≢ []
has_evidence-some [] h q = absurd (ground arith)
has_evidence-some (e ∷ es) h q = cc

is_risky-apart : (r : EditorialRisk) → is_risky r ≡ false → (r ≢ structure) × (r ≢ meaning)
is_risky-apart r h = (λ e. apart (rw e at h), λ e. apart (rw e at h))
  where
    apart : true ≡ false → ⊥
    apart k = cc

pub not-false : (b : Bool) → not b ≡ false → b ≡ true
not-false b h = ground arith

-- A patch is accepted only if all gates let it pass: its evidence is there and each locator is that
-- of a claim on its key, each registered fact of the new body is in the evidence or in the old
-- body, the body and the path are safe, and its risk is neither structure nor meaning.
pub validate_patch-IsValid :
    (ops : Operations) (i : ValidatePatchInput) (v : PatchValidation)
    → validate_patch ops i ≡ accepted v
    → IsValid ops i
unfolding validate_patch
validate_patch-IsValid ops i v h =
    let (a, h1) = or_reject-accepted _ _ h in
    let (b, h2) = or_reject-accepted _ _ h1 in
    let (c, h3) = or_reject-accepted _ _ h2 in
    let (d, h4) = or_reject-accepted _ _ h3 in
    let (e, h5) = or_reject-accepted _ _ h4 in
    let (f, _) = or_reject-accepted _ _ h5 in
    let (r1, r2) = is_risky-apart i.proposal.editorial_risk (reject_if-none _ _ f) in
    record {
      evident = has_evidence-some i.proposal.evidence (reject_if-none _ _ a);
      resolvable = λ x m. resolves-claim i.facts x (
          not-false (resolves i.facts x) (
            reject_first-none (λ y. not (resolves i.facts y)) (λ y. gate_a (unresolvable_locator y))
              i.proposal.evidence b x m));
      grounded =
          reject_first-none (introduces ops i) (λ p. plain_rejection (new_fact p))
            (new_projections ops i) c;
      safe_body = not-false (body_content_safe i.proposal.new_body) (reject_if-none _ _ d);
      safe_path =
          path_allowlisted-IsSafePath ops.nfc (codes i.unit.path)
            (not-false (path_allowlisted ops.nfc (codes i.unit.path)) (reject_if-none _ _ e));
      no_restructuring = r1;
      no_new_meaning = r2;
    }
