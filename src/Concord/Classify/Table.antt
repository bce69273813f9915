-- ===== src/Concord/Classify/Table.antt =====
-- The classification table (packages/concord-core/src/classify.ts): what each action needs, and
-- when the table gives no action.
use doc_eng_demo.Prelude.{
  ℕ, ◌≡◌, ◌≢◌, refl, ◌↔◌, ◌⊎◌, inl, inr, Bool, true, false, ◌||◌, Option, none, some, [], includes,
  is_some, arith,
}
use doc_eng_demo.Value.{Value}
use doc_eng_demo.Contracts.Records.{deterministic_regen, grounded_patch, unresolved_conflict}
use doc_eng_demo.Concord.Types.{
  FactProjection, ProjectionMode, mechanical_value, derived_prose, model_extraction,
}
use doc_eng_demo.Concord.Authority.{Arbitration}
use doc_eng_demo.Concord.Classify.{
  ClassifyContext, classified, violation, classify, is_current, is_rendered, value_delta_kinds,
  ia_delta_kinds, is_generated, is_mechanical, is_violation, is_contested, is_substitution,
  is_groundable, is_human_work, first_rule,
}

-- No disagreement is known about the fact, and if it was arbitrated, its value has a source.
abbrev pub IsSettled : Option Arbitration → Type 0
IsSettled none = Unit
IsSettled (some a) = (a.conflicts ≡ []) × (is_some a.authoritative ≡ true)

-- A change without a reviewer is made only for a settled fact, on a value that was read without a
-- model, and that is generated, or stands at a known span and is replaced by a number or a text.
pub record IsDeterministic (ctx : ClassifyContext) (rule : ℕ) : Type 0 where
  pub settled : IsSettled ctx.arbitration
  pub stale : is_current ctx.projection ctx.delta.to ≡ false
  pub unmodelled : ctx.projection.extractor ≢ model_extraction
  pub mechanical :
      ((rule ≡ 2) × (ctx.projection.mode ≡ ProjectionMode.generated))
      ⊎ ((rule ≡ 3)
          × (ctx.projection.mode ≡ mechanical_value)
          × (ctx.projection.span ≢ none)
          × (is_rendered ctx.delta.to ≡ true))

IsSettled-of : (a : Option Arbitration) → is_contested a ≡ false → IsSettled a
unfolding is_contested
IsSettled-of none h = tt
IsSettled-of (some a) h = (ground arith, ground arith)

is_violation_lem :
    (p : FactProjection)
    → is_violation p ≡ false
    → (is_generated p.mode || is_mechanical p.mode) ≡ true
    → p.extractor ≢ model_extraction
unfolding is_violation
is_violation_lem p h k = ground arith

-- The ladder, over the outcomes of its tests.
module _ (v c n g s p e : Bool) where
  first_rule-deterministic :
      {rule : ℕ}
      → first_rule v c n g s p e ≡ classified deterministic_regen rule
      → (v ≡ false)
        × (c ≡ false)
        × (n ≡ false)
        × (((rule ≡ 2) × (g ≡ true)) ⊎ ((rule ≡ 3) × (s ≡ true)))
  unfolding first_rule
  first_rule-deterministic h = ground arith

  first_rule-grounded :
      {rule : ℕ}
      → first_rule v c n g s p e ≡ classified grounded_patch rule
      → (c ≡ false) × (n ≡ false) × (p ≡ true) × (rule ≡ 4)
  unfolding first_rule
  first_rule-grounded h = ground arith

  first_rule-contested :
      v ≡ false → (first_rule v c n g s p e ≡ classified unresolved_conflict 1) ↔ (c ≡ true)
  unfolding first_rule
  first_rule-contested h = ground arith

mechanical_of :
    (ctx : ClassifyContext) (rule : ℕ)
    → ((rule ≡ 2) × (is_generated ctx.projection.mode ≡ true))
      ⊎ ((rule ≡ 3) × (is_substitution ctx.projection ctx.delta.to ≡ true))
    → ((rule ≡ 2) × (ctx.projection.mode ≡ ProjectionMode.generated))
      ⊎ ((rule ≡ 3)
          × (ctx.projection.mode ≡ mechanical_value)
          × (ctx.projection.span ≢ none)
          × (is_rendered ctx.delta.to ≡ true))
unfolding is_substitution
mechanical_of ctx rule (inl (e, g)) = inl (e, ground arith)
mechanical_of ctx rule (inr (e, s)) = inr (e, ground arith, ground arith, ground arith)

touched_of :
    (ctx : ClassifyContext) (rule : ℕ)
    → ((rule ≡ 2) × (is_generated ctx.projection.mode ≡ true))
      ⊎ ((rule ≡ 3) × (is_substitution ctx.projection ctx.delta.to ≡ true))
    → (is_generated ctx.projection.mode || is_mechanical ctx.projection.mode) ≡ true
unfolding is_substitution
touched_of ctx rule (inl (e, g)) = ground arith
touched_of ctx rule (inr (e, s)) = ground arith

-- A deterministic action is chosen only for a projection that no model extracted, whose fact is
-- settled and whose value is not already the new one: by rule 2 for a generated projection, and by
-- rule 3 for a mechanical one with a span and a new value that is a number or a text.
pub classify-IsDeterministic :
    (ctx : ClassifyContext) (rule : ℕ)
    → classify ctx ≡ classified deterministic_regen rule
    → IsDeterministic ctx rule
unfolding classify
classify-IsDeterministic ctx rule h =
    let (v, c, n, m) =
      first_rule-deterministic (is_violation ctx.projection) (is_contested ctx.arbitration)
        (is_current ctx.projection ctx.delta.to) (is_generated ctx.projection.mode)
        (is_substitution ctx.projection ctx.delta.to)
        (is_groundable ctx.projection ctx.delta.kind ctx.arbitration)
        (is_human_work ctx.projection ctx.delta.kind ctx.unit.owner) h in
    record {
      settled = IsSettled-of ctx.arbitration c;
      stale = n;
      unmodelled = is_violation_lem ctx.projection v (touched_of ctx rule m);
      mechanical = mechanical_of ctx rule m;
    }

-- The disagreement that blocks a fact: a recorded conflict, or no authoritative claim.
abbrev pub IsContested : Option Arbitration → Type 0
IsContested none = ⊥
IsContested (some a) = (a.conflicts ≢ []) ⊎ (a.authoritative ≡ none)

IsContested-iff : (a : Option Arbitration) → (is_contested a ≡ true) ↔ IsContested a
unfolding is_contested
IsContested-iff none = ground arith
IsContested-iff (some a) = ground arith

-- Unless a model's extraction claims to be mechanical, which is an error, the outcome is an
-- unresolved conflict exactly when the fact is contested, whatever else holds.
pub classify-IsContested_iff :
    (ctx : ClassifyContext)
    → classify ctx ≢ violation
    → (classify ctx ≡ classified unresolved_conflict 1) ↔ IsContested ctx.arbitration
unfolding classify first_rule
classify-IsContested_iff ctx h =
    let (to, from) = IsContested-iff ctx.arbitration in
    let (up, down) =
      first_rule-contested (is_violation ctx.projection) (is_contested ctx.arbitration)
        (is_current ctx.projection ctx.delta.to) (is_generated ctx.projection.mode)
        (is_substitution ctx.projection ctx.delta.to)
        (is_groundable ctx.projection ctx.delta.kind ctx.arbitration)
        (is_human_work ctx.projection ctx.delta.kind ctx.unit.owner)
        (not_violation (is_violation ctx.projection) h) in
    (λ e. to (up e), λ k. down (from k))
  where
    not_violation :
        (b : Bool)
        → first_rule b
            (is_contested ctx.arbitration)
            (is_current ctx.projection ctx.delta.to)
            (is_generated ctx.projection.mode)
            (is_substitution ctx.projection ctx.delta.to)
            (is_groundable ctx.projection ctx.delta.kind ctx.arbitration)
            (is_human_work ctx.projection ctx.delta.kind ctx.unit.owner)
          ≢ violation
        → b ≡ false
    not_violation false k = refl
    not_violation true k = absurd (k refl)

-- What a projection without an action looks like.
pub record IsGap (ctx : ClassifyContext) : Type 0 where
  pub settled : IsSettled ctx.arbitration
  pub stale : is_current ctx.projection ctx.delta.to ≡ false
  pub owner : ctx.unit.owner ≡ "concord"
  pub no_redesign : includes ia_delta_kinds ctx.delta.kind ≡ false
  pub shape :
      ((ctx.projection.mode ≡ derived_prose) × (includes value_delta_kinds ctx.delta.kind ≡ false))
      ⊎ ((ctx.projection.mode ≡ mechanical_value)
          × ((ctx.projection.span ≡ none) ⊎ (is_rendered ctx.delta.to ≡ false)))
