-- ===== src/Concord/Pipeline/Impacts.antt =====
-- The impacts of a run of the pipeline (packages/concord-core/src/pipeline.ts): one for every
-- projection of every changed fact, whatever else the run patches.
use doc_eng_demo.Prelude.{
  ℕ, ◌≡◌, refl, sym, ◌∙◌, ap, true, Option, none, some, List, [], ◌∷◌, ◌++◌, flat_map, Member,
  flat_map-Member, Member-flat_map, includes, arith, Option-cases, inl, inr, if◌then◌else◌,
  append-nil, append_assoc, ◌>>=◌,
}
use doc_eng_demo.Contracts.Records.{ActionClass, ConflictDraft}
use doc_eng_demo.Concord.Types.{DocUnit, FactProjection, FactDelta, Impact, unresolved}
use doc_eng_demo.Concord.Classify.{Classification, classified, violation, exhausted, classify}
use doc_eng_demo.Concord.Pipeline.{
  Context, Pending, PendingFile, impact_of, unit_of, is_blocked, after_classify, record_impact,
  visit, visit_all, context_of, patch_step, Stages, PipelineInput, PipelineOutput, run_pipeline,
  seed, context, generated_of, finish, output_of, run_units, run_rounds,
}

-- The impact that a classification gives on its own, with no regard to patches.
abbrev impact_from : Context → FactDelta → FactProjection → Classification → List Impact
impact_from ctx d p (classified action rule) = impact_of p d (is_blocked ctx d) action rule ∷ []
impact_from ctx d p violation = []
impact_from ctx d p exhausted = []

-- The impact of one projection of a changed fact: none only where its unit is not known.
pub judged : Context → FactDelta × FactProjection → List Impact
judged ctx (d, p) = elim (unit_of ctx.units p) [
  | none ↦ []
  | some unit ↦ impact_from ctx d p (classify (context_of ctx p d unit))
]

after_classify-impacts :
    (ctx : Context) (unit : DocUnit) (p : FactProjection) (d : FactDelta) (s : Pending)
    (c : Classification) {s' : Pending}
    → after_classify ctx unit p d s c ≡ some s'
    → s'.impacts ≡ s.impacts ++ impact_from ctx d p c
unfolding after_classify
after_classify-impacts ctx unit p d s violation h = cc
after_classify-impacts ctx unit p d s exhausted h = cc
after_classify-impacts ctx unit p d s (classified action rule) {s'} h =
    recorded (if is_blocked ctx d then some s.files else patch_step ctx unit p d action s.files) h
  where
    recorded :
        (files : Option (List PendingFile))
        → record_impact ctx s (impact_of p d (is_blocked ctx d) action rule ∷ []) files ≡ some s'
        → s'.impacts ≡ s.impacts ++ impact_of p d (is_blocked ctx d) action rule ∷ []
    recorded none e = cc
    recorded (some files) e = ground arith

visit-impacts :
    (ctx : Context) (t : FactDelta × FactProjection) (s : Pending) {s' : Pending}
    → visit ctx t s ≡ some s'
    → s'.impacts ≡ s.impacts ++ judged ctx t
unfolding visit judged
visit-impacts ctx (d, p) s {s'} h = elim (Option-cases (unit_of ctx.units p)) [
  | inl e ↦ rw (e, judged) (unchanged (rw (e, visit) at h))
  | inr (unit, e) ↦
      rw (e, judged)
        (after_classify-impacts ctx unit p d s (classify (context_of ctx p d unit))
          (rw (e, visit) at h))
]
  where
    unchanged : some s ≡ some s' → s'.impacts ≡ s.impacts ++ []
    unchanged k = ground (arith, append-nil s.impacts)

visit_all-impacts :
    (ctx : Context) (ts : List (FactDelta × FactProjection)) (s : Pending) {s' : Pending}
    → visit_all ctx ts s ≡ some s'
    → s'.impacts ≡ s.impacts ++ flat_map (judged ctx) ts
unfolding visit_all
visit_all-impacts ctx [] s {s'} h = ground (arith, append-nil s.impacts)
visit_all-impacts ctx (t ∷ ts) s {s'} h = elim (Option-cases (visit ctx t s)) [
  | inl e ↦ absurd (stopped (rw (e, visit_all) at h))
  | inr (m, e) ↦
      visit_all-impacts ctx ts m (rw (e, visit_all) at h)
      ∙ (ap (λ l. l ++ flat_map (judged ctx) ts) (visit-impacts ctx t s e)
          ∙ append_assoc s.impacts (judged ctx t) (flat_map (judged ctx) ts))
]
  where
    stopped : none ≡ some s' → ⊥
    stopped k = cc

finish-some :
    (stages : Stages) (input : PipelineInput) (conflicts : List ConflictDraft) (o : Option Pending)
    {out : PipelineOutput}
    → finish stages input conflicts o ≡ some out
    → (s : Pending) × (o ≡ some s) × (out ≡ output_of stages input conflicts s)
finish-some stages input conflicts none h = cc
finish-some stages input conflicts (some s) h = (s, refl, cc)

module _ (stages : Stages) (input : PipelineInput) where
  abbrev pub run_context : List ConflictDraft → Context
  run_context conflicts = context stages input conflicts

  -- A run that ends has gone through all rounds.
  pub run_pipeline_loop :
      {out : PipelineOutput}
      → run_pipeline stages input ≡ some out
      → (s : Pending) × (visit_all
            (run_context out.conflicts)
            (run_rounds stages input)
            (seed stages (generated_of stages input).diffs)
          ≡ some s)
        × (out ≡ output_of stages input out.conflicts s)
  unfolding run_pipeline output_of
  run_pipeline_loop {out} h =
      detected (stages.detect_conflicts input.current.facts (run_units stages input)) h
    where
      detected :
          (o : Option (List ConflictDraft))
          → (o >>= λ conflicts. finish stages input conflicts (
              visit_all
                (run_context conflicts)
                (run_rounds stages input)
                (seed stages (generated_of stages input).diffs)))
            ≡ some out
          → (s : Pending) × (visit_all
                (run_context out.conflicts)
                (run_rounds stages input)
                (seed stages (generated_of stages input).diffs)
              ≡ some s)
            × (out ≡ output_of stages input out.conflicts s)
      detected none k = cc
      detected (some conflicts) k =
          let (s, loop, same) = finish-some stages input conflicts _ k in
          let e : out.conflicts ≡ conflicts = ap (λ (x : PipelineOutput). x.conflicts) same in
          (s, rw e loop, same ∙ ap (λ c. output_of stages input c s) (sym e))

  -- The impacts of a run are, in order, those of the rounds, each by the classification of its
  -- projection alone: no patch, generator or finding of the run adds, drops or changes one.
  pub run_pipeline-impacts :
      (out : PipelineOutput)
      → run_pipeline stages input ≡ some out
      → out.impacts ≡ flat_map (judged (run_context out.conflicts)) (run_rounds stages input)
  unfolding output_of
  run_pipeline-impacts out h =
      let (s, loop, same) = run_pipeline_loop h in
      ap (λ (o : PipelineOutput). o.impacts) same
      ∙ visit_all-impacts (run_context out.conflicts) (run_rounds stages input)
          (seed stages (generated_of stages input).diffs) loop

visit-classify :
    (ctx : Context) (d : FactDelta) (p : FactProjection) (unit : DocUnit) (s : Pending)
    {next : Pending}
    → unit_of ctx.units p ≡ some unit
    → visit ctx (d, p) s ≡ some next
    → after_classify ctx unit p d s (classify (context_of ctx p d unit)) ≡ some next
unfolding visit
visit-classify ctx d p unit s e h = rw (e, visit) at h

classified_of :
    (ctx : Context) (unit : DocUnit) (p : FactProjection) (d : FactDelta) (s : Pending)
    (c : Classification) {next : Pending}
    → after_classify ctx unit p d s c ≡ some next
    → (action : ActionClass) × (rule : ℕ) × (c ≡ classified action rule)
unfolding after_classify
classified_of ctx unit p d s violation h = cc
classified_of ctx unit p d s exhausted h = cc
classified_of ctx unit p d s (classified action rule) h = (action, rule, refl)

-- No error is passed over: in a run that ends, every round whose unit is known was classified.
visit_all-classified :
    (ctx : Context) (ts : List (FactDelta × FactProjection)) (s : Pending) {s' : Pending}
    (d : FactDelta) (p : FactProjection) (unit : DocUnit)
    → visit_all ctx ts s ≡ some s'
    → Member (d, p) ts
    → unit_of ctx.units p ≡ some unit
    → (action : ActionClass) × (rule : ℕ) × (classify (context_of ctx p d unit)
        ≡ classified action rule)
unfolding visit_all
visit_all-classified ctx [] s d p unit h m e = absurd m
visit_all-classified ctx (t ∷ ts) s {s'} d p unit h m e = elim (Option-cases (visit ctx t s)) [
  | inl k ↦ absurd (stopped (rw (k, visit_all) at h))
  | inr (next, k) ↦
      later next k m
        (λ there. visit_all-classified ctx ts next d p unit (rw (k, visit_all) at h) there e)
]
  where
    stopped : none ≡ some s' → ⊥
    stopped k = cc

    later :
        (next : Pending)
        → visit ctx t s ≡ some next
        → Member (d, p) (t ∷ ts)
        → (Member (d, p) ts
            → (action : ActionClass) × (rule : ℕ) × (classify (context_of ctx p d unit)
                ≡ classified action rule))
        → (action : ActionClass) × (rule : ℕ) × (classify (context_of ctx p d unit)
            ≡ classified action rule)
    later next k (inl here) rest =
        classified_of ctx unit p d s (classify (context_of ctx p d unit))
          (visit-classify ctx d p unit s {next = next} e (rw (← here) at k))
    later next k (inr there) rest = rest there

judged_lem :
    (ctx : Context) (d : FactDelta) (p : FactProjection) (unit : DocUnit) (action : ActionClass)
    (rule : ℕ)
    → unit_of ctx.units p ≡ some unit
    → classify (context_of ctx p d unit) ≡ classified action rule
    → Member (impact_of p d (is_blocked ctx d) action rule) (judged ctx (d, p))
unfolding judged
judged_lem ctx d p unit _ rule e c = rw (e, judged) (rw c (inl refl))

context_unit :
    (stages : Stages) (input : PipelineInput) (conflicts : List ConflictDraft) (p : FactProjection)
    {unit : DocUnit}
    → unit_of (run_units stages input) p ≡ some unit
    → unit_of (run_context stages input conflicts).units p ≡ some unit
unfolding context
context_unit stages input conflicts p e = e

judged-blocked :
    (ctx : Context) (t : FactDelta × FactProjection) (i : Impact)
    → Member i (judged ctx t)
    → includes ctx.conflicted i.fact_key ≡ true
    → i.disposition ≡ unresolved
unfolding judged
judged-blocked ctx (d, p) i m c = elim (Option-cases (unit_of ctx.units p)) [
  | inl e ↦ absurd (rw (e, judged) at m)
  | inr (unit, e) ↦ blocked (classify (context_of ctx p d unit)) (rw (e, judged) at m)
]
  where
    blocked : (k : Classification) → Member i (impact_from ctx d p k) → i.disposition ≡ unresolved
    blocked violation n = absurd n
    blocked exhausted n = absurd n
    blocked (classified _ rule) (inl q) = rw q (rw (rw q at c) refl)
    blocked (classified _ rule) (inr n) = absurd n

-- Every projection of a changed fact, in a unit of the estate, has its impact in a run that ends:
-- under the fact's key, for that unit and that projection.
pub run_pipeline_complete :
    (stages : Stages) (input : PipelineInput) (out : PipelineOutput) (d : FactDelta)
    (p : FactProjection) (unit : DocUnit)
    → run_pipeline stages input ≡ some out
    → Member (d, p) (run_rounds stages input)
    → unit_of (run_units stages input) p ≡ some unit
    → (i : Impact) × Member i out.impacts
      × (i.fact_key ≡ d.fact_key)
      × (i.doc_unit_id ≡ p.doc_unit_id)
      × (i.projection_id ≡ p.id)
run_pipeline_complete stages input out d p unit h m e =
    let ctx = run_context stages input out.conflicts in
    let (s, loop, _) = run_pipeline_loop stages input h in
    let (action, rule, c) =
      visit_all-classified ctx (run_rounds stages input)
        (seed stages (generated_of stages input).diffs) d p unit loop m
        (context_unit stages input out.conflicts p e) in
    let i = impact_of p d (is_blocked ctx d) action rule in
    (
      i,
      rw (run_pipeline-impacts stages input out h) (
          Member-flat_map (judged ctx) (run_rounds stages input) (d, p) i m
            (judged_lem ctx d p unit action rule (context_unit stages input out.conflicts p e) c)),
      refl,
      refl,
      refl,
    )

-- While a fact's key is in conflict, no impact on it has another disposition than `unresolved`.
pub run_pipeline-blocked :
    (stages : Stages) (input : PipelineInput) (out : PipelineOutput) (i : Impact)
    → run_pipeline stages input ≡ some out
    → Member i out.impacts
    → includes (context stages input out.conflicts).conflicted i.fact_key ≡ true
    → i.disposition ≡ unresolved
run_pipeline-blocked stages input out i h m c =
    let (t, _, n) =
      flat_map-Member (judged (run_context stages input out.conflicts)) (run_rounds stages input) i
        (rw (run_pipeline-impacts stages input out h) at m) in
    judged-blocked (run_context stages input out.conflicts) t i n c
