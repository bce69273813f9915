-- ===== src/Concord/Pipeline/Patches.antt =====
-- Which files a run of the pipeline (packages/concord-core/src/pipeline.ts) may change.
use doc_eng_demo.Prelude.{
  ℕ, String, ◌≡◌, refl, ap, Bool, true, false, ◌&&◌, not, Option, none, some, List, [], ◌∷◌, find?,
  Member, map-Member, includes, ◌==◌, arith, Bool-cases, Option-cases, ◌⊎◌, inl, inr, if◌then◌else◌,
  codes,
}
use doc_eng_demo.Value.{Value, str}
use doc_eng_demo.Contracts.Records.{Text, ActionClass, deterministic_regen}
use doc_eng_demo.Concord.Types.{DocUnit, FactProjection, FactDelta, Span, FileDiff, Impact}
use doc_eng_demo.Concord.Classify.{Classification, classified, violation, exhausted, classify}
use doc_eng_demo.Concord.Render.{replace_span}
use doc_eng_demo.Concord.Pipeline.{
  Context, Pending, PendingFile, SourceFile, unit_of, is_blocked, is_regen, after_classify,
  record_impact, visit, visit_all, context_of, patch_step, patch_with, substitute, write_back,
  base_of, before_of, set_file, pending_file, rendered, Stages, PipelineInput, PipelineOutput,
  run_pipeline, seed, generated_of, output_of, run_rounds, impact_of,
}
use doc_eng_demo.Concord.Pipeline.Impacts.{run_context, run_pipeline_loop}
use doc_eng_demo.Concord.Diff.{make_diff}

set_file-Member :
    (g : PendingFile) (fs : List PendingFile) (f : PendingFile)
    → Member f (set_file g fs)
    → (f ≡ g) ⊎ Member f fs
unfolding set_file
set_file-Member g [] f (inl e) = inl e
set_file-Member g [] f (inr m) = absurd m
set_file-Member g (h ∷ fs) f m = elim (Bool-cases (h.path == g.path)) [
  | inl e ↦ replaced (rw e at m)
  | inr e ↦ kept (rw e at m) (set_file-Member g fs f)
]
  where
    replaced : Member f (g ∷ fs) → (f ≡ g) ⊎ Member f (h ∷ fs)
    replaced (inl q) = inl q
    replaced (inr n) = inr (inr n)

    kept :
        Member f (h ∷ set_file g fs)
        → (Member f (set_file g fs) → (f ≡ g) ⊎ Member f fs)
        → (f ≡ g) ⊎ Member f (h ∷ fs)
    kept (inl q) ih = inr (inl q)
    kept (inr n) ih = elim (ih n) [ inl q ↦ inl q | inr k ↦ inr (inr k) ]

module _ (ctx : Context) (f : PendingFile) where
  write_back-Member :
      (unit : DocUnit) (before : Text) (files : List PendingFile) (o : Option Text)
      {files' : List PendingFile}
      → write_back ctx unit before files o ≡ some files'
      → Member f files'
      → Member f files ⊎ (f.path ≡ unit.path)
  write_back-Member unit before files none h m = cc
  write_back-Member unit before files (some after) {files'} h m =
      let new : PendingFile = record { path = unit.path; before = before; after = after } in
      let same : files' ≡ set_file new files = cc in
      elim (set_file-Member new files f (rw same at m)) [
        | inl e ↦ inr (ap (λ (g : PendingFile). g.path) e)
        | inr n ↦ inl n
      ]

  substitute-Member :
      (unit : DocUnit) (span : Span) (replacement : Text) (files : List PendingFile)
      (o : Option SourceFile) {files' : List PendingFile}
      → substitute ctx unit span replacement files o ≡ some files'
      → Member f files'
      → Member f files ⊎ (f.path ≡ unit.path)
  unfolding substitute
  substitute-Member unit span replacement files none {files'} h m =
      let same : files' ≡ files = cc in inl (rw same at m)
  substitute-Member unit span replacement files (some file) h m =
      write_back-Member unit (before_of ctx file (pending_file unit.path files)) files
        (replace_span (base_of ctx file (pending_file unit.path files)) unit.body span replacement)
        h m

  unchanged :
      {files files' : List PendingFile}
      → some files ≡ some files'
      → Member f files'
      → Member f files
  unchanged {files} {files'} h m = let same : files' ≡ files = cc in rw same at m

  patch_with-Member :
      (unit : DocUnit) (asserted to : Value) (span : Option Span) (files : List PendingFile)
      {files' : List PendingFile}
      → patch_with ctx unit asserted to span files ≡ some files'
      → Member f files'
      → Member f files ⊎ (f.path ≡ unit.path)
  unfolding patch_with
  patch_with-Member unit (str asserted) to (some span) files {files'} h m =
      substitute-Member unit span (rendered ctx (codes asserted) to) files
        (find? (λ g. g.path == unit.path) ctx.source_files) h m
  patch_with-Member unit _ to _ files h m = inl (unchanged h m)

  -- A file beyond those that were pending is that of a hand-written unit under regeneration.
  patch_step-Member :
      (unit : DocUnit) (p : FactProjection) (d : FactDelta) (action : ActionClass)
      (files : List PendingFile) {files' : List PendingFile}
      → patch_step ctx unit p d action files ≡ some files'
      → Member f files'
      → Member f files
        ⊎ ((f.path ≡ unit.path) × (action ≡ deterministic_regen) × (unit.generated ≡ false))
  unfolding patch_step
  patch_step-Member unit p d act files {files'} h m =
      elim (Bool-cases (is_regen act && not unit.generated)) [
        | inl e ↦
            patched e (patch_with-Member unit p.asserted_value d.to p.span files (rw e at h) m)
        | inr e ↦ inl (unchanged (rw e at h) m)
      ]
    where
      patched :
          (is_regen act && not unit.generated) ≡ true
          → Member f files ⊎ (f.path ≡ unit.path)
          → Member f files
            ⊎ ((f.path ≡ unit.path) × (act ≡ deterministic_regen) × (unit.generated ≡ false))
      patched e (inl n) = inl n
      patched e (inr q) = inr (q, ground arith, ground arith)

-- Why a run may change a file that no generator wrote.
pub record IsPatched (ctx : Context) (ts : List (FactDelta × FactProjection)) (path : String)
    : Type 0 where
  pub change : FactDelta
  pub projection : FactProjection
  pub unit : DocUnit
  pub rule : ℕ
  pub round : Member (change, projection) ts
  pub listed : unit_of ctx.units projection ≡ some unit
  pub place : path ≡ unit.path
  pub handwritten : unit.generated ≡ false
  pub free : includes ctx.conflicted change.fact_key ≡ false
  pub regenerated :
      classify (context_of ctx projection change unit) ≡ classified deterministic_regen rule

record_impact-files :
    (ctx : Context) (s : Pending) (impacts : List Impact) (o : Option (List PendingFile))
    {s' : Pending}
    → record_impact ctx s impacts o ≡ some s'
    → o ≡ some s'.files
record_impact-files ctx s impacts none h = cc
record_impact-files ctx s impacts (some files) {s'} h = ground arith

module _ (ctx : Context) (f : PendingFile) where
  placed :
      (unit : DocUnit) (act : ActionClass) (rule : ℕ) (blocked : Bool) (files : List PendingFile)
      → blocked ≡ false
      → Member f files
        ⊎ ((f.path ≡ unit.path) × (act ≡ deterministic_regen) × (unit.generated ≡ false))
      → Member f files
        ⊎ ((f.path ≡ unit.path)
            × (unit.generated ≡ false)
            × (blocked ≡ false)
            × ((r : ℕ) × (classified act rule ≡ classified deterministic_regen r)))
  placed unit act rule blocked files e (inl n) = inl n
  placed unit act rule blocked files e (inr (path, regen, written)) =
      inr (path, written, e, (rule, ap (λ a. classified a rule) regen))

  after_classify-Member :
      (unit : DocUnit) (p : FactProjection) (d : FactDelta) (s : Pending) (c : Classification)
      {s' : Pending}
      → after_classify ctx unit p d s c ≡ some s'
      → Member f s'.files
      → Member f s.files
        ⊎ ((f.path ≡ unit.path)
            × (unit.generated ≡ false)
            × (includes ctx.conflicted d.fact_key ≡ false)
            × ((rule : ℕ) × (c ≡ classified deterministic_regen rule)))
  unfolding after_classify
  after_classify-Member unit p d s violation h m = cc
  after_classify-Member unit p d s exhausted h m = cc
  after_classify-Member unit p d s (classified act rule) {s'} h m =
      let step =
        record_impact-files ctx s (impact_of p d (is_blocked ctx d) act rule ∷ [])
          (if is_blocked ctx d then some s.files else patch_step ctx unit p d act s.files) h in
      elim (Bool-cases (is_blocked ctx d)) [
        | inl e ↦ inl (unchanged ctx f (rw e at step) m)
        | inr e ↦
            placed unit act rule (is_blocked ctx d) s.files e
              (patch_step-Member ctx f unit p d act s.files (rw e at step) m)
      ]

  visit-Member :
      (d : FactDelta) (p : FactProjection) (ts : List (FactDelta × FactProjection)) (s : Pending)
      {s' : Pending}
      → Member (d, p) ts
      → visit ctx (d, p) s ≡ some s'
      → Member f s'.files
      → Member f s.files ⊎ IsPatched ctx ts f.path
  unfolding visit
  visit-Member d p ts s {s'} here h m = elim (Option-cases (unit_of ctx.units p)) [
    | inl e ↦ inl (same_files (rw (e, visit) at h))
    | inr (unit, e) ↦ reason unit e (
        after_classify-Member unit p d s (classify (context_of ctx p d unit)) (rw (e, visit) at h)
          m)
  ]
    where
      same_files : some s ≡ some s' → Member f s.files
      same_files k = let same : s' ≡ s = cc in rw (← same) m

      reason :
          (unit : DocUnit)
          → unit_of ctx.units p ≡ some unit
          → Member f s.files
            ⊎ ((f.path ≡ unit.path)
                × (unit.generated ≡ false)
                × (includes ctx.conflicted d.fact_key ≡ false)
                × ((rule : ℕ) × (classify (context_of ctx p d unit)
                      ≡ classified deterministic_regen rule)))
          → Member f s.files ⊎ IsPatched ctx ts f.path
      reason unit e (inl n) = inl n
      reason unit e (inr (place, written, free, (rule, c))) = inr (record {
        change = d;
        projection = p;
        unit = unit;
        rule = rule;
        round = here;
        listed = e;
        place = place;
        handwritten = written;
        free = free;
        regenerated = c;
      })

  visit_all-Member :
      (all_rounds ts : List (FactDelta × FactProjection)) (s : Pending) {s' : Pending}
      → ((t : FactDelta × FactProjection) → Member t ts → Member t all_rounds)
      → visit_all ctx ts s ≡ some s'
      → Member f s'.files
      → Member f s.files ⊎ IsPatched ctx all_rounds f.path
  unfolding visit_all
  visit_all-Member rounds [] s {s'} sub h m = inl (let same : s' ≡ s = cc in rw (← same) m)
  visit_all-Member rounds ((d, p) ∷ ts) s {s'} sub h m = elim (Option-cases (visit ctx (d, p) s)) [
    | inl e ↦ absurd (stopped (rw (e, visit_all) at h))
    | inr (next, e) ↦
        earlier next e
          (visit_all-Member rounds ts next (λ t n. sub t (inr n)) (rw (e, visit_all) at h) m)
  ]
    where
      stopped : none ≡ some s' → ⊥
      stopped k = cc

      earlier :
          (next : Pending)
          → visit ctx (d, p) s ≡ some next
          → Member f next.files ⊎ IsPatched ctx rounds f.path
          → Member f s.files ⊎ IsPatched ctx rounds f.path
      earlier next e (inl n) = visit-Member d p rounds s (sub (d, p) (inl refl)) e n
      earlier next e (inr q) = inr q

-- A run that ends changes a file only where a generator did, or where a hand-written unit of that
-- file has a projection of a changed fact that is not in conflict and that the table regenerates.
pub run_pipeline-IsPatched :
    (stages : Stages) (input : PipelineInput) (out : PipelineOutput) (patch : FileDiff)
    → run_pipeline stages input ≡ some out
    → Member patch out.patches
    → (f : PendingFile) × (patch ≡ make_diff f.path f.before f.after)
      × (Member f (seed stages (generated_of stages input).diffs).files
          ⊎ IsPatched (run_context stages input out.conflicts) (run_rounds stages input) f.path)
unfolding output_of
run_pipeline-IsPatched stages input out patch h m =
    let (s, loop, same) = run_pipeline_loop stages input h in
    let listed = rw (ap (λ (o : PipelineOutput). o.patches) same) at m in
    let (f, n, e) =
      map-Member (λ (g : PendingFile). make_diff g.path g.before g.after) s.files patch listed in
    (
      f,
      e,
      visit_all-Member (run_context stages input out.conflicts) f (run_rounds stages input)
          (run_rounds stages input) (seed stages (generated_of stages input).diffs) (λ t k. k) loop
          n,
    )
