-- ===== src/Api/Setup/Blocked.antt =====
-- A key in conflict, from the pipeline to the end of the model phase (packages/concord-core/src,
-- packages/concord-api/src/run.ts).
use doc_eng_demo.Prelude.{
  ℕ, suc, ◌≤◌, ◌≡◌, refl, sym, ap, ◌∙◌, String, Bool, true, false, ◌||◌, Option, none, some, List,
  [], ◌∷◌, map, includes, Member, Option-cases, arith, inl, inr, ◌==◌, eq_iff, if◌then◌else◌,
}
use doc_eng_demo.Contracts.Records.{ConflictDraft}
use doc_eng_demo.Concord.Types.{Impact, unresolved}
use doc_eng_demo.Concord.Pipeline.{
  map_get, Stages, PipelineInput, PipelineOutput, run_pipeline, output_of, context,
}
use doc_eng_demo.Concord.Pipeline.Impacts.{run_pipeline-blocked}
use doc_eng_demo.Api.Spend.{SpendState}
use doc_eng_demo.Api.Run.{
  ImpactRecord, ConflictRecord, RunInput, RunState, conflict_key, conflict_id_of, impact_records,
}
use doc_eng_demo.Api.Run.Phase.{Reach}
use doc_eng_demo.Api.Run.Kept.{HasDistinctIds, is_work, Reach-kept}
use doc_eng_demo.Api.Setup.{conflict_records, NewIds, start_records, start_run}

-- A key that some entry has is found in the map.
map_get-some :
    {A : Type 0} (key : A → String) (k : String) (xs : List A) (x : A)
    → Member x xs
    → key x ≡ k
    → (y : A) × (map_get key k xs ≡ some y)
unfolding map_get
map_get-some key k [] x m e = absurd m
map_get-some {A} key k (z ∷ xs) x m e = elim (Option-cases (map_get key k xs)) [
  | inr (y, q) ↦ (y, rw (q, map_get) refl)
  | inl q ↦ (z, rw (q, map_get) (here q (λ n. map_get-some key k xs x n e) m))
]
  where
    same_key : x ≡ z → (key z == k) ≡ true
    same_key s = (eq_iff (key z) k).1 (ap key (sym s) ∙ e)

    missing : {o : Option A} → o ≡ none → (y : A) × (o ≡ some y) → ⊥
    missing q (y, h) = cc

    here :
        map_get key k xs ≡ none
        → (Member x xs → (y : A) × (map_get key k xs ≡ some y))
        → Member x (z ∷ xs)
        → (if key z == k then some z else none) ≡ some z
    here q ih (inl s) = rw (same_key s) refl
    here q ih (inr n) = absurd (missing q (ih n))

conflict_records-Member :
    (new_id : ℕ → String) (n : ℕ) (ds : List ConflictDraft) (d : ConflictDraft)
    → Member d ds
    → (c : ConflictRecord) × Member c (conflict_records new_id n ds) × (c.draft ≡ d)
unfolding conflict_records
conflict_records-Member new_id n [] d m = absurd m
conflict_records-Member new_id n (x ∷ ds) d (inl e) = (_, inl refl, sym e)
conflict_records-Member new_id n (x ∷ ds) d (inr m) =
    let (c, k, e) = conflict_records-Member new_id (suc n) ds d m in (c, inr k, e)

-- A record as the phase starts with it.
record IsFresh (conflicts : List ConflictRecord) (r : ImpactRecord) (i : Impact) : Type 0 where
  same : r.impact ≡ i
  patchless : r.patch_id ≡ none
  attached : r.conflict_id ≡ conflict_id_of (map_get conflict_key i.fact_key conflicts)

impact_records-Member :
    (conflicts : List ConflictRecord) (new_id : ℕ → String) (n : ℕ) (is : List Impact) (i : Impact)
    → Member i is
    → (r : ImpactRecord) × Member r (impact_records conflicts new_id n is) × IsFresh conflicts r i
unfolding impact_records
impact_records-Member conflicts new_id n [] i m = absurd m
impact_records-Member conflicts new_id n (x ∷ is) i (inl e) = (
  _,
  inl refl,
  record {
    same = sym e;
    patchless = refl;
    attached =
        ap (λ (j : Impact). conflict_id_of (map_get conflict_key j.fact_key conflicts)) (sym e);
  },
)
impact_records-Member conflicts new_id n (x ∷ is) i (inr m) =
    let (r, k, f) = impact_records-Member conflicts new_id (suc n) is i m in (r, inr k, f)

impact_records-id :
    (conflicts : List ConflictRecord) (new_id : ℕ → String) (n : ℕ) (is : List Impact)
    (r : ImpactRecord)
    → Member r (impact_records conflicts new_id n is)
    → (k : ℕ) × (n ≤ k) × (r.id ≡ new_id k)
unfolding impact_records
impact_records-id conflicts new_id n [] r m = absurd m
impact_records-id conflicts new_id n (x ∷ is) r (inl e) =
    (n, omega arith, ap (λ (q : ImpactRecord). q.id) e)
impact_records-id conflicts new_id n (x ∷ is) r (inr m) =
    let (k, l, e) = impact_records-id conflicts new_id (suc n) is r m in (k, omega (arith, l), e)

-- No id is made twice.
abbrev pub IsInjective : (ℕ → String) → Type 0
IsInjective new_id = (m n : ℕ) → new_id m ≡ new_id n → m ≡ n

impact_records-HasDistinctIds :
    (conflicts : List ConflictRecord) (new_id : ℕ → String) (n : ℕ) (is : List Impact)
    → IsInjective new_id
    → HasDistinctIds (impact_records conflicts new_id n is)
unfolding impact_records
impact_records-HasDistinctIds conflicts new_id n [] one r q m l e = absurd m
impact_records-HasDistinctIds conflicts new_id n (x ∷ is) one r q (inl a) (inl b) e = a ∙ sym b
impact_records-HasDistinctIds conflicts new_id n (x ∷ is) one r q (inl a) (inr b) e =
    let (k, l, same) = impact_records-id conflicts new_id (suc n) is q b in
    absurd (apart l (one n k (sym (ap (λ (z : ImpactRecord). z.id) a) ∙ (e ∙ same))))
  where
    apart : {k : ℕ} → suc n ≤ k → n ≡ k → ⊥
    apart l h = omega (arith, l, h)
impact_records-HasDistinctIds conflicts new_id n (x ∷ is) one r q (inr a) (inl b) e =
    let (k, l, same) = impact_records-id conflicts new_id (suc n) is r a in
    absurd (apart l (one n k (sym (ap (λ (z : ImpactRecord). z.id) b) ∙ (sym e ∙ same))))
  where
    apart : {k : ℕ} → suc n ≤ k → n ≡ k → ⊥
    apart l h = omega (arith, l, h)
impact_records-HasDistinctIds conflicts new_id n (x ∷ is) one r q (inr a) (inr b) e =
    impact_records-HasDistinctIds conflicts new_id (suc n) is one r q a b e

map-includes :
    (ds : List ConflictDraft) (d : ConflictDraft) (key : String)
    → Member d ds
    → d.fact_key ≡ key
    → includes (map (λ c. c.fact_key) ds) key ≡ true
map-includes [] d key m e = absurd m
map-includes (x ∷ ds) d key (inl s) e =
    rw (here (sym (ap (λ (c : ConflictDraft). c.fact_key) s) ∙ e)) refl
  where
    here : x.fact_key ≡ key → (key == x.fact_key) ≡ true
    here h = (eq_iff key x.fact_key).1 (sym h)
map-includes (x ∷ ds) d key (inr n) e = either (key == x.fact_key) (map-includes ds d key n e)
  where
    either : (b : Bool) → {c : Bool} → c ≡ true → (b || c) ≡ true
    either true h = refl
    either false h = h

out_conflicts-blocked :
    (stages : Stages) (input : PipelineInput) (out : PipelineOutput) (d : ConflictDraft)
    (key : String)
    → run_pipeline stages input ≡ some out
    → Member d out.conflicts
    → d.fact_key ≡ key
    → includes (context stages input out.conflicts).conflicted key ≡ true
unfolding output_of context
out_conflicts-blocked stages input out d key h m e = map-includes out.conflicts d key m e

-- From the pipeline through the model phase, while a fact's key is in conflict, an impact on it
-- stays as the pipeline gave it, with the disposition unresolved, no patch and a conflict, if the
-- phase starts with the impacts and conflicts of a run of the pipeline and no id is made twice.
pub Reach-blocked :
    (stages : Stages) (pipeline : PipelineInput) (out : PipelineOutput) (spend : SpendState)
    (ids : NewIds) (input : RunInput) (t : RunState) (d : ConflictDraft) (i : Impact)
    → run_pipeline stages pipeline ≡ some out
    → IsInjective ids.of_impact
    → Reach input (start_run spend ids out) t
    → Member d out.conflicts
    → Member i out.impacts
    → d.fact_key ≡ i.fact_key
    → (r : ImpactRecord) × (c : String) × Member r t.impacts
      × (r.impact ≡ i)
      × (i.disposition ≡ unresolved)
      × (r.patch_id ≡ none)
      × (r.conflict_id ≡ some c)
unfolding start_run
Reach-blocked stages pipeline out spend ids input t d i h one reach m n e =
    let conflicts = conflict_records ids.of_conflict 0 out.conflicts in
    let (x, k, same) = conflict_records-Member ids.of_conflict 0 out.conflicts d m in
    let (c, found) =
      map_get-some conflict_key i.fact_key conflicts x k
        (ap (λ (y : ConflictDraft). y.fact_key) same ∙ e) in
    let (r, l, fresh) = impact_records-Member conflicts ids.of_impact 0 out.impacts i n in
    let attached : r.conflict_id ≡ some c.id = fresh.attached ∙ ap conflict_id_of found in
    (
      r,
      c.id,
      Reach-kept input spend (start_records ids out) conflicts t r reach
          (impact_records-HasDistinctIds conflicts ids.of_impact 0 out.impacts one) l
          (no_work r c.id attached),
      fresh.same,
      run_pipeline-blocked stages pipeline out i h n
          (out_conflicts-blocked stages pipeline out d i.fact_key h m e),
      fresh.patchless,
      attached,
    )
  where
    no_work : (r : ImpactRecord) (c : String) → r.conflict_id ≡ some c → is_work r ≡ false
    no_work r c a = ground (arith, a)
