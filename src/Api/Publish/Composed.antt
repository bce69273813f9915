-- ===== src/Api/Publish/Composed.antt =====
-- How the deterministic patches of a run and those of the model come together in one change of the
-- repository (packages/concord-api/src/run.ts).
use doc_eng_demo.Prelude.{
  ◌≡◌, ◌≢◌, refl, sym, ◌∙◌, String, Bool, true, false, List, [], ◌∷◌, ◌++◌, any-false, Member,
  Member-append_left, Member-append_right, ◌==◌, eq_iff, Bool-cases, ◌⊎◌, inl, inr, if◌then◌else◌,
}
use doc_eng_demo.Contracts.Records.{deterministic}
use doc_eng_demo.Concord.Types.{FileDiff}
use doc_eng_demo.Api.Run.{ModelPatchRow}
use doc_eng_demo.Api.Publish.{
  PublishPatch, of_diff, of_row, put_path, put_diffs, has_path, Composition, compose_row,
  compose_rows, compose,
}

-- No two of the patches are for one file.
abbrev pub HasDistinctPaths : List PublishPatch → Type 0
HasDistinctPaths [] = Unit
HasDistinctPaths (p ∷ ps) =
    ((q : PublishPatch) → Member q ps → q.path ≢ p.path) × HasDistinctPaths ps

differ : (a b : String) → (a == b) ≡ false → a ≢ b
differ a b h e = clash ((eq_iff a b).1 e) h
  where
    clash : {c : Bool} → c ≡ true → c ≡ false → ⊥
    clash x y = cc

put_path-origin :
    (p : PublishPatch) (qs : List PublishPatch) (q : PublishPatch)
    → HasDistinctPaths qs
    → Member q (put_path p qs)
    → (q ≡ p) ⊎ (Member q qs × (q.path ≢ p.path))
unfolding put_path
put_path-origin p [] q d (inl e) = inl e
put_path-origin p [] q d (inr m) = absurd m
put_path-origin p (x ∷ qs) q d m = elim (Bool-cases (x.path == p.path)) [
  | inl e ↦ replaced ((eq_iff x.path p.path).0 e) (rw (e, put_path) at m)
  | inr e ↦ kept (differ x.path p.path e) (put_path-origin p qs q d.1) (rw (e, put_path) at m)
]
  where
    replaced :
        x.path ≡ p.path → Member q (p ∷ qs) → (q ≡ p) ⊎ (Member q (x ∷ qs) × (q.path ≢ p.path))
    replaced e (inl k) = inl k
    replaced e (inr k) = inr (inr k, λ same. d.0 q k (same ∙ sym e))

    kept :
        x.path ≢ p.path
        → (Member q (put_path p qs) → (q ≡ p) ⊎ (Member q qs × (q.path ≢ p.path)))
        → Member q (x ∷ put_path p qs)
        → (q ≡ p) ⊎ (Member q (x ∷ qs) × (q.path ≢ p.path))
    kept e ih (inl k) = inr (inl k, rw k e)
    kept e ih (inr k) = elim (ih k) [ inl a ↦ inl a | inr (a, b) ↦ inr (inr a, b) ]

put_path-HasDistinctPaths :
    (p : PublishPatch) (qs : List PublishPatch)
    → HasDistinctPaths qs
    → HasDistinctPaths (put_path p qs)
unfolding put_path
put_path-HasDistinctPaths p [] d = ((λ q m. absurd m), tt)
put_path-HasDistinctPaths p (x ∷ qs) d = elim (Bool-cases (x.path == p.path)) [
  | inl e ↦
      let same = (eq_iff x.path p.path).0 e in
      rw (e, put_path) ((λ q m k. d.0 q m (k ∙ sym same)), d.1)
  | inr e ↦
      rw (e, put_path)
        (
          (λ q m. apart (differ x.path p.path e) q (put_path-origin p qs q d.1 m)),
          put_path-HasDistinctPaths p qs d.1,
        )
]
  where
    apart :
        x.path ≢ p.path
        → (q : PublishPatch) → (q ≡ p) ⊎ (Member q qs × (q.path ≢ p.path))
        → q.path ≢ x.path
    apart h q (inl e) k = h (cc)
    apart h q (inr (m, n)) k = d.0 q m k

put_path-Member : (p : PublishPatch) (qs : List PublishPatch) → Member p (put_path p qs)
unfolding put_path
put_path-Member p [] = inl refl
put_path-Member p (x ∷ qs) = elim (Bool-cases (x.path == p.path)) [
  | inl e ↦ rw (e, put_path) (inl refl)
  | inr e ↦ rw (e, put_path) (inr (put_path-Member p qs))
]

put_path-keeps :
    (p : PublishPatch) (qs : List PublishPatch) (q : PublishPatch)
    → Member q qs
    → q.path ≢ p.path
    → Member q (put_path p qs)
unfolding put_path
put_path-keeps p [] q m h = absurd m
put_path-keeps p (x ∷ qs) q m h = elim (Bool-cases (x.path == p.path)) [
  | inl e ↦ rw (e, put_path) (other ((eq_iff x.path p.path).0 e) m)
  | inr e ↦ rw (e, put_path) (later m (λ n. put_path-keeps p qs q n h))
]
  where
    other : x.path ≡ p.path → Member q (x ∷ qs) → Member q (p ∷ qs)
    other e (inl k) = absurd (h (cc))
    other e (inr k) = inr k

    later :
        Member q (x ∷ qs) → (Member q qs → Member q (put_path p qs)) → Member q (x ∷ put_path p qs)
    later (inl k) ih = inl k
    later (inr k) ih = inr (ih k)

-- The deterministic patch of a file is the one that is published for it.
abbrev HasDeterministic : String → List PublishPatch → Type 0
HasDeterministic path qs =
    (q : PublishPatch) × Member q qs × (q.path ≡ path) × (q.origin ≡ deterministic)

put_diff-HasDeterministic :
    (d : FileDiff) (qs : List PublishPatch) (path : String)
    → HasDeterministic path qs
    → HasDeterministic path (put_path (of_diff d) qs)
put_diff-HasDeterministic d qs path (q, m, e, o) = elim (Bool-cases (q.path == d.path)) [
  | inl k ↦ (of_diff d, put_path-Member (of_diff d) qs, sym ((eq_iff q.path d.path).0 k) ∙ e, refl)
  | inr k ↦ (q, put_path-keeps (of_diff d) qs q m (differ q.path d.path k), e, o)
]

put_diffs-HasDeterministic :
    (ds : List FileDiff) (qs : List PublishPatch) (path : String)
    → ((d : FileDiff) × Member d ds × (d.path ≡ path)) ⊎ HasDeterministic path qs
    → HasDeterministic path (put_diffs ds qs)
unfolding put_diffs
put_diffs-HasDeterministic [] qs path (inl (d, m, e)) = absurd m
put_diffs-HasDeterministic [] qs path (inr h) = h
put_diffs-HasDeterministic (x ∷ ds) qs path (inl (d, inl same, e)) =
    put_diffs-HasDeterministic ds (put_path (of_diff x) qs) path
      (inr (of_diff x, put_path-Member (of_diff x) qs, cc, refl))
put_diffs-HasDeterministic (x ∷ ds) qs path (inl (d, inr m, e)) =
    put_diffs-HasDeterministic ds (put_path (of_diff x) qs) path (inl (d, m, e))
put_diffs-HasDeterministic (x ∷ ds) qs path (inr h) =
    put_diffs-HasDeterministic ds (put_path (of_diff x) qs) path
      (inr (put_diff-HasDeterministic x qs path h))

put_diffs-HasDistinctPaths :
    (ds : List FileDiff) (qs : List PublishPatch)
    → HasDistinctPaths qs
    → HasDistinctPaths (put_diffs ds qs)
unfolding put_diffs
put_diffs-HasDistinctPaths [] qs h = h
put_diffs-HasDistinctPaths (d ∷ ds) qs h =
    put_diffs-HasDistinctPaths ds (put_path (of_diff d) qs)
      (put_path-HasDistinctPaths (of_diff d) qs h)

abbrev IsAccounted : ModelPatchRow → Composition → Type 0
IsAccounted p c = Member (of_row p) c.patches ⊎ Member p.path c.composition_conflicts

-- One round adds, and keeps what is there.
record IsGrown (p : ModelPatchRow) (c d : Composition) : Type 0 where
  distinct : HasDistinctPaths c.patches → HasDistinctPaths d.patches
  keeps : (q : PublishPatch) → Member q c.patches → Member q d.patches
  surfaced : (k : String) → Member k c.composition_conflicts → Member k d.composition_conflicts
  accounted : IsAccounted p d

compose_row-IsGrown : (p : ModelPatchRow) (c : Composition) → IsGrown p c (compose_row p c)
compose_row-IsGrown p c = by_path (has_path p.path c.patches) refl
  where
    by_path :
        (b : Bool)
        → has_path p.path c.patches ≡ b
        → IsGrown p c (
            if b
            then record c { composition_conflicts = c.composition_conflicts ++ p.path ∷ [] }
            else record c { patches = put_path (of_row p) c.patches })
    by_path true e = record {
      distinct = λ h. h;
      keeps = λ q m. m;
      surfaced = λ k m. Member-append_left k c.composition_conflicts _ m;
      accounted = inr (Member-append_right p.path c.composition_conflicts _ (inl refl));
    }
    by_path false e = record {
      distinct = put_path-HasDistinctPaths (of_row p) c.patches;
      keeps = λ q m.
          put_path-keeps (of_row p) c.patches q m
            (differ q.path p.path (any-false (λ x. x.path == p.path) c.patches q e m));
      surfaced = λ k m. m;
      accounted = inl (put_path-Member (of_row p) c.patches);
    }

record IsAllGrown (ps : List ModelPatchRow) (c d : Composition) : Type 0 where
  distinct : HasDistinctPaths c.patches → HasDistinctPaths d.patches
  keeps : (q : PublishPatch) → Member q c.patches → Member q d.patches
  surfaced : (k : String) → Member k c.composition_conflicts → Member k d.composition_conflicts
  accounted : (p : ModelPatchRow) → Member p ps → IsAccounted p d

compose_rows-IsAllGrown :
    (ps : List ModelPatchRow) (c : Composition) → IsAllGrown ps c (compose_rows ps c)
unfolding compose_rows
compose_rows-IsAllGrown [] c = record {
  distinct = λ h. h;
  keeps = λ q m. m;
  surfaced = λ k m. m;
  accounted = λ p m. absurd m;
}
compose_rows-IsAllGrown (x ∷ ps) c =
    let one = compose_row-IsGrown x c in
    let rest = compose_rows-IsAllGrown ps (compose_row x c) in
    record {
      distinct = λ h. rest.distinct (one.distinct h);
      keeps = λ q m. rest.keeps q (one.keeps q m);
      surfaced = λ k m. rest.surfaced k (one.surfaced k m);
      accounted =
          λ p m. elim m [ inl e ↦ rw e (carried rest one.accounted) | inr n ↦ rest.accounted p n ];
    }
  where
    carried :
        IsAllGrown ps (compose_row x c) (compose_rows ps (compose_row x c))
        → IsAccounted x (compose_row x c)
        → IsAccounted x (compose_rows ps (compose_row x c))
    carried rest (inl m) = inl (rest.keeps (of_row x) m)
    carried rest (inr m) = inr (rest.surfaced x.path m)

-- What is published: one patch for a file, the deterministic one where there is one, and each patch
-- of the model that is not published is named as a conflict.
pub record IsComposed (diffs : List FileDiff) (rows : List ModelPatchRow) (c : Composition)
    : Type 0 where
  pub distinct : HasDistinctPaths c.patches
  pub deterministic_first :
      (d : FileDiff)
      → Member d diffs
      → (q : PublishPatch) × Member q c.patches × (q.path ≡ d.path) × (q.origin ≡ deterministic)
  pub accounted :
      (p : ModelPatchRow)
      → Member p rows
      → Member (of_row p) c.patches ⊎ Member p.path c.composition_conflicts

-- No two published patches are for one file; a file with a deterministic patch has a deterministic
-- one; and each patch of the model is published whole or its file is among the conflicts.
pub compose-IsComposed :
    (diffs : List FileDiff) (rows : List ModelPatchRow) → IsComposed diffs rows (compose diffs rows)
unfolding compose
compose-IsComposed diffs rows =
    let start : Composition = record { patches = put_diffs diffs []; composition_conflicts = [] } in
    let grown = compose_rows-IsAllGrown rows start in
    record {
      distinct = grown.distinct (put_diffs-HasDistinctPaths diffs [] tt);
      deterministic_first = λ d m.
          let (q, n, e, o) = put_diffs-HasDeterministic diffs [] d.path (inl (d, m, refl)) in
          (q, grown.keeps q n, e, o);
      accounted = grown.accounted;
    }
