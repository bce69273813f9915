-- ===== src/Api/Falsify/Active.antt =====
-- Which findings stay active (packages/concord-api/src/run.ts).
use doc_eng_demo.Prelude.{
  ◌≡◌, refl, Bool, true, false, Option, none, some, [], ◌∷◌, inl, inr, Option-cases, if◌then◌else◌,
}
use doc_eng_demo.Contracts.Records.{Text, FactClaim}
use doc_eng_demo.Concord.Types.{Finding}
use doc_eng_demo.Concord.Conflicts.{to_evidence}
use doc_eng_demo.Concord.Falsify.{FalsifierVerdict, needs_falsification, parse_falsifier_response}
use doc_eng_demo.Api.Run.{Message, is_refusal}
use doc_eng_demo.Api.Falsify.{
  FalsifyInput, Answer, closed, answered, VerifiedFinding, text_of, read_verdict, read_answer,
  truth_claim, raw_record, verify_finding, suppress,
}

-- The falsifier answered in the schema, and what it answered refutes nothing.
pub record IsUpheld (input : FalsifyInput) (answer : Answer) : Type 0 where
  pub message : Message
  pub came : answer ≡ answered message
  pub not_refused : is_refusal message.stop_reason ≡ false
  pub text : Text
  pub said : text_of message ≡ some text
  pub verdict : FalsifierVerdict
  pub read : input.parse text ≡ some verdict
  pub not_refuted : verdict.refuted ≡ false

response-upheld :
    (parse : Text → Option FalsifierVerdict) (o : Option Text)
    → (parse_falsifier_response parse o).refuted ≡ false
    → (t : Text) × (v : FalsifierVerdict) × (o ≡ some t) × (parse t ≡ some v) × (v.refuted ≡ false)
unfolding parse_falsifier_response
response-upheld parse none h = absurd (cc)
response-upheld parse (some []) h = absurd (cc)
response-upheld parse (some (c ∷ cs)) h = elim (Option-cases (parse (c ∷ cs))) [
  | inl e ↦ absurd (refuted (rw (e, parse_falsifier_response) at h))
  | inr (v, e) ↦ (c ∷ cs, v, refl, e, rw (e, parse_falsifier_response) at h)
]
  where
    refuted : true ≡ false → ⊥
    refuted k = cc

read_verdict-active :
    (r : FalsifierVerdict) (v : VerifiedFinding)
    → (read_verdict r v).is_active ≡ true
    → r.refuted ≡ false
read_verdict-active r v h = by_case r.refuted refl h
  where
    by_case :
        (b : Bool)
        → r.refuted ≡ b
        → (if b then suppress r.refutation v else v).is_active ≡ true
        → r.refuted ≡ false
    by_case true e k = absurd (cc)
    by_case false e k = e

read_answer-active :
    (input : FalsifyInput) (answer : Answer) (v : VerifiedFinding)
    → (read_answer input answer v).is_active ≡ true
    → IsUpheld input answer
unfolding read_answer
read_answer-active input closed v h = absurd (cc)
read_answer-active input (answered m) v h = by_refusal (is_refusal m.stop_reason) refl h
  where
    by_refusal :
        (b : Bool)
        → is_refusal m.stop_reason ≡ b
        → (if b
            then suppress (some "falsifier refused — suppressed under uncertainty") v
            else read_verdict (parse_falsifier_response input.parse (text_of m)) v).is_active
          ≡ true
        → IsUpheld input (answered m)
    by_refusal true e k = absurd (cc)
    by_refusal false e k =
        let (t, w, said, read, clear) =
          response-upheld input.parse (text_of m)
            (read_verdict-active (parse_falsifier_response input.parse (text_of m)) v k) in
        record {
          message = m;
          came = refl;
          not_refused = e;
          text = t;
          said = said;
          verdict = w;
          read = read;
          not_refuted = clear;
        }

-- With a model client, a finding that needs falsification and whose fact has a claim stays active
-- only if its falsifier answered, in the schema, and did not refute it: a closed gate, a refusal, an
-- empty answer and one that does not parse all suppress it.
pub verify_finding-IsUpheld :
    (input : FalsifyInput) (answer : Answer) (f : Finding) (claim : FactClaim)
    → input.has_client ≡ true
    → needs_falsification f input.projections ≡ true
    → truth_claim input f ≡ some claim
    → (verify_finding input answer f).is_active ≡ true
    → IsUpheld input answer
unfolding verify_finding read_answer
verify_finding-IsUpheld input answer f claim client needed known h =
    read_answer-active input answer (record (raw_record f) { proposal = some (to_evidence claim) })
      (rw (client, needed, known) at h)
