-- ===== src/Api/Falsify.antt =====
-- The adversarial verification of `executeRun` (packages/concord-api/src/run.ts). Each task writes
-- the record of its own finding alone, so that the order of the answers does not matter.
pub mod Active
pub mod Tests
use doc_eng_demo.Prelude.{
  String, Bool, true, false, ◌&&◌, Option, none, some, List, find?, ◌==◌, if◌then◌else◌,
}
use doc_eng_demo.Contracts.Records.{Text, FactClaim, Evidence}
use doc_eng_demo.Concord.Types.{FactProjection, Finding}
use doc_eng_demo.Concord.Conflicts.{to_evidence}
use doc_eng_demo.Concord.Falsify.{FalsifierVerdict, needs_falsification, parse_falsifier_response}
use doc_eng_demo.Concord.Pipeline.{map_get}
use doc_eng_demo.Api.Run.{Block, Message, text_of_block, is_refusal}

-- `proposal_json` holds the proposal, of which the evidence is kept and the prose left out.
pub record VerifiedFinding : Type 0 where
  pub finding : Finding
  pub is_active : Bool
  pub refutation : Option String
  pub proposal : Option Evidence

pub record FalsifyInput : Type 0 where
  pub facts : List FactClaim
  pub projections : List FactProjection
  pub has_client : Bool
  pub parse : Text → Option FalsifierVerdict

-- What `guardedCall` gives: the gate was closed, or the model's answer.
pub data Answer : Type 0 where
  closed : Answer
  answered : Message → Answer

-- `textOf`
unfoldable pub text_of : Message → Option Text
text_of m = text_of_block (find? (λ b. b.kind == "text") m.content)

abbrev pub suppress : Option String → VerifiedFinding → VerifiedFinding
suppress why v = record v { is_active = false; refutation = why }

abbrev pub read_verdict : FalsifierVerdict → VerifiedFinding → VerifiedFinding
read_verdict r v = if r.refuted then suppress r.refutation v else v

unfoldable pub read_answer : FalsifyInput → Answer → VerifiedFinding → VerifiedFinding
unfolding text_of
read_answer input closed v =
    suppress (some "falsification budget exhausted — suppressed under uncertainty") v
read_answer input (answered m) v =
    if is_refusal m.stop_reason
    then suppress (some "falsifier refused — suppressed under uncertainty") v
    else read_verdict (parse_falsifier_response input.parse (text_of m)) v

abbrev pub truth_claim : FalsifyInput → Finding → Option FactClaim
truth_claim input f = find? (λ c. c.key == f.fact_key) input.facts

-- The task of a finding: without a claim on its key it ends at once. The projection is there, since
-- the finding needs falsification.
abbrev pub falsify : FalsifyInput → Answer → Option FactClaim → VerifiedFinding → VerifiedFinding
falsify input answer none v = v
falsify input answer (some claim) v =
    read_answer input answer (record v { proposal = some (to_evidence claim) })

abbrev pub raw_record : Finding → VerifiedFinding
raw_record f = record { finding = f; is_active = true; refutation = none; proposal = none }

-- A finding at the end of the verification, if its falsifier answers so.
unfoldable pub verify_finding : FalsifyInput → Answer → Finding → VerifiedFinding
verify_finding input answer f =
    if input.has_client && needs_falsification f input.projections
    then falsify input answer (truth_claim input f) (raw_record f)
    else raw_record f
