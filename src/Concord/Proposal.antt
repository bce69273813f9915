-- ===== src/Concord/Proposal.antt =====
-- `evidenceFromDelta` and `parsePatchProposal` (packages/concord-core/src/patch-prompts.ts).
-- Parsing JSON and checking a wire value against its schema are the
-- platform's and `zod`'s.
use doc_eng_demo.Prelude.{ℕ, zero, suc, String, Option, none, some, List, [], ◌∷◌, map, ◌>>=◌}
use doc_eng_demo.Value.{Value, str}
use doc_eng_demo.Contracts.Facts.{FactTier}
use doc_eng_demo.Contracts.Records.{Text, Evidence, EditorialRisk, PatchProposal}
use doc_eng_demo.Concord.Types.{FactDelta}

unfoldable pub evidence_from_delta : FactDelta → String → Evidence
evidence_from_delta delta observed_at = record {
  fact_key = delta.fact_key;
  tier = delta.tier;
  locator = delta.locator;
  value = delta.to;
  observed_at = observed_at;
}

pub record WireEvidence : Type 0 where
  pub fact_key : String
  pub tier : FactTier
  pub locator : String
  pub value_json : String
  pub observed_at : String

pub record WireProposal : Type 0 where
  pub new_body : Text
  pub evidence : List WireEvidence
  pub changed_because : String
  pub editorial_risk : EditorialRisk
  pub needs_human_because : Option String

-- `JSON.parse` into a value, and into the wire's shape; `none` is a throw.
pub record Json : Type 0 where
  pub parse_value : String → Option Value
  pub parse_wire : Text → Option WireProposal

-- `s.slice(0, n)`, for texts of the basic plane.
abbrev slice_to : ℕ → String → String
slice_to zero s = ""
slice_to (suc n) String.[] = ""
slice_to (suc n) (String.◌∷◌ c s) = String.◌∷◌ c (slice_to n s)

abbrev pub or_text : String → Option Value → Value
or_text s none = str s
or_text s (some v) = v

module _ (json : Json) where
  abbrev pub wire_evidence : WireEvidence → Evidence
  wire_evidence e = record {
    fact_key = e.fact_key;
    tier = e.tier;
    locator = e.locator;
    value = or_text e.value_json (json.parse_value e.value_json);
    observed_at = e.observed_at;
  }

  abbrev proposal_of : WireProposal → PatchProposal
  proposal_of w = record {
    new_body = w.new_body;
    evidence = map wire_evidence w.evidence;
    changed_because = slice_to 400 w.changed_because;
    editorial_risk = w.editorial_risk;
    needs_human_because = w.needs_human_because;
  }

  -- `PatchProposalSchema.parse`: the evidence has at least one item.
  abbrev re_validated : PatchProposal → List Evidence → Option PatchProposal
  re_validated p [] = none
  re_validated p (e ∷ es) = some p

  unfoldable pub parse_patch_proposal : Text → Option PatchProposal
  parse_patch_proposal response = do
    wire ← json.parse_wire response
    re_validated (proposal_of wire) (proposal_of wire).evidence
