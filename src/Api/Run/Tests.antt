-- ===== src/Api/Run/Tests.antt =====
-- Instances of the properties of the model phase: the limit rises to 900 rows, the model rewrites the
-- page that states it, and another impact is none of its tasks.
use doc_eng_demo.Prelude.{
  ◌+◌, ◌*◌, ◌≤◌, ◌≡◌, refl, sym, ◌∙◌, eq_iff, String, true, false, none, some, List, [], ◌∷◌,
  length, Member, inl, inr, codes, arith, split_on,
}
use doc_eng_demo.Value.{num}
use doc_eng_demo.Contracts.Facts.{t1_schema, fact_registry, match_fact_key, own_property}
use doc_eng_demo.Contracts.Records.{
  Text, ActionClass, grounded_patch, deterministic_regen, EditorialRisk, PatchValidation,
  model_grounded,
}
use doc_eng_demo.Concord.Types.{Impact, Disposition, unresolved, proposed}
use doc_eng_demo.Concord.Proposal.{WireProposal, parse_patch_proposal}
use doc_eng_demo.Concord.Validate.Patch.{validate_patch, body_content_safe}
use doc_eng_demo.Concord.Fixtures.{
  max_rows, page, page_unit, rows_projection, rows_fact, rows_delta,
}
use doc_eng_demo.Api.Spend.{
  SpendState, max_model_calls_per_run, daily_spend_cap, reserve, record_model_call, spend_gate,
}
use doc_eng_demo.Api.Run.{
  Message, ImpactRecord, ModelPatchRow, RunInput, Call, RunState, ai_work, start_phase,
  judge_message, judge_text, judge_verdict, message_text,
}
use doc_eng_demo.Api.Run.Phase.{
  begin_task, finish_task, patch_row, Fresh, begin, answer, Reach, here, next, after_text,
  before_text, call_or_stop, drop_call, write_outcome,
}
use doc_eng_demo.Api.Run.Effects.{identity_of, IsSettled}
use doc_eng_demo.Api.Run.Kept.{HasDistinctIds, Reach-kept}
use doc_eng_demo.Api.Run.Settled.{steps, measure, Reach-IsSettled, Reach-steps}
use doc_eng_demo.Api.Run.Calls.{IsGuarded, Reach-IsGuarded}
use doc_eng_demo.Api.Run.Drafts.{IsReviewed, Reach-IsReviewed}
use doc_eng_demo.Concord.Pipeline.{map_get}
use doc_eng_demo.Concord.Render.{index_of}
use doc_eng_demo.Concord.Content.{has_handler, has_javascript_uri, has_statement, has_tag}
use doc_eng_demo.Api.Replace.{expand, replace_at, replace_first}
use doc_eng_demo.Concord.Validate.Path.{path_allowlisted}
use doc_eng_demo.Concord.Diff.{make_diff}

abbrev unchanged : Text → Text
unchanged t = t

abbrev pub limits_path : String
limits_path = "docs-mintlify/limits/csv.mdx"

abbrev wire : WireProposal
wire = record {
  new_body = codes "Up to 900 rows.";
  evidence =
      record {
        fact_key = max_rows;
        tier = t1_schema;
        locator = "schema";
        value_json = "900";
        observed_at = "2026-01-01";
      }
      ∷ [];
  changed_because = "the limit rose";
  editorial_risk = EditorialRisk.none;
  needs_human_because = none;
}

abbrev pub input : RunInput
input = record {
  units = page_unit limits_path page ∷ [];
  deltas = rows_delta ∷ [];
  files = record { path = limits_path; content = page } ∷ [];
  facts = rows_fact 900 ∷ [];
  started_at = "2026-01-01";
  operations = record {
    run_extractors = λ unit facts at. rows_projection unit.id ∷ [];
    sha256_hex = λ t. "";
    nfc = unchanged;
  };
  json = record { parse_value = λ s. some (num 900); parse_wire = λ t. some wire };
}

abbrev spend : SpendState
spend = record {
  calls_this_run = 0;
  max_calls_per_run = max_model_calls_per_run;
  spent_today = 0;
  daily_cap = daily_spend_cap;
}

abbrev impact_with : ActionClass → Disposition → Impact
impact_with action disposition = record {
  fact_key = max_rows;
  delta = record { from = num 500; to = num 900; kind = "value_changed" };
  doc_unit_id = limits_path;
  projection_id = "rows";
  action = action;
  classification_rule = 4;
  disposition = disposition;
}

abbrev record_with : String → Impact → ImpactRecord
record_with id impact = record {
  impact = impact;
  id = id;
  resolution_note = none;
  patch_id = none;
  conflict_id = none;
}

abbrev task : ImpactRecord
task = record_with "imp_1" (impact_with grounded_patch unresolved)

abbrev other : ImpactRecord
other = record_with "imp_2" (impact_with deterministic_regen proposed)

abbrev impacts : List ImpactRecord
impacts = task ∷ other ∷ []

abbrev start : RunState
start = start_phase spend impacts []

abbrev pub call : Call
call = record { impact_id = "imp_1"; is_grounded = true }

abbrev message : Message
message = record {
  stop_reason = some "end_turn";
  content = record { kind = "text"; text = some (codes "{}") } ∷ [];
  usage = record {
    input_tokens = 1000;
    output_tokens = 100;
    cache_creation_input_tokens = none;
    cache_read_input_tokens = none;
  };
}

abbrev ids : Fresh
ids = record { patch_id = "pat_1"; conflict_id = "cfl_1" }

abbrev begun : RunState
begun = begin_task input task (record start { queue = [] })

abbrev ended : RunState
ended = finish_task input (page_unit limits_path page) task call message ids begun

begun_reached : Reach input start begun
unfolding start_phase ai_work
begun_reached = next here (begin task [] refl refl (omega arith))

ended_reached : Reach input start ended
unfolding begin_task map_get reserve start_phase
ended_reached =
    next begun_reached
      (answer task (page_unit limits_path page) call message ids (inl refl) refl refl refl)

distinct : HasDistinctIds impacts
distinct r q (inl e) (inl f) h = e ∙ sym f
distinct r q (inr (inl e)) (inr (inl f)) h = e ∙ sym f
distinct r q (inl e) (inr (inl f)) h = absurd (apart (cc))
  where
    apart : task.id ≡ other.id → ⊥
    apart k = clash ((eq_iff "imp_1" "imp_2").1 k)
      where
        clash : false ≡ true → ⊥
        clash x = cc
distinct r q (inr (inl e)) (inl f) h = absurd (apart (cc))
  where
    apart : other.id ≡ task.id → ⊥
    apart k = clash ((eq_iff "imp_2" "imp_1").1 k)
      where
        clash : false ≡ true → ⊥
        clash x = cc
distinct r q (inr (inr m)) n h = absurd m
distinct r q m (inr (inr n)) h = absurd n

Reach-kept_example : Member other ended.impacts
Reach-kept_example =
    Reach-kept input spend impacts [] ended other ended_reached distinct (inr (inl refl)) refl

none_queued : ended.queue ≡ []
unfolding finish_task begin_task start_phase ai_work judge_message judge_text judge_verdict
    message_text write_outcome drop_call call_or_stop parse_patch_proposal validate_patch reserve
    spend_gate record_model_call map_get match_fact_key own_property fact_registry body_content_safe
    has_tag has_handler has_javascript_uri has_statement path_allowlisted split_on
none_queued = refl

none_waiting : ended.in_flight ≡ []
unfolding finish_task begin_task start_phase ai_work judge_message judge_text judge_verdict
    message_text write_outcome drop_call call_or_stop parse_patch_proposal validate_patch reserve
    spend_gate record_model_call map_get match_fact_key own_property fact_registry body_content_safe
    has_tag has_handler has_javascript_uri has_statement path_allowlisted split_on
none_waiting = refl

Reach-IsSettled_example :
    (q : ImpactRecord) × Member q ended.impacts × (identity_of q ≡ identity_of task) × IsSettled q
Reach-IsSettled_example =
    Reach-IsSettled input spend impacts [] ended task ended_reached none_queued none_waiting
      (inl refl) refl

Reach-steps_example : steps ended_reached + measure ended ≤ 2 * length (ai_work impacts)
Reach-steps_example = Reach-steps input spend impacts [] ended_reached

Reach-IsGuarded_example : IsGuarded spend ended
Reach-IsGuarded_example = Reach-IsGuarded input spend impacts [] ended ended_reached

abbrev pub validation : PatchValidation
validation = record {
  evidence_resolvable = true;
  introduces_no_new_facts = true;
  respects_editorial_register = true;
  path_allowlisted = true;
  falsification = record { attempted = false; refuted = false; refutation = none };
}

abbrev stored : ModelPatchRow
stored = record {
  id = "pat_1";
  path = limits_path;
  before = page;
  after = codes "Up to 900 rows.";
  unified = (make_diff limits_path page (codes "Up to 900 rows.")).unified;
  origin = model_grounded;
  doc_unit_id = limits_path;
  impact_ids = "imp_1" ∷ [];
  evidence =
      record {
        fact_key = max_rows;
        tier = t1_schema;
        locator = "schema";
        value = num 900;
        observed_at = "2026-01-01";
      }
      ∷ [];
  requires_review = true;
  validation = validation;
  changed_because = "the limit rose";
  needs_human_because = none;
}

stored_there : Member stored ended.patches
unfolding finish_task begin_task start_phase ai_work judge_message judge_text judge_verdict
    message_text write_outcome drop_call call_or_stop parse_patch_proposal validate_patch reserve
    spend_gate record_model_call map_get match_fact_key own_property fact_registry body_content_safe
    has_tag has_handler has_javascript_uri has_statement path_allowlisted split_on patch_row
    before_text after_text replace_first replace_at expand index_of
stored_there = inl refl

Reach-IsReviewed_example : IsReviewed input stored
Reach-IsReviewed_example =
    Reach-IsReviewed input spend impacts [] ended stored ended_reached stored_there
