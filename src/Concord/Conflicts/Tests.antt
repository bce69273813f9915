-- ===== src/Concord/Conflicts/Tests.antt =====
-- Instances of the properties of conflicts: a release announces a limit of 900 rows that is still
-- 500, and two pages cite each other.
use doc_eng_demo.Prelude.{◌≡◌, refl, some, [], ◌∷◌, List, inl, codes, less_codes}
use doc_eng_demo.Value.{
  num, str, arr, obj, item, no_items, field, no_fields, get_field, items_of, text_of,
}
use doc_eng_demo.Contracts.Facts.{
  t4_release, match_fact_key, fact_registry, family_matches, first_family, own_property,
}
use doc_eng_demo.Contracts.Records.{FactClaim, ConflictDraft, certain}
use doc_eng_demo.Concord.Types.{DocUnit}
use doc_eng_demo.Concord.Pipeline.{map_get}
use doc_eng_demo.Concord.Conflicts.{
  Transition, temporal_contradictions, temporal_draft, announced, detect_conflicts,
  arbitration_conflicts, judge, judge_all, latest_from, latest_transitions, put_transition,
}
use doc_eng_demo.Concord.Conflicts.Circular.{
  circular_references, circular_draft, circular_pairs, cite_here, cite_rounds, cited_by, cites_back,
  cites_from, cites_of, is_new_pair, last_segment, link_tail, page_of, pair_key,
}
use doc_eng_demo.Concord.Conflicts.Temporal.{
  IsContradiction, temporal_contradictions-IsContradiction,
}
use doc_eng_demo.Concord.Fixtures.{max_rows, page_unit, rows_fact}
use doc_eng_demo.Concord.Authority.{
  arbitrate, arbitrate_all, consider, consider_all, disagrees, distinct, expand_claims,
  human_conflicts, lower_conflicts,
}
use doc_eng_demo.Concord.Normalize.{ascii_lower, normalize_for_fact, same_normalized, skip_spaces}

abbrev release_fact : FactClaim
release_fact = record {
  key = "release.r1.changes";
  value = obj (
      field "released_at" (str "2026-02-01") (
        field "changes"
          (arr (
            item
              (obj (
                field "fact_key" (str max_rows)
                  (field "from" (num 500) (field "to" (num 900) no_fields))))
              no_items))
          no_fields));
  tier = t4_release;
  locator = "releases/r1";
  observed_at = "2026-02-01";
  confidence = certain;
}

abbrev facts : List FactClaim
facts = rows_fact 500 ∷ release_fact ∷ []

abbrev promised : Transition
promised = record {
  fact_key = max_rows;
  from = num 500;
  to = num 900;
  release_key = "release.r1.changes";
  locator = "releases/r1";
  released_at = "2026-02-01";
}

abbrev contradiction : ConflictDraft
contradiction = temporal_draft (rows_fact 500) promised

contradicted : temporal_contradictions facts ≡ some (contradiction ∷ [])
unfolding temporal_contradictions judge_all latest_transitions latest_from announced items_of
    get_field text_of put_transition judge match_fact_key own_property fact_registry map_get
    same_normalized normalize_for_fact
contradicted = refl

temporal_contradictions-IsContradiction_example :
    (t : Transition) × IsContradiction facts t contradiction
temporal_contradictions-IsContradiction_example =
    temporal_contradictions-IsContradiction facts (contradiction ∷ []) contradiction contradicted
      (inl refl)

abbrev page_a : DocUnit
page_a = page_unit "docs/a.mdx" (codes "See source: [b](/b).")

abbrev page_b : DocUnit
page_b = page_unit "docs/b.mdx" (codes "Rows, per [a](/docs/a#rows).")

circular_found : circular_references (page_a ∷ page_b ∷ []) ≡ circular_draft page_a page_b ∷ []
unfolding circular_references circular_pairs cite_rounds cited_by cites_of cites_from circular_draft
    cite_here ascii_lower link_tail skip_spaces page_of last_segment is_new_pair cites_back pair_key
    less_codes
circular_found = refl

conflicts_found : detect_conflicts facts [] ≡ some (contradiction ∷ [])
unfolding detect_conflicts temporal_contradictions judge_all latest_transitions latest_from
    put_transition judge arbitration_conflicts announced items_of get_field text_of match_fact_key
    own_property fact_registry first_family family_matches map_get same_normalized
    normalize_for_fact arbitrate_all distinct expand_claims arbitrate consider_all consider
    human_conflicts lower_conflicts disagrees circular_references circular_pairs cite_rounds
conflicts_found = refl
