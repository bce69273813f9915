-- ===== src/Contracts/DocIds/Tests.antt =====
-- An instance of the round trip: a section of a help page.
use doc_eng_demo.Prelude.{◌≡◌, ◌≢◌, refl, some, codes, []}
use doc_eng_demo.Concord.Types.{helpcenter}
use doc_eng_demo.Contracts.DocIds.{DocUnitIdParts, build_doc_unit_id, parse_doc_unit_id}
use doc_eng_demo.Contracts.DocIds.RoundTrip.{IsAnchor, parse_doc_unit_id-build_doc_unit_id}

abbrev section : DocUnitIdParts
section = record {
  surface = helpcenter;
  path = codes "help-center/limits.md";
  anchor = some (codes "rows");
}

built : build_doc_unit_id section ≡ some (codes "helpcenter:help-center/limits.md#rows")
unfolding build_doc_unit_id
built = refl

path_filled : section.path ≢ []
path_filled e = cc

anchor_readable : IsAnchor section.anchor
anchor_readable = (λ e. cc, refl)

parse_doc_unit_id-build_doc_unit_id_example :
    parse_doc_unit_id (codes "helpcenter:help-center/limits.md#rows") ≡ some section
parse_doc_unit_id-build_doc_unit_id_example =
    parse_doc_unit_id-build_doc_unit_id section (codes "helpcenter:help-center/limits.md#rows")
      built path_filled anchor_readable
