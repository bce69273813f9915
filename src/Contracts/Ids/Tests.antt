-- ===== src/Contracts/Ids/Tests.antt =====
-- An instance of the order of identifiers: two times in 2026, the earlier with the greater bytes.
use doc_eng_demo.Prelude.{ℕ, [], ◌∷◌, codes, arith, ◌<◌, ◌^◌}
use doc_eng_demo.Contracts.Ids.{new_id}
use doc_eng_demo.Contracts.Ids.Order.{Less, new_id-Less}

abbrev early : ℕ
early = 1_767_225_600_000

abbrev late : ℕ
late = 1_767_225_600_001

in_order : early < late
in_order = ground arith

in_range : late < 32 ^ 10
in_range = ground arith

new_id-Less_example :
    Less (new_id (codes "run") early (31 ∷ 31 ∷ [])) (new_id (codes "run") late (0 ∷ 0 ∷ []))
new_id-Less_example =
    new_id-Less (codes "run") early late (31 ∷ 31 ∷ []) (0 ∷ 0 ∷ []) in_order in_range
