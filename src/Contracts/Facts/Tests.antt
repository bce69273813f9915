-- ===== src/Contracts/Facts/Tests.antt =====
-- Instances of the properties of packages/contracts/src/facts.ts.
use doc_eng_demo.Prelude.{refl}
use doc_eng_demo.Contracts.Facts.{command_flags, family_matches}
use doc_eng_demo.Contracts.Facts.Authority.{Source, family, one_authority}

one_authority_example : Path Source (family command_flags) (family command_flags)
unfolding family_matches
one_authority_example =
    one_authority "cli.command.start.flags" (family command_flags) (family command_flags) refl refl
