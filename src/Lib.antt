-- ===== src/Lib.antt =====
-- A model of the core of Concord, which keeps the documentation of the product Relay consistent
-- with its facts, and of the guards around it.
--
-- The parts and how they interact. A snapshot of product truth is a list of claims on fact keys,
-- each from a source of some tier. The registry says which tier is the authority for a key. The
-- pipeline compares two snapshots, arbitrates the claims of the newer one, finds the projections of
-- each changed fact in the documents, sends each through the classification table to an action,
-- and writes the patches that need no reviewer. A run of the API calls a model for the remaining
-- impacts, with a cap on calls and money, and the privileged routes stand behind an identity gate.
--
-- Files:
--   Prelude          the shared names: tests, lists with `Member`, texts as lists of code units.
--   Value            JSON values, `JSON.stringify` equality, `===` and the access to fields.
--   Contracts.Facts  packages/contracts/src/facts.ts and product-truth.ts: `match_fact_key` is
--                    `matchFactKey`, `Family` is a member of `TEMPLATED_FAMILIES`.
--   Contracts.Records, Contracts.Mutations   the other record types of packages/contracts/src, and
--                    the allowlist of change-lab.ts.
--   Contracts.Ids, Contracts.DocIds   packages/contracts/src/ids.ts: `newId` over given random bytes,
--                    and `buildDocUnitId` with `parseDocUnitId`.
--   Concord.Types    packages/concord-core/src/types.ts.
--   Concord.Normalize, Concord.Render   normalize-value.ts beside it: the parsers and normal forms,
--                    and `styleOf`, `formatValue` and the pipeline's `replaceSpan`, whose
--                    properties are in Concord.Render.Spans.
--   Concord.Diff     diff.ts beside it: `make_diff` is `makeDiff`.
--   Concord.Authority   authority.ts: `arbitrate` is a fold of `consider` over the relevant claims,
--                    as the loop is; Loop and Outcome say what it computes.
--   Concord.Classify    classify.ts: one test per rule and `first_rule` for the ladder.
--   Concord.Consistency consistency.ts: the four kinds of findings.
--   Concord.Conflicts   conflicts.ts: the three detectors of a snapshot and `insufficient_evidence`;
--                    Latest is about the map of the latest announcements, Circular is the search
--                    for pages that cite each other.
--   Concord.Proposal, Concord.Falsify   patch-prompts.ts and falsify.ts, over given parsers of JSON.
--   Concord.Pipeline    pipeline.ts: `visit` is one round of the two loops on the state `Pending`
--                    (the impacts so far and `afterByPath`), `run_pipeline` the whole run,
--                    `none` where it throws.
--   Concord.Content, Concord.Validate   patch-validate.ts and mutation-validate.ts: the searches in
--                    bodies that the source writes as regular expressions, the path lists (Path),
--                    the gates of `validatePatch` (Patch) and of `validateMutation` (Mutation).
--   Concord.Fixtures data for the instances in the modules named Tests.
--   Api.Spend        packages/concord-api/src/spend.ts and `guardedCall` of run.ts.
--   Api.Fanout       `mapConcurrent` of run.ts.
--   Api.Run          the model phase of `executeRun`: `RunState` is what its closures share,
--                    `begin_task` a task up to its call, `finish_task` the rest of it behind the
--                    answer, `Step` one of the two. Effects says what one step writes, and Written
--                    how a new body comes into its file.
--   Api.Setup        the working copy of a mutation and the records from which the phase starts;
--                    Blocked follows a key in conflict from the pipeline through the phase.
--   Api.Replace      the platform's `String.prototype.replace` with a text, as run.ts calls it.
--   Api.Falsify, Api.Publish   the rest of `executeRun`: the fate of a finding, and what is
--                    published, stored and reported.
--   Api.Github       `publishRun` of packages/concord-api/src/github.ts: Requests says what it asks
--                    for, Branch how it ends.
--   Api.Access       packages/concord-api/src/middleware/access.ts.
--   Relay.Csv        packages/relay-api/src/csv-scan.ts.
--   Relay.Limits     packages/relay-api/src/analysis/limits-guard.ts: `Step` is what happens between
--                    two waits of `guardModelCall`.
--
-- Conventions. A `throw` is `none` or a result of its own, and prose for people is left out. Numbers
-- are natural numbers; a confidence is in thousandths and money in units of 10^-8 USD, in which all
-- prices are whole. A text that the code walks is the list of its UTF-16 code units. Loops are
-- structural recursion; the only fuel is that of the decimal digits in Concord.Render, which is the
-- number itself plus one. Calls that wait for an answer are steps of a relation, so that a property
-- of all reachable states holds for every interleaving.
--
-- Three simplifications. Release and decision records are taken to have the fields of their schemas:
-- one without them makes no claim, where the code throws. `toLowerCase` folds the characters that
-- can yield an ASCII letter, and leaves others as they are. The extraction of Api.Spend makes any
-- number of calls, where the code makes at most ten (Api.Setup.selected_units).
--
-- Not modelled: the adapters, extractors, generators, link checks and coverage, which are fields of
-- the record `Stages` that the pipeline is given, as are the conflicts, which are modelled beside
-- it; the verification of tokens by the library `jose` and the choice of its key set (`keySourceFor`),
-- which are the gate's argument `Verifier`;
-- the listing and deletion of old branches; SQL, HTTP, the model provider, the user interface and
-- the command line.
pub mod Api
pub mod Concord
pub mod Contracts
pub mod Prelude
pub mod Relay
pub mod Value
