-- ===== src/Api/Github.antt =====
-- `publishRun` and `mintInstallationToken` (packages/concord-api/src/github.ts): the requests to
-- GitHub in their order, against a server that answers each by what went before. A request is its
-- method, path and the fields that hold the commit, the tree and the files; the texts of failures
-- and of the pull request are left out, and signing the token's request is the platform's.
pub mod Requests
pub mod Branch
pub mod Tests
use doc_eng_demo.Prelude.{
  ℕ, String, Bool, true, false, ◌&&◌, ◌||◌, not, Option, none, some, List, [], ◌∷◌, map, filter,
  all, length, includes, leb, eqb, codes, has_prefix, ◌==◌, ◌>>=◌, if◌then◌else◌,
}
use doc_eng_demo.Contracts.Records.{Text}
use doc_eng_demo.Concord.Normalize.{is_letter, is_digit}
use doc_eng_demo.Concord.Validate.Path.{path_allowlisted}
use doc_eng_demo.Api.Publish.{PublishPatch}

pub record BlobFile : Type 0 where
  pub path : String
  pub content : Text

pub data Request : Type 0 where
  mint_token delete_ref open_pull : Request
  create_ref get_commit update_ref : String → Request
  create_tree : String → List BlobFile → Request
  create_commit : String → String → Request

-- The status and the fields that the calls read, where they are texts.
pub record Response : Type 0 where
  pub status : ℕ
  pub token : Option String
  pub sha : Option String
  pub tree_sha : Option String
  pub html_url : Option String

-- The requests so far, the latest first, and the next one; `none` where the call throws.
abbrev pub Server : Type 0
Server = List Request → Request → Option Response

pub record PublishInput : Type 0 where
  pub run_id : String
  pub estate_sha : String
  pub patches : List PublishPatch

pub data Reason : Type 0 where
  no_allowlisted_patches run_id_shape estate_sha_shape : Reason
  branch_creation_failed failed_after_creation : Reason

pub data PublishResult : Type 0 where
  published : String → List String → List String → PublishResult
  not_published : Reason → List String → Option Bool → PublishResult

-- What the run of the function comes to; `raised` is a throw.
pub data Outcome : Type 0 where
  returned : PublishResult → Outcome
  raised : Outcome

abbrev pub is_id_char : ℕ → Bool
is_id_char c = is_letter c || (is_digit c || (eqb c b'_' || eqb c b'-'))

abbrev pub is_run_id : String → Bool
is_run_id s = let cs = codes s in all is_id_char cs && (leb 1 (length cs) && leb (length cs) 64)

abbrev pub is_hex_char : ℕ → Bool
is_hex_char c = is_digit c || (leb b'a' c && leb c b'f')

abbrev pub is_sha : String → Bool
is_sha s = let cs = codes s in all is_hex_char cs && eqb (length cs) 40

-- A request whose answer is checked, or whose check throws.
abbrev pub ask {ℓ} :
    {A : Type ℓ} → Server → (Response → Option A) → Request → List Request → Option A × List Request
ask server check request log = (server log request >>= check, request ∷ log)

abbrev pub after {ℓ κ} :
    {A : Type ℓ} {B : Type κ}
    → Option A × List Request
    → (A → List Request → Option B × List Request)
    → Option B × List Request
after (none, log) k = (none, log)
after (some a, log) k = k a log

abbrev pub when_status {ℓ} : {A : Type ℓ} → ℕ → Option A → Response → Option A
when_status n value r = if eqb r.status n then value else none

abbrev non_empty : Option String → Option String
non_empty none = none
non_empty (some s) = if s == "" then none else some s

abbrev pub token_of : Response → Option String
token_of r = when_status 201 r.token r

abbrev pub base_tree_of : Response → Option String
base_tree_of r = when_status 200 (non_empty r.tree_sha) r

abbrev pub created_sha : Response → Option String
created_sha r = when_status 201 r.sha r

abbrev pub updated : Response → Option Bool
updated r = when_status 200 (some true) r

abbrev pub pull_url : Response → Option String
pull_url r = when_status 201 r.html_url r

abbrev pub blob_of : PublishPatch → BlobFile
blob_of p = record { path = p.path; content = p.content }

-- The calls under `try`, from the created branch to the pull request.
unfoldable pub open_branch :
    Server → PublishInput → List PublishPatch → List Request → Option String × List Request
open_branch server input committed log =
    after (ask server base_tree_of (get_commit input.estate_sha) log) (λ base. λ log1.
      after (ask server created_sha (create_tree base (map blob_of committed)) log1) (λ tree.
        λ log2. after (ask server created_sha (create_commit tree input.estate_sha) log2) (λ commit.
          λ log3.
            after (ask server updated (update_ref commit) log3)
              (λ done. λ log4. ask server pull_url open_pull log4))))

abbrev deleted_result : List String → Option Response → Outcome
deleted_result refused none = raised
deleted_result refused (some r) =
    returned (not_published failed_after_creation refused (some (eqb r.status 204)))

-- The end: the pull request, or the branch deleted.
abbrev pub close_branch :
    Server → List PublishPatch → List String → Option String × List Request → Outcome × List Request
close_branch server committed refused (some url, log) =
    (returned (published url (map (λ p. p.path) committed) refused), log)
close_branch server committed refused (none, log) =
    (deleted_result refused (server log delete_ref), delete_ref ∷ log)

abbrev pub with_branch :
    Server
    → PublishInput
    → List PublishPatch
    → List String
    → Option Response × List Request
    → Outcome × List Request
with_branch server input committed refused (none, log) = (raised, log)
with_branch server input committed refused (some r, log) =
    if eqb r.status 201
    then close_branch server committed refused (open_branch server input committed log)
    else (returned (not_published branch_creation_failed refused none), log)

abbrev pub with_token :
    Server
    → PublishInput
    → List PublishPatch
    → List String
    → Option String × List Request
    → Outcome × List Request
with_token server input committed refused (none, log) = (raised, log)
with_token server input committed refused (some token, log) =
    with_branch server input committed refused
      (server log (create_ref input.estate_sha), create_ref input.estate_sha ∷ log)

module _ (nfc : Text → Text) where
  abbrev pub is_refused : PublishPatch → Bool
  is_refused p =
      has_prefix (codes "estate/") (codes p.path) || not (path_allowlisted nfc (codes p.path))

  abbrev pub refused_paths : List PublishPatch → List String
  refused_paths patches = map (λ p. p.path) (filter is_refused patches)

  abbrev pub committed_patches : List PublishPatch → List PublishPatch
  committed_patches patches = filter (λ p. not (includes (refused_paths patches) p.path)) patches

  abbrev pub refusal : PublishInput → Reason → Outcome × List Request
  refusal input why = (returned (not_published why (refused_paths input.patches) none), [])

  abbrev pub publish_some : Server → PublishInput → List PublishPatch → Outcome × List Request
  publish_some server input [] = refusal input no_allowlisted_patches
  publish_some server input (p ∷ ps) =
      if not (is_run_id input.run_id)
      then refusal input run_id_shape
      else if not (is_sha input.estate_sha)
      then refusal input estate_sha_shape
      else with_token server input (p ∷ ps) (refused_paths input.patches)
          (ask server token_of mint_token [])

  unfoldable pub publish_run : Server → PublishInput → Outcome × List Request
  publish_run server input = publish_some server input (committed_patches input.patches)
