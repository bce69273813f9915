-- ===== src/Api/Github/Tests.antt =====
-- Instances of the properties of `publishRun`: a patch on the allowlist and one that is not, a server
-- that does all it is asked, and one that does not move the branch.
use doc_eng_demo.Prelude.{ℕ, true, false, none, some, [], ◌∷◌, codes, refl, inl, inr, String}
use doc_eng_demo.Contracts.Records.{Text, deterministic}
use doc_eng_demo.Concord.Validate.Path.{path_allowlisted}
use doc_eng_demo.Api.Publish.{PublishPatch}
use doc_eng_demo.Api.Github.{
  Request, mint_token, delete_ref, open_pull, create_ref, get_commit, update_ref, create_tree,
  create_commit, Response, Server, PublishInput, open_branch, publish_run, blob_of,
}
use doc_eng_demo.Api.Github.Requests.{IsAllowed, publish_run-IsAllowed}
use doc_eng_demo.Api.Github.Branch.{IsClosed, publish_run-IsClosed}

abbrev same_text : Text → Text
same_text t = t

abbrev answer : ℕ → Response
answer n = record {
  status = n;
  token = some "token";
  sha = some "sha";
  tree_sha = some "tree";
  html_url = some "pull/1";
}

-- The status of the update of the branch, and all else as asked.
abbrev server : ℕ → Server
server n log mint_token = some (answer 201)
server n log delete_ref = some (answer 204)
server n log open_pull = some (answer 201)
server n log (create_ref sha) = some (answer 201)
server n log (get_commit sha) = some (answer 200)
server n log (update_ref sha) = some (answer n)
server n log (create_tree base files) = some (answer 201)
server n log (create_commit tree sha) = some (answer 201)

abbrev patch : String → PublishPatch
patch path = record {
  path = path;
  content = codes "Up to 900 rows.";
  origin = deterministic;
  evidence = [];
}

abbrev input : PublishInput
input = record {
  run_id = "run_1";
  estate_sha = "0123456789abcdef0123456789abcdef01234567";
  patches = patch "docs-mintlify/limits/csv.mdx" ∷ patch "estate/docs-mintlify/limits/csv.mdx" ∷ [];
}

abbrev tree_request : Request
tree_request = create_tree "tree" (blob_of (patch "docs-mintlify/limits/csv.mdx") ∷ [])

publish_run-IsAllowed_example : IsAllowed same_text tree_request
unfolding publish_run open_branch path_allowlisted doc_eng_demo.Prelude.split_on
publish_run-IsAllowed_example =
    publish_run-IsAllowed same_text (server 200) input tree_request (inr (inr (inr (inl refl))))

publish_run-IsClosed_example : IsClosed (server 422) (publish_run same_text (server 422) input)
publish_run-IsClosed_example = publish_run-IsClosed same_text (server 422) input
