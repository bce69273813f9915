-- ===== src/Api/Github/Branch.antt =====
-- What is left of the branch of `publishRun` (packages/concord-api/src/github.ts).
use doc_eng_demo.Prelude.{
  ◌≡◌, refl, String, Bool, true, false, ◌||◌, not, Option, none, some, List, [], ◌∷◌, map, eqb,
  ◌>>=◌, if◌then◌else◌, ◌⊎◌, inl, inr,
}
use doc_eng_demo.Contracts.Records.{Text}
use doc_eng_demo.Api.Publish.{PublishPatch}
use doc_eng_demo.Api.Github.{
  Request, mint_token, delete_ref, open_pull, create_ref, get_commit, update_ref, create_tree,
  create_commit, Response, Server, PublishInput, Outcome, returned, raised, published,
  not_published, branch_creation_failed, ask, after, base_tree_of, created_sha, updated, pull_url,
  token_of, blob_of, open_branch, close_branch, deleted_result, with_branch, with_token,
  refused_paths, committed_patches, publish_some, publish_run, is_run_id, is_sha, refusal,
  run_id_shape, estate_sha_shape,
}

abbrev pub says_created : Option Response → Bool
says_created none = false
says_created (some r) = eqb r.status 201

-- The request creates the branch, and the server says so.
abbrev pub creates : Server → List Request → Request → Bool
creates server log (create_ref sha) = says_created (server log (create_ref sha))
creates server log mint_token = false
creates server log delete_ref = false
creates server log open_pull = false
creates server log (get_commit sha) = false
creates server log (update_ref sha) = false
creates server log (create_tree base files) = false
creates server log (create_commit tree sha) = false

abbrev pub branch_created : Server → List Request → Bool
branch_created server [] = false
branch_created server (q ∷ log) = creates server log q || branch_created server log

-- By how the run ends: which request was its last, or that it has no branch.
abbrev pub IsClosed : Server → Outcome × List Request → Type 0
IsClosed server (returned (published url committed refused), log) =
    (rest : List Request) × log ≡ open_pull ∷ rest
IsClosed server (returned (not_published why refused none), log) = branch_created server log ≡ false
IsClosed server (returned (not_published why refused (some deleted)), log) =
    (rest : List Request) × (r : Response) × (log ≡ delete_ref ∷ rest)
    × ((server rest delete_ref ≡ some r) × (deleted ≡ eqb r.status 204))
IsClosed server (raised, log) =
    (branch_created server log ≡ false) ⊎ ((rest : List Request) × log ≡ delete_ref ∷ rest)

-- Where a call came to something, its last request asked for the pull request.
EndsOpen : {A : Type 0} → Option A × List Request → Type 0
EndsOpen (none, log) = Unit
EndsOpen (some a, log) = (rest : List Request) × (log ≡ open_pull ∷ rest)

after-EndsOpen :
    {A B : Type 0} (m : Option A × List Request) (k : A → List Request → Option B × List Request)
    → ((a : A) (log : List Request) → EndsOpen (k a log))
    → EndsOpen (after m k)
unfolding EndsOpen
after-EndsOpen (none, log) k f = tt
after-EndsOpen (some a, log) k f = f a log

open_branch-EndsOpen :
    (server : Server) (input : PublishInput) (committed : List PublishPatch) (log : List Request)
    → EndsOpen (open_branch server input committed log)
unfolding open_branch EndsOpen
open_branch-EndsOpen server input committed log =
    after-EndsOpen (ask server base_tree_of (get_commit input.estate_sha) log) _ (λ base log1.
      after-EndsOpen (ask server created_sha (create_tree base (map blob_of committed)) log1) _
        (λ tree log2.
          after-EndsOpen (ask server created_sha (create_commit tree input.estate_sha) log2) _
            (λ commit log3.
              after-EndsOpen (ask server updated (update_ref commit) log3) _
                (λ done log4. opened (server log4 open_pull >>= pull_url) log4))))
  where
    opened : (x : Option String) (rest : List Request) → EndsOpen (x, open_pull ∷ rest)
    opened none rest = tt
    opened (some url) rest = (rest, refl)

close_branch-IsClosed :
    (server : Server) (committed : List PublishPatch) (refused : List String)
    (m : Option String × List Request)
    → EndsOpen m
    → IsClosed server (close_branch server committed refused m)
unfolding EndsOpen
close_branch-IsClosed server committed refused (some url, log) h = h
close_branch-IsClosed server committed refused (none, log) h = deleted (server log delete_ref) refl
  where
    deleted :
        (x : Option Response)
        → server log delete_ref ≡ x
        → IsClosed server (deleted_result refused x, delete_ref ∷ log)
    deleted none e = inr (log, refl)
    deleted (some r) e = (log, r, refl, (e, refl))

with_branch-IsClosed :
    (server : Server) (input : PublishInput) (committed : List PublishPatch) (refused : List String)
    (log : List Request)
    → branch_created server log ≡ false
    → IsClosed server (
        with_branch server input committed refused
          (server log (create_ref input.estate_sha), create_ref input.estate_sha ∷ log))
with_branch-IsClosed server input committed refused log h =
    asked (server log (create_ref input.estate_sha)) refl
  where
    asked :
        (x : Option Response)
        → server log (create_ref input.estate_sha) ≡ x
        → IsClosed server
            (with_branch server input committed refused (x, create_ref input.estate_sha ∷ log))
    asked none e = inl (rw e h)
    asked (some r) e = either (eqb r.status 201) refl
      where
        either :
            (b : Bool)
            → eqb r.status 201 ≡ b
            → IsClosed server (
                if◌then◌else◌ {A = Outcome × List Request} b
                  (close_branch server committed refused
                    (open_branch server input committed (create_ref input.estate_sha ∷ log)))
                  (
                    returned (not_published branch_creation_failed refused none),
                    create_ref input.estate_sha ∷ log,
                  ))
        either true n =
            close_branch-IsClosed server committed refused
              (open_branch server input committed (create_ref input.estate_sha ∷ log))
              (open_branch-EndsOpen server input committed (create_ref input.estate_sha ∷ log))
        either false n = rw e (rw n h)

with_token-IsClosed :
    (server : Server) (input : PublishInput) (committed : List PublishPatch) (refused : List String)
    (m : Option String × List Request)
    → branch_created server m.1 ≡ false
    → IsClosed server (with_token server input committed refused m)
with_token-IsClosed server input committed refused (none, log) h = inl h
with_token-IsClosed server input committed refused (some t, log) h =
    with_branch-IsClosed server input committed refused log h

module _ (nfc : Text → Text) where
  publish_some-IsClosed :
      (server : Server) (input : PublishInput) (committed : List PublishPatch)
      → IsClosed server (publish_some nfc server input committed)
  publish_some-IsClosed server input [] = refl
  publish_some-IsClosed server input (p ∷ ps) =
      either (not (is_run_id input.run_id)) (not (is_sha input.estate_sha))
    where
      either :
          (a b : Bool)
          → IsClosed server (
              if◌then◌else◌ {A = Outcome × List Request} a (refusal nfc input run_id_shape) (
                if◌then◌else◌ {A = Outcome × List Request} b (refusal nfc input estate_sha_shape) (
                  with_token server input
                    (p ∷ ps)
                    (refused_paths nfc input.patches)
                    (ask server token_of mint_token []))))
      either true b = refl
      either false true = refl
      either false false =
          with_token-IsClosed server input (p ∷ ps) (refused_paths nfc input.patches)
            (ask server token_of mint_token []) refl

  -- Whatever the server answers, a run ends in one of four ways. It is published, and its last
  -- request asks for the pull request; or it is not, and no request of it created the branch; or it
  -- is not, its last request deletes the branch, and the result says by the answer's status whether
  -- the branch is gone; or it throws, where no request created the branch or the last one deletes it.
  pub publish_run-IsClosed :
      (server : Server) (input : PublishInput) → IsClosed server (publish_run nfc server input)
  unfolding publish_run
  publish_run-IsClosed server input =
      publish_some-IsClosed server input (committed_patches nfc input.patches)
