-- ===== src/Api/Github/Requests.antt =====
-- What `publishRun` (packages/concord-api/src/github.ts) asks of GitHub.
use doc_eng_demo.Prelude.{
  ◌≡◌, refl, String, Bool, true, false, ◌||◌, not, Option, none, some, List, [], ◌∷◌, map, filter,
  All, All-Member, Member, Member-map, map-Member, Member-filter, filter-Member, includes, codes,
  has_prefix, Bool-cases, arith, ◌⊎◌, inl, inr, ◌==◌, eq_iff, eqb, if◌then◌else◌,
}
use doc_eng_demo.Contracts.Records.{Text}
use doc_eng_demo.Concord.Validate.Path.{path_allowlisted}
use doc_eng_demo.Api.Publish.{PublishPatch}
use doc_eng_demo.Api.Github.{
  BlobFile, Request, mint_token, delete_ref, open_pull, create_ref, get_commit, update_ref,
  create_tree, create_commit, Response, Server, PublishInput, Outcome, ask, after, base_tree_of,
  created_sha, updated, token_of, blob_of, open_branch, close_branch, with_branch, with_token,
  is_refused, refused_paths, committed_patches, publish_some, publish_run, is_run_id, is_sha,
  refusal, returned, not_published, branch_creation_failed, run_id_shape, estate_sha_shape,
}

module _ (nfc : Text → Text) where
  -- A file below the allowlist, without the mount's prefix.
  abbrev pub IsWritable : BlobFile → Type 0
  IsWritable f =
      (has_prefix (codes "estate/") (codes f.path) ≡ false)
      × (path_allowlisted nfc (codes f.path) ≡ true)

  -- A request writes nothing else.
  abbrev pub IsAllowed : Request → Type 0
  IsAllowed (create_tree base files) = (f : BlobFile) → Member f files → IsWritable f
  IsAllowed mint_token = Unit
  IsAllowed delete_ref = Unit
  IsAllowed open_pull = Unit
  IsAllowed (create_ref sha) = Unit
  IsAllowed (get_commit sha) = Unit
  IsAllowed (update_ref sha) = Unit
  IsAllowed (create_commit tree sha) = Unit

includes-Member : (xs : List String) (x : String) → Member x xs → includes xs x ≡ true
includes-Member [] x m = absurd m
includes-Member (y ∷ ys) x (inl e) = rw ((eq_iff x y).1 e) refl
includes-Member (y ∷ ys) x (inr m) = either (x == y) (includes-Member ys x m)
  where
    either : (b : Bool) → {c : Bool} → c ≡ true → (b || c) ≡ true
    either true h = refl
    either false h = h

committed-IsWritable :
    (nfc : Text → Text) (patches : List PublishPatch) (p : PublishPatch)
    → Member p (committed_patches nfc patches)
    → IsWritable nfc (blob_of p)
committed-IsWritable nfc patches p m =
    let (n, h) = Member-filter _ patches p m in
    writable (has_prefix (codes "estate/") (codes p.path)) (path_allowlisted nfc (codes p.path))
      (not_refused n h (Bool-cases (is_refused nfc p)))
  where
    clash : {b : Bool} → b ≡ true → not b ≡ true → ⊥
    clash x y = ground (arith, x, y)

    not_refused :
        Member p patches
        → not (includes (refused_paths nfc patches) p.path) ≡ true
        → (is_refused nfc p ≡ true) ⊎ (is_refused nfc p ≡ false)
        → is_refused nfc p ≡ false
    not_refused n h (inl e) = absurd (
        clash
          (includes-Member (refused_paths nfc patches) p.path (
            Member-map (λ (q : PublishPatch). q.path) (filter (is_refused nfc) patches) p
              (filter-Member (is_refused nfc) patches p n e)))
          h)
    not_refused n h (inr e) = e

    writable : (a b : Bool) → (a || not b) ≡ false → (a ≡ false) × (b ≡ true)
    writable a b h = (ground arith, ground arith)

module _ (nfc : Text → Text) where
  AllAllowed : List Request → Type 0
  AllAllowed log = All (IsAllowed nfc) log

  after-AllAllowed :
      {A B : Type 0} (m : Option A × List Request) (k : A → List Request → Option B × List Request)
      → AllAllowed m.1
      → ((a : A) (log : List Request) → AllAllowed log → AllAllowed (k a log).1)
      → AllAllowed (after m k).1
  after-AllAllowed (none, log) k h f = h
  after-AllAllowed (some a, log) k h f = f a log h

  open_branch-AllAllowed :
      (server : Server) (input : PublishInput) (committed : List PublishPatch) (log : List Request)
      → ((p : PublishPatch) → Member p committed → IsWritable nfc (blob_of p))
      → AllAllowed log
      → AllAllowed (open_branch server input committed log).1
  unfolding open_branch AllAllowed
  open_branch-AllAllowed server input committed log safe h =
      after-AllAllowed (ask server base_tree_of (get_commit input.estate_sha) log) _ (tt, h)
        (λ base log1 h1.
          after-AllAllowed (ask server created_sha (create_tree base (map blob_of committed)) log1)
            _ ((λ f m. from_patch f m), h1)
            (λ tree log2 h2.
              after-AllAllowed (ask server created_sha (create_commit tree input.estate_sha) log2) _
                (tt, h2)
                (λ commit log3 h3.
                  after-AllAllowed (ask server updated (update_ref commit) log3) _ (tt, h3)
                    (λ done log4 h4. (tt, h4)))))
    where
      from_patch : (f : BlobFile) → Member f (map blob_of committed) → IsWritable nfc f
      from_patch f m = let (p, n, e) = map-Member blob_of committed f m in rw e (safe p n)

  close_branch-AllAllowed :
      (server : Server) (committed : List PublishPatch) (refused : List String)
      (m : Option String × List Request)
      → AllAllowed m.1
      → AllAllowed (close_branch server committed refused m).1
  unfolding AllAllowed
  close_branch-AllAllowed server committed refused (none, log) h = (tt, h)
  close_branch-AllAllowed server committed refused (some url, log) h = h

  with_branch-AllAllowed :
      (server : Server) (input : PublishInput) (committed : List PublishPatch)
      (refused : List String) (m : Option Response × List Request)
      → ((p : PublishPatch) → Member p committed → IsWritable nfc (blob_of p))
      → AllAllowed m.1
      → AllAllowed (with_branch server input committed refused m).1
  with_branch-AllAllowed server input committed refused (none, log) safe h = h
  with_branch-AllAllowed server input committed refused (some r, log) safe h =
      either (eqb r.status 201)
    where
      either :
          (b : Bool)
          → AllAllowed
              (if◌then◌else◌ {A = Outcome × List Request} b
                (close_branch server committed refused (open_branch server input committed log))
                (returned (not_published branch_creation_failed refused none), log)).1
      either true =
          close_branch-AllAllowed server committed refused (open_branch server input committed log)
            (open_branch-AllAllowed server input committed log safe h)
      either false = h

  with_token-AllAllowed :
      (server : Server) (input : PublishInput) (committed : List PublishPatch)
      (refused : List String) (m : Option String × List Request)
      → ((p : PublishPatch) → Member p committed → IsWritable nfc (blob_of p))
      → AllAllowed m.1
      → AllAllowed (with_token server input committed refused m).1
  unfolding AllAllowed
  with_token-AllAllowed server input committed refused (none, log) safe h = h
  with_token-AllAllowed server input committed refused (some t, log) safe h =
      with_branch-AllAllowed server input committed refused
        (server log (create_ref input.estate_sha), create_ref input.estate_sha ∷ log) safe (tt, h)

  publish_some-AllAllowed :
      (server : Server) (input : PublishInput) (committed : List PublishPatch)
      → ((p : PublishPatch) → Member p committed → IsWritable nfc (blob_of p))
      → AllAllowed (publish_some nfc server input committed).1
  unfolding AllAllowed
  publish_some-AllAllowed server input [] safe = tt
  publish_some-AllAllowed server input (p ∷ ps) safe =
      either (not (is_run_id input.run_id)) (not (is_sha input.estate_sha))
    where
      either :
          (a b : Bool)
          → AllAllowed
              (if◌then◌else◌ {A = Outcome × List Request} a (refusal nfc input run_id_shape) (
                if◌then◌else◌ {A = Outcome × List Request} b (refusal nfc input estate_sha_shape) (
                  with_token server input
                    (p ∷ ps)
                    (refused_paths nfc input.patches)
                    (ask server token_of mint_token [])))).1
      either true b = tt
      either false true = tt
      either false false =
          with_token-AllAllowed server input (p ∷ ps) (refused_paths nfc input.patches)
            (ask server token_of mint_token []) safe (tt, tt)

  -- Whatever the server answers, every request of a run writes only paths that are on the allowlist
  -- and do not start with the mount's prefix.
  pub publish_run-IsAllowed :
      (server : Server) (input : PublishInput) (q : Request)
      → Member q (publish_run nfc server input).1
      → IsAllowed nfc q
  unfolding publish_run AllAllowed
  publish_run-IsAllowed server input q m =
      All-Member (IsAllowed nfc) (publish_run nfc server input).1 q
        (publish_some-AllAllowed server input (committed_patches nfc input.patches)
          (committed-IsWritable nfc input.patches))
        m
