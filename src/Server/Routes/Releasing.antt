-- ===== src/Server/Routes/Releasing.antt =====
-- What `publish_worker_result` of routes_workers.py releases once it has answered.
use model_courier.Prelude.{
  ℕ, ◌≡◌, refl, sym, ap, String, Bool, false, Option, none, some, List, [], ◌∷◌, All, map, arith,
  eq_refl, Bool-cases, inl, inr,
}
use model_courier.Prelude.Tables.{select, delete}
use model_courier.Contracts.{ProviderResult}
use model_courier.Server.Exec.{Result, ok, err, Error}
use model_courier.Server.Db.{Db, ArtifactRow}
use model_courier.Server.Repository.{TaskRecord, Lease}
use model_courier.Server.Repository.Submit.{remove_input_artifacts, is_input_of}
use model_courier.Server.Repository.Leases.{publish_result}
use model_courier.Server.Tokens.{Principal}
use model_courier.Server.Storage.{Files}
use model_courier.Server.Routes.{AppState, Reply, answers, map_repository_error}
use model_courier.Server.Routes.Workers.{
  LeaseRequest, is_lease_request, Progress, lease_from_request, publish_worker_result, published,
  release, remove_all, remove_resolved,
}

delete-All : (p : ArtifactRow → Bool) (xs : List ArtifactRow) → All (λ a. p a ≡ false) (delete p xs)
unfolding delete
delete-All p [] = tt
delete-All p (x ∷ xs) = elim (Bool-cases (p x)) [
  | inl t ↦ rw t (delete-All p xs)
  | inr t ↦ rw t (t, delete-All p xs)
]

artifacts-publish_result :
    (sha256 : String → String) (lease : Lease) (r : ProviderResult) (now : ℕ) (db : Db)
    → (publish_result sha256 lease r now db).1.artifacts ≡ db.artifacts
unfolding publish_result
artifacts-publish_result sha256 lease r now db = ground arith

module _ (resolve : String → Option String) where
  remove_resolved-none :
      (o : Option String) (files : Files) (q : String)
      → files q ≡ none
      → remove_resolved resolve o files q ≡ none
  remove_resolved-none none files q e = e
  remove_resolved-none (some p) files q e = ground arith

  remove_all-none :
      (paths : List String) (files : Files) (q : String)
      → files q ≡ none
      → remove_all resolve paths files q ≡ none
  unfolding remove_all
  remove_all-none [] files q e = e
  remove_all-none (p ∷ paths) files q e =
      remove_all-none paths (remove_resolved resolve (resolve p) files) q
        (remove_resolved-none (resolve p) files q e)

  remove_all-All :
      (rows : List ArtifactRow) (files : Files)
      → All
          (λ a.
            (q : String)
            → resolve a.path ≡ some q
            → remove_all resolve (map (λ x. x.path) rows) files q ≡ none)
          rows
  unfolding remove_all
  remove_all-All [] files = tt
  remove_all-All (a ∷ rows) files = (
    λ q e.
        remove_all-none (map (λ x. x.path) rows) (remove_resolved resolve (resolve a.path) files) q
          (rw (e, remove_resolved) (rw (eq_refl q) refl)),
    remove_all-All rows (remove_resolved resolve (resolve a.path) files),
  )

  -- The task's input rows are gone, and so is the file of each of them, if it lay below the root.
  pub record Released (task_id : String) (before after : AppState) : Type 0 where
    pub no_rows : All (λ a. is_input_of task_id a ≡ false) after.db.artifacts
    pub no_files :
        All
          (λ a. (q : String) → resolve a.path ≡ some q → after.files q ≡ none)
          (select (is_input_of task_id) before.db.artifacts)

  removed :
      (o t : String) (db after : Db) (paths : List String)
      → remove_input_artifacts o t db ≡ (ok paths, after)
      → (paths ≡ map (λ x. x.path) (select (is_input_of t) db.artifacts))
        × (after.artifacts ≡ delete (is_input_of t) db.artifacts)
  unfolding remove_input_artifacts
  removed o t db after paths e = ground arith

  module _ (sha256 : String → String) where
    refused : (x : Error) (reply : Progress) → ¬ (map_repository_error x ≡ answers reply)
    unfolding map_repository_error
    refused x reply e = ground arith

    release-answers :
        (t : TaskRecord) (files : Files) (o : Result (List String) × Db) (reply : Progress)
        (after : AppState)
        → release sha256 resolve t files o ≡ (answers reply, after)
        → (paths : List String) × (db : Db) × (o ≡ (ok paths, db))
          × (after ≡ record { db = db; files = remove_all resolve paths files })
    release-answers t files (err x, db) reply after e =
        absurd (refused x reply (ap (λ (r : Reply Progress × AppState). r.0) e))
    release-answers t files (ok paths, db) reply after e =
        (paths, db, refl, sym (ap (λ (r : Reply Progress × AppState). r.1) e))

    published-answers :
        (o task_id : String) (files : Files) (r : Result TaskRecord × Db) (reply : Progress)
        (after : AppState)
        → published sha256 resolve o task_id files r ≡ (answers reply, after)
        → (t : TaskRecord) × (release sha256 resolve t files (remove_input_artifacts o task_id r.1)
            ≡ (answers reply, after))
    published-answers o task_id files (err x, db) reply after e =
        absurd (refused x reply (ap (λ (r : Reply Progress × AppState). r.0) e))
    published-answers o task_id files (ok t, db) reply after e = (t, e)

    released :
        (t : TaskRecord) (o task_id : String) (before : AppState) (db : Db) (reply : Progress)
        (after : AppState)
        → db.artifacts ≡ before.db.artifacts
        → release sha256 resolve t before.files (remove_input_artifacts o task_id db)
          ≡ (answers reply, after)
        → Released task_id before after
    released t o task_id before db reply after same e =
        let (paths, left, made, is_after) =
          release-answers t before.files (remove_input_artifacts o task_id db) reply after e in
        let (path_list, rest) = removed o task_id db left paths made in
        rw (is_after) (record {
          no_rows = rw rest (delete-All (is_input_of task_id) db.artifacts);
          no_files =
              rw (path_list, ← same)
                (remove_all-All (select (is_input_of task_id) db.artifacts) before.files);
        })

    accepted :
        (task_id : String) (result : ProviderResult) (request : LeaseRequest) (p : Principal)
        (now : ℕ) (before after : AppState) (reply : Progress)
        → publish_worker_result sha256 resolve task_id result request p now before
          ≡ (answers reply, after)
        → published sha256 resolve p.owner_id task_id before.files
            (publish_result sha256 (lease_from_request request p task_id) result now before.db)
          ≡ (answers reply, after)
    unfolding publish_worker_result
    accepted task_id result request p now before after reply e =
        elim (Bool-cases (is_lease_request request)) [
          | inl t ↦ rw (t, publish_worker_result) at e
          | inr t ↦ absurd (let h = rw (t, publish_worker_result) at e in ground arith)
        ]

    -- When the handler of a published result has answered, no input artifact of the task is left in
    -- the database, and the file of none of those that were there, as far as its path leads below
    -- the root.
    pub publish_worker_result-Released :
        (task_id : String) (result : ProviderResult) (request : LeaseRequest) (p : Principal)
        (now : ℕ) (before after : AppState) (reply : Progress)
        → publish_worker_result sha256 resolve task_id result request p now before
          ≡ (answers reply, after)
        → Released task_id before after
    publish_worker_result-Released task_id result request p now before after reply e =
        let answered = accepted task_id result request p now before after reply e in
        let lease = lease_from_request request p task_id in
        let done = publish_result sha256 lease result now before.db in
        let (t, made) =
          published-answers p.owner_id task_id before.files done reply after answered in
        released t p.owner_id task_id before done.1 reply after
          (artifacts-publish_result sha256 lease result now before.db) made
