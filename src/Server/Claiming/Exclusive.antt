-- ===== src/Server/Claiming/Exclusive.antt =====
-- About `claim_next` of repository.py on a task that was claimed before.
use model_courier.Prelude.{ℕ, ◌<◌, ◌≤◌, ◌≡◌, sym, ap, subst, ◌∙◌, String, List, Option, some, arith}
use model_courier.Contracts.{CapabilityManifest}
use model_courier.Server.Exec.{Result, ok}
use model_courier.Server.Db.{Db, TaskRow}
use model_courier.Server.Repository.{Lease, find_task}
use model_courier.Server.Repository.Claim.{claim_next, candidates}
use model_courier.Server.Lifecycle.Calls.{Call, step, run, claims}
use model_courier.Server.Lifecycle.History.{
  IsWellFormed, step-IsWellFormed, run-IsWellFormed, run-Later,
}
use model_courier.Server.Fencing.{Refuses, superseded-Refuses}
use model_courier.Server.Claiming.{claim_next-Picks, Picks-found, granted_row}

module _ (sha256 : String → String) where
  claim_next-IsWellFormed :
      (w : String) (cs : List CapabilityManifest) (token : String) (now : ℕ) (db : Db)
      (o : Result (Option Lease)) (after : Db)
      → IsWellFormed db
      → claim_next sha256 w cs token now db ≡ (o, after)
      → IsWellFormed after
  unfolding step
  claim_next-IsWellFormed w cs token now db o after v e =
      subst IsWellFormed (ap (λ (r : Result (Option Lease) × Db). r.1) e)
        (step-IsWellFormed sha256 now (claims w cs token) db v)

  -- A second claim of the same task, at any later point, has a higher generation.
  again-generation :
      (w : String) (cs : List CapabilityManifest) (token : String) (now : ℕ) (db after : Db)
      (first second : Lease) (x : TaskRow)
      → IsWellFormed db
      → find_task first.task_id db ≡ some x
      → first.lease_generation ≤ x.lease_generation
      → claim_next sha256 w cs token now db ≡ (ok (some second), after)
      → second.task_id ≡ first.task_id
      → (y : TaskRow) × (find_task first.task_id after ≡ some y)
        × (first.lease_generation < y.lease_generation)
  again-generation w cs token now db after first second x v f g e same =
      let p = claim_next-Picks sha256 w cs token now db second after v.keyed e in
      let task : p.row.id ≡ first.task_id = sym (ap (λ (l : Lease). l.task_id) p.lease_is) ∙ same in
      let found : find_task first.task_id db ≡ some p.row =
        subst (λ k. find_task k db ≡ some p.row) task p.found in
      let row : p.row ≡ x = ground arith in
      (
        granted_row sha256 w cs token now db p.capability p.row,
        subst
            (λ k.
              find_task k after ≡ some (granted_row sha256 w cs token now db p.capability p.row))
            same (Picks-found sha256 w cs token now db (candidates now db) second after p),
        omega (arith, ap (λ (r : TaskRow). r.lease_generation) row, g),
      )

  -- On a well-formed database, once a later claim has granted the same task, the earlier lease is
  -- refused by every call, whatever history lies between the claims and after them.
  pub claim_next-Refuses :
      (w v : String) (cs ds : List CapabilityManifest) (s t : String) (now then_ : ℕ)
      (db one two three : Db) (first second : Lease) (between after : List (ℕ × Call)) (at : ℕ)
      → IsWellFormed db
      → claim_next sha256 w cs s now db ≡ (ok (some first), one)
      → two ≡ run sha256 between one
      → claim_next sha256 v ds t then_ two ≡ (ok (some second), three)
      → second.task_id ≡ first.task_id
      → Refuses sha256 first at (run sha256 after three)
  claim_next-Refuses w v cs ds s t now then_ db one two three first second between after at wf e₁ r
        e₂ same =
      let wf₁ = claim_next-IsWellFormed w cs s now db (ok (some first)) one wf e₁ in
      let wf₂ : IsWellFormed two = rw r (run-IsWellFormed sha256 between one wf₁) in
      let wf₃ = claim_next-IsWellFormed v ds t then_ two (ok (some second)) three wf₂ e₂ in
      let p = claim_next-Picks sha256 w cs s now db first one wf.keyed e₁ in
      let found₁ = Picks-found sha256 w cs s now db (candidates now db) first one p in
      let (x, found₂, later) = run-Later sha256 between one first.task_id _ wf₁.keyed found₁ in
      let generation = ap (λ (l : Lease). l.lease_generation) p.lease_is in
      let (y, found₃, above) =
        again-generation v ds t then_ two three first second x wf₂
          (subst (λ d. find_task first.task_id d ≡ some x) (sym r) found₂)
          (omega (arith, generation, later.generation)) e₂ same in
      superseded-Refuses sha256 first at after three y wf₃.keyed found₃ above
