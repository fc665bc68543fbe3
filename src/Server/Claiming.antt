-- ===== src/Server/Claiming.antt =====
-- About `claim_next` of repository.py: the task that a claim picks, and the lease that it returns.
pub mod Exclusive
pub mod Routing
pub mod Complete
pub mod Granting
use model_courier.Prelude.{
  ℕ, ◌+◌, ◌≤◌, ◌<◌, min, ◌≡◌, refl, sym, ap, subst, ◌∙◌, ◌⊎◌, inl, inr, ◌≢◌, String, Bool, true,
  false, not, List, [], ◌∷◌, ◌++◌, Option, none, some, All, All-take, All-mono, take, length, arith,
  contains, eq_iff, eq_refl, eq_of_test, Bool-cases, Option-cases, if◌then◌else◌, leb, ltb, ◌&&◌,
  ◌==◌,
}
use model_courier.Prelude.Tables.{find, modify, select, order_by, insert_by}
use model_courier.Prelude.Tables.Laws.{
  IsKeyed, found-All, find-modify, find-All, order_by-All, select-All_test,
}
use model_courier.Contracts.{CapabilityManifest}
use model_courier.Server.Exec.{Result, Error, ok, err}
use model_courier.Server.Db.{Db, TaskRow, queued}
use model_courier.Server.Repository.{
  Lease, task_key, find_task, modify_task, is_queued, lease_seconds,
}
use model_courier.Server.Repository.Matching.{matches, accepts}
use model_courier.Server.Repository.Claim.{
  claim_next, claim_first, candidates, is_ready, grant, granted, lease_of, touches,
}
use model_courier.Server.Repository.Leases.{is_current, check_row, check_lease}
use model_courier.Server.Lifecycle.{IsSound}
use model_courier.Server.Lifecycle.Effects.{candidates-All}
use model_courier.Server.Lifecycle.History.{IsWellFormed}

module _ (sha256 : String → String) (w : String) (cs : List CapabilityManifest) (token : String)
    (now : ℕ) (db : Db) where
  -- The claim takes `row` for the capability `c`: the rows before it match nothing.
  pub record Picks (rows : List TaskRow) (lease : Lease) (after : Db) : Type 0 where
    pub before : List TaskRow
    pub row : TaskRow
    pub rest : List TaskRow
    pub capability : CapabilityManifest
    pub split : rows ≡ before ++ row ∷ rest
    pub passed : All (λ r. matches r cs ≡ none) before
    pub matched : matches row cs ≡ some capability
    pub found : find_task row.id db ≡ some row
    pub ready : is_ready now row ≡ true
    pub unexpired : now < row.expires_at
    pub lease_is : lease ≡ lease_of w capability token now row
    pub after_is : after ≡ grant sha256 w capability token now row db

  -- Either nothing matches and nothing changes, or the first row that matches is granted.
  abbrev pub Claims : List TaskRow → Result (Option Lease) × Db → Type 0
  Claims rows o =
      (All (λ r. matches r cs ≡ none) rows × (o ≡ (ok none, db)))
      ⊎ ((lease : Lease) × (after : Db) × (o ≡ (ok (some lease), after)) × Picks rows lease after)

  Claims-cons :
      (r : TaskRow) (rows : List TaskRow) (o : Result (Option Lease) × Db)
      → matches r cs ≡ none
      → Claims rows o
      → Claims (r ∷ rows) o
  Claims-cons r rows o m (inl (none_match, e)) = inl ((m, none_match), e)
  Claims-cons r rows o m (inr (lease, after, e, p)) = inr (
    lease,
    after,
    e,
    record {
      before = r ∷ p.before;
      row = p.row;
      rest = p.rest;
      capability = p.capability;
      split = ap (λ l. r ∷ l) p.split;
      passed = (m, p.passed);
      matched = p.matched;
      found = p.found;
      ready = p.ready;
      unexpired = p.unexpired;
      lease_is = p.lease_is;
      after_is = p.after_is;
    },
  )

  claim_first-pass :
      (row : TaskRow) (rows : List TaskRow)
      → matches row cs ≡ none
      → claim_first sha256 w cs token now (row ∷ rows) db
        ≡ claim_first sha256 w cs token now rows db
  unfolding claim_first
  claim_first-pass row rows m = rw (m, claim_first) refl

  claim_first-pick :
      (row : TaskRow) (rows : List TaskRow) (c : CapabilityManifest)
      → matches row cs ≡ some c
      → find_task row.id db ≡ some row
      → is_ready now row ≡ true
      → claim_first sha256 w cs token now (row ∷ rows) db
        ≡ (ok (some (lease_of w c token now row)), grant sha256 w c token now row db)
  unfolding claim_first
  claim_first-pick row rows c m f r = rw (m, claim_first) (rw f (rw r refl))

  claim_first-Claims :
      (rows : List TaskRow)
      → All (λ r. (find_task r.id db ≡ some r) × (now < r.expires_at)) rows
      → All (λ r. is_ready now r ≡ true) rows
      → Claims rows (claim_first sha256 w cs token now rows db)
  unfolding claim_first
  claim_first-Claims [] h t = inl (tt, refl)
  claim_first-Claims (row ∷ rows) h t = elim (Option-cases (matches row cs)) [
    | inl m ↦
        subst (Claims (row ∷ rows)) (sym (claim_first-pass row rows m))
          (Claims-cons row rows _ m (claim_first-Claims rows h.1 t.1))
    | inr (c, m) ↦ inr (
      lease_of w c token now row,
      grant sha256 w c token now row db,
      claim_first-pick row rows c m h.0.0 t.0,
      record {
        before = [];
        row = row;
        rest = rows;
        capability = c;
        split = refl;
        passed = tt;
        matched = m;
        found = h.0.0;
        ready = t.0;
        unexpired = h.0.1;
        lease_is = refl;
        after_is = refl;
      },
    )
  ]

  candidates-ready : All (λ r. is_ready now r ≡ true) (candidates now db)
  unfolding candidates
  candidates-ready =
      All-take _ 32 _
        (order_by-All _ _ _ (All-mono _ _ _ (λ r t. ground arith) (select-All_test _ db.tasks)))

  -- On a table with unique ids, a claim grants the first candidate that the capabilities match, under the lease and with the row, event and worker columns that the code
  -- writes; if there is none, it returns nothing and changes nothing. It never raises.
  pub claim_next-Claims :
      IsKeyed task_key db.tasks → Claims (candidates now db) (claim_next sha256 w cs token now db)
  unfolding claim_next
  claim_next-Claims keyed =
      claim_first-Claims (candidates now db) (candidates-All now db keyed) candidates-ready

  -- The row after the claim.
  abbrev pub granted_row : CapabilityManifest → TaskRow → TaskRow
  granted_row c row =
      granted w (sha256 token) c.capability_id (row.lease_generation + 1)
        (min (now + lease_seconds) row.execution_deadline) now row

  grant-found :
      (c : CapabilityManifest) (row : TaskRow)
      → find_task row.id db ≡ some row
      → is_ready now row ≡ true
      → find_task row.id (grant sha256 w c token now row db) ≡ some (granted_row c row)
  grant-found c row f r =
      find-modify task_key row.id _ (λ x. id-if (is_ready now x) x) db.tasks row f
      ∙ ap some (rw r refl)
    where
      id-if :
          (b : Bool) (x : TaskRow)
          → (if b
              then granted w
                  (sha256 token)
                  c.capability_id
                  (row.lease_generation + 1)
                  (min (now + lease_seconds) row.execution_deadline)
                  now
                  x
              else x).id
            ≡ x.id
      id-if true x = refl
      id-if false x = refl

  -- A lease that a claim returns passes the check at the time of the claim.
  granted-current :
      (c : CapabilityManifest) (row : TaskRow)
      → IsSound row
      → is_ready now row ≡ true
      → now < row.expires_at
      → check_row sha256 (lease_of w c token now row) now (granted_row c row)
        ≡ ok (granted_row c row)
  unfolding check_row is_current
  granted-current c row s r u =
      ground (arith, eq_refl row.owner_id, eq_refl w, eq_refl (sha256 token), s.deadline)

  pub Picks-current :
      (rows : List TaskRow) (lease : Lease) (after : Db)
      → All IsSound db.tasks
      → (p : Picks rows lease after)
      → check_lease sha256 lease now after ≡ ok (granted_row p.capability p.row)
  unfolding check_lease
  Picks-current rows lease after s p =
      let found = grant-found p.capability p.row p.found p.ready in
      rw (p.lease_is, p.after_is)
        (rw (found, check_lease)
          (granted-current p.capability p.row
            (find-All task_key IsSound p.row.id db.tasks p.row p.found s) p.ready p.unexpired))

  pub Picks-found :
      (rows : List TaskRow) (lease : Lease) (after : Db) (p : Picks rows lease after)
      → find_task lease.task_id after ≡ some (granted_row p.capability p.row)
  Picks-found rows lease after p =
      rw (p.lease_is, p.after_is) (grant-found p.capability p.row p.found p.ready)

  -- A claim that returns a lease has picked.
  pub claim_next-Picks :
      (lease : Lease) (after : Db)
      → IsKeyed task_key db.tasks
      → claim_next sha256 w cs token now db ≡ (ok (some lease), after)
      → Picks (candidates now db) lease after
  claim_next-Picks lease after keyed e = elim (claim_next-Claims keyed) [
    | inl (m, n) ↦ absurd (ground (arith, ap (λ (o : Result (Option Lease) × Db). o.0) (sym n ∙ e)))
    | inr (l, a, n, p) ↦
        let q = sym n ∙ e in
        let same_lease : l ≡ lease =
          ground (arith, ap (λ (o : Result (Option Lease) × Db). o.0) q) in
        let same_after : a ≡ after = ap (λ (o : Result (Option Lease) × Db). o.1) q in
        subst (λ x. Picks (candidates now db) x after) same_lease
          (subst (λ x. Picks (candidates now db) l x) same_after p)
  ]

  -- On a well-formed database, a lease that a claim returns is current at once: it passes the check
  -- at that time, for the row that it was granted on.
  pub claim_next-current :
      (lease : Lease) (after : Db)
      → IsWellFormed db
      → claim_next sha256 w cs token now db ≡ (ok (some lease), after)
      → (row : TaskRow) × (find_task lease.task_id after ≡ some row)
        × (check_lease sha256 lease now after ≡ ok row)
  claim_next-current lease after v e =
      let p = claim_next-Picks lease after v.keyed e in
      (
        granted_row p.capability p.row,
        Picks-found (candidates now db) lease after p,
        Picks-current (candidates now db) lease after v.sound p,
      )
