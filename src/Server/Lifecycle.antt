-- ===== src/Server/Lifecycle.antt =====
-- The life of a task row, as repository.py promises it: which moves there are, when each is allowed,
-- and what holds of every row on the way. The children prove that the calls keep to it.
pub mod Rows
pub mod Moves
pub mod Effects
pub mod Calls
pub mod History
use model_courier.Prelude.{
  ℕ, ◌+◌, ◌≤◌, ◌<◌, min, String, ◌≡◌, ◌⊎◌, Bool, true, false, not, Option, none, some, is_none, due,
  ◌||◌,
}
use model_courier.Contracts.{ErrorEnvelope, ProviderResult, TaskEnvelope}
use model_courier.Server.Db.{TaskRow, Status, uploading, queued, running, failed}
use model_courier.Server.Repository.{
  lease_seconds, max_attempts, backoff, is_uploading, is_queued, is_held, is_succeeded, is_terminal,
}
use model_courier.Server.Repository.Submit.{uploading_row, expire, enqueue}
use model_courier.Server.Repository.Claim.{granted}
use model_courier.Server.Repository.Leases.{prolong, give_back, publish}
use model_courier.Server.Repository.Sweep.{is_waiting, requeue, exhaust, cancel_row}

-- The lease of the row has not run out, nor has the task.
pub record IsLive (now : ℕ) (x : TaskRow) : Type 0 where
  pub held : is_held x.status ≡ true
  pub leased : is_none x.lease_until ≡ false
  pub unexpired : due x.lease_until now ≡ false
  pub in_time : now < x.execution_deadline

pub record IsLapsed (now : ℕ) (x : TaskRow) : Type 0 where
  pub held : is_held x.status ≡ true
  pub over : due x.lease_until now ≡ true

-- A row moves at a time `now` in one of these ways, or stays.
pub data Move (now : ℕ) (x y : TaskRow) : Type 0 where
  stays : y ≡ x → Move now x y
  expires : is_waiting x.status ≡ true → x.expires_at ≤ now → y ≡ expire now x → Move now x y
  enqueues : x.status ≡ uploading → now < x.expires_at → y ≡ enqueue now x → Move now x y
  grants :
      (worker_id token_hash capability_id : String)
      → x.status ≡ queued
      → x.next_attempt_at ≤ now
      → now < x.expires_at
      → y
        ≡ granted worker_id token_hash capability_id
            (x.lease_generation + 1)
            (min (now + lease_seconds) x.execution_deadline)
            now
            x
      → Move now x y
  prolongs :
      (s : Status)
      → IsLive now x
      → is_held s ≡ true
      → y ≡ prolong s (min (now + lease_seconds) x.execution_deadline) now x
      → Move now x y
  retries :
      (e : ErrorEnvelope)
      → IsLive now x
      → x.attempt < max_attempts
      → now < x.expires_at
      → y ≡ give_back queued (now + backoff x.attempt) e now x
      → Move now x y
  fails : (e : ErrorEnvelope) → IsLive now x → y ≡ give_back failed now e now x → Move now x y
  publishes : (r : ProviderResult) → IsLive now x → y ≡ publish r now x → Move now x y
  requeues :
      IsLapsed now x
      → now < x.expires_at
      → x.attempt < max_attempts
      → y ≡ requeue now x
      → Move now x y
  exhausts : IsLapsed now x → y ≡ exhaust now x → Move now x y
  cancels : is_terminal x.status ≡ false → y ≡ cancel_row now x → Move now x y

-- A row as a device's request makes it.
pub record IsNew (now : ℕ) (x : TaskRow) : Type 0 where
  pub owner_id : String
  pub device_id : String
  pub envelope : TaskEnvelope
  pub digest : String
  pub made : x ≡ uploading_row x.id owner_id device_id envelope digest now

abbrev pub UntilWithin : Option ℕ → ℕ → Type 0
UntilWithin none deadline = Unit
UntilWithin (some until) deadline = until ≤ deadline

-- A task that waits for a claim has an attempt left.
abbrev pub Spares : Status → ℕ → Type 0
Spares uploading attempt = attempt < max_attempts
Spares queued attempt = attempt < max_attempts
Spares _ attempt = Unit

-- What holds of a row at any time: the lease columns are set exactly while the task is held, the
-- result columns exactly when it has succeeded, each lease is one attempt, and the attempts that
-- are left suffice for a task that waits.
pub record IsSound (x : TaskRow) : Type 0 where
  pub lease_owner : is_none x.lease_owner ≡ not (is_held x.status)
  pub lease_token_hash : is_none x.lease_token_hash ≡ not (is_held x.status)
  pub lease_until : is_none x.lease_until ≡ not (is_held x.status)
  pub until_in_time : UntilWithin x.lease_until x.execution_deadline
  pub result_available : x.result_available ≡ is_succeeded x.status
  pub result_json : is_none x.result_json ≡ not (is_succeeded x.status)
  pub result_expires_at : is_none x.result_expires_at ≡ not (is_succeeded x.status)
  pub attempts : x.attempt ≤ max_attempts
  pub attempts_left : Spares x.status x.attempt
  pub generation : x.lease_generation ≡ x.attempt
  pub deadline : x.execution_deadline ≡ x.expires_at
