-- ===== src/Server/Tokens/Laws.antt =====
-- About the tokens of auth.py between their issue and the revocation of their subject.
use model_courier.Prelude.{
  ℕ, ◌≡◌, refl, sym, ap, ◌∙◌, ◌⊎◌, inl, inr, ◌≢◌, String, Bool, true, false, none, some, List, [],
  ◌∷◌, ◌++◌, arith, eq_iff, eq_refl, ◌==◌, Bool-cases, Option-cases, if◌then◌else◌,
}
use model_courier.Prelude.Tables.{select_one, find, modify, update}
use model_courier.Server.Exec.{Result, ok, err, integrity, authentication}
use model_courier.Server.Db.{Db, DeviceRow, WorkerRow}
use model_courier.Server.Repository.Identities.{ensure_owner}
use model_courier.Server.Tokens.{
  PrincipalKind, device, worker, Principal, device_key, takes_device_hash, upsert_device,
  device_with, worker_with, admit_device, admit_worker, issue_device, authenticate, revoke,
  revoked_device, revoked_worker,
}

-- No other row takes the hash, so the upserted row is the one that the hash finds.
module _ (row : DeviceRow) where
  abbrev renewed : DeviceRow → DeviceRow
  renewed d = record d { owner_id = row.owner_id; token_hash = row.token_hash; revoked_at = none }

  upsert_device-none :
      (ds : List DeviceRow)
      → find device_key row.id ds ≡ none
      → select_one (takes_device_hash row.id row.token_hash) ds ≡ none
      → select_one (device_with row.token_hash) (ds ++ row ∷ []) ≡ some row
  unfolding find select_one
  upsert_device-none [] f s = rw (eq_refl row.token_hash) refl
  upsert_device-none (d ∷ ds) f s = ground (arith, upsert_device-none ds)

  upsert_device-some :
      (ds : List DeviceRow) (x : DeviceRow)
      → find device_key row.id ds ≡ some x
      → select_one (takes_device_hash row.id row.token_hash) ds ≡ none
      → (d : DeviceRow) × (select_one
            (device_with row.token_hash)
            (modify device_key row.id renewed ds)
          ≡ some d)
        × (d.id ≡ row.id)
        × (d.owner_id ≡ row.owner_id)
        × (d.revoked_at ≡ none)
  unfolding find select_one modify
  upsert_device-some [] x f s = absurd (ground arith)
  upsert_device-some (d ∷ ds) x f s = elim (Bool-cases (d.id == row.id)) [
    | inl e ↦ rw e (renewed d, rw (eq_refl row.token_hash) refl, (eq_iff _ _).0 e, refl, refl)
    | inr n ↦
        let free : (d.token_hash == row.token_hash) ≡ false = ground arith in
        rw (n, free) (upsert_device-some ds x (rw n at f) (ground arith))
  ]

select_one-update {ℓ} :
    {A : Type ℓ} (p q : A → Bool) (f : A → A)
    → ((x : A) → p (f x) ≡ p x)
    → (xs : List A) (x : A) → select_one p xs ≡ some x
    → select_one p (update q f xs) ≡ some (if q x then f x else x)
unfolding select_one update
select_one-update p q f same [] x e = absurd (ground arith)
select_one-update p q f same (y ∷ ys) x e = elim (Bool-cases (p y)) [
  | inl t ↦ let here : y ≡ x = ground arith in rw here (if_kept (rw here at t))
  | inr t ↦ rw (if_passed t) (select_one-update p q f same ys x (rw t at e))
]
  where
    if_passed : p y ≡ false → p (if q y then f y else y) ≡ false
    if_passed t = elim (Bool-cases (q y)) [ inl u ↦ rw u (same y ∙ t) | inr u ↦ rw u t ]

    if_kept :
        p x ≡ true
        → (if p (if q x then f x else x)
            then some (if q x then f x else x)
            else select_one p (update q f ys))
          ≡ some (if q x then f x else x)
    if_kept t = elim (Bool-cases (q x)) [ inl u ↦ rw (u, same x, t) refl | inr u ↦ rw (u, t) refl ]

admitted_device :
    (d : DeviceRow) (p : Principal)
    → admit_device (some d) ≡ ok p
    → ◌≡◌ {A = Principal} (record { kind = device; subject_id = d.id; owner_id = d.owner_id }) p
admitted_device d p e = ground arith

admitted_worker :
    (d : WorkerRow) (p : Principal)
    → admit_worker (some d) ≡ ok p
    → ◌≡◌ {A = Principal} (record { kind = worker; subject_id = d.id; owner_id = d.owner_id }) p
admitted_worker d p e = ground arith

test_false : (s t : String) → s ≢ t → (s == t) ≡ false
test_false s t h = ground (arith, eq_iff s t)

module _ (sha256 : String → String) where
  issued :
      (token o d : String) (now : ℕ) (db : Db) (row : DeviceRow)
      → row.id ≡ d
      → row.owner_id ≡ o
      → row.revoked_at ≡ none
      → (ds : List DeviceRow) → select_one (takes_device_hash row.id row.token_hash) ds ≡ none
      → admit_device (select_one (device_with row.token_hash) (upsert_device row ds))
        ≡ ok (record { kind = device; subject_id = d; owner_id = o })
  unfolding upsert_device
  issued token o d now db row i w v ds free = elim (Option-cases (find device_key row.id ds)) [
    | inl n ↦ rw (n, upsert_device) (rw (upsert_device-none row ds n free) (ground arith))
    | inr (x, n) ↦
        let (y, found, yi, yw, yv) = upsert_device-some row ds x n free in
        rw (n, upsert_device) (rw found (ground arith))
  ]

  abbrev device_row : String → String → String → ℕ → DeviceRow
  device_row token o d now = record {
    id = d;
    owner_id = o;
    token_hash = sha256 token;
    revoked_at = none;
    created_at = now;
  }

  issue_device_cases :
      (token o d : String) (now : ℕ) (db : Db)
      → let owned = ensure_owner o now db in
        (issue_device sha256 token o d now db ≡ (err integrity, owned))
        ⊎ ((issue_device sha256 token o d now db ≡ (
          ok token,
          record owned { devices = upsert_device (device_row token o d now) owned.devices },
        ))
            × (select_one (takes_device_hash d (sha256 token)) owned.devices ≡ none))
  unfolding issue_device
  issue_device_cases token o d now db = ground arith

  -- A token that is issued to a device authenticates that device for its owner, also when the
  -- device had been revoked.
  pub authenticate-issue_device :
      (token o d t : String) (now : ℕ) (db after : Db)
      → issue_device sha256 token o d now db ≡ (ok t, after)
      → authenticate sha256 device t after
        ≡ ok (record { kind = device; subject_id = d; owner_id = o })
  unfolding authenticate
  authenticate-issue_device token o d t now db after e =
      elim (issue_device_cases token o d now db) [
        | inl q ↦ absurd (ground (arith, ap (λ (r : Result String × Db). r.0) (sym q ∙ e)))
        | inr (q, free) ↦
            let both = sym e ∙ q in
            let same : t ≡ token = ground (arith, ap (λ (r : Result String × Db). r.0) both) in
            rw (same, ap (λ (r : Result String × Db). r.1) both)
              (issued token o d now db (device_row token o d now) refl refl refl _ free)
      ]

  -- Once the subject that a token authenticates is revoked, the token is refused.
  pub authenticate-revoke :
      (k : PrincipalKind) (token : String) (now : ℕ) (db : Db) (p : Principal)
      → authenticate sha256 k token db ≡ ok p
      → authenticate sha256 k token (revoke k p.subject_id now db)
        ≡ err (authentication "invalid or revoked token")
  unfolding authenticate revoke
  authenticate-revoke device token now db p e =
      elim (Option-cases (select_one (device_with (sha256 token)) db.devices)) [
        | inl n ↦ absurd (let h = rw n at e in cc)
        | inr (d, n) ↦
            let s = ap (λ (q : Principal). q.subject_id) (admitted_device d p (rw n at e)) in
            rw
              (select_one-update (device_with (sha256 token)) (λ x. x.id == p.subject_id)
                (revoked_device now) (λ x. refl) db.devices d n)
              (rw (← s) (rw (eq_refl d.id) refl))
      ]
  authenticate-revoke worker token now db p e =
      elim (Option-cases (select_one (worker_with (sha256 token)) db.workers)) [
        | inl n ↦ absurd (let h = rw n at e in cc)
        | inr (d, n) ↦
            let s = ap (λ (q : Principal). q.subject_id) (admitted_worker d p (rw n at e)) in
            rw
              (select_one-update (worker_with (sha256 token)) (λ x. x.id == p.subject_id)
                (revoked_worker now) (λ x. refl) db.workers d n)
              (rw (← s) (rw (eq_refl d.id) refl))
      ]

  -- Revoking another subject of the same kind changes nothing for the holder of a token.
  pub authenticate-revoke_ne :
      (k : PrincipalKind) (token other : String) (now : ℕ) (db : Db) (p : Principal)
      → authenticate sha256 k token db ≡ ok p
      → p.subject_id ≢ other
      → authenticate sha256 k token (revoke k other now db) ≡ ok p
  unfolding authenticate revoke
  authenticate-revoke_ne device token other now db p e ne =
      elim (Option-cases (select_one (device_with (sha256 token)) db.devices)) [
        | inl n ↦ absurd (let h = rw n at e in cc)
        | inr (d, n) ↦
            let h = rw n at e in
            let s = ap (λ (q : Principal). q.subject_id) (admitted_device d p h) in
            rw
              (select_one-update (device_with (sha256 token)) (λ x. x.id == other)
                (revoked_device now) (λ x. refl) db.devices d n)
              (rw (test_false d.id other (λ x. ne (sym s ∙ x))) h)
      ]
  authenticate-revoke_ne worker token other now db p e ne =
      elim (Option-cases (select_one (worker_with (sha256 token)) db.workers)) [
        | inl n ↦ absurd (let h = rw n at e in cc)
        | inr (d, n) ↦
            let h = rw n at e in
            let s = ap (λ (q : Principal). q.subject_id) (admitted_worker d p h) in
            rw
              (select_one-update (worker_with (sha256 token)) (λ x. x.id == other)
                (revoked_worker now) (λ x. refl) db.workers d n)
              (rw (test_false d.id other (λ x. ne (sym s ∙ x))) h)
      ]
