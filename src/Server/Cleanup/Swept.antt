-- ===== src/Server/Cleanup/Swept.antt =====
-- About `cleanup_expired` of server/cleanup.py: which rows and files it leaves, and its second run.
use model_courier.Prelude.{
  ℕ, ◌≡◌, refl, ap, sym, subst, ◌∙◌, inl, inr, String, Bool, true, false, Option, none, some, List,
  [], ◌∷◌, map, contains, All, arith, eq_iff, eq_refl, ◌==◌, ◌&&◌, Bool-cases, if◌then◌else◌,
}
use model_courier.Prelude.Tables.{select, delete}
use model_courier.Server.Db.{Db}
use model_courier.Server.Storage.{Bytes, Files}
use model_courier.Server.Cleanup.{
  CleanupReport, no_report, is_expired, located, is_inside, delete_found, delete_from,
  delete_expired, cleanup_expired,
}

either_way : {A : Type 0} (t : Bool) (x : A) → (if t then x else x) ≡ x
either_way true x = refl
either_way false x = refl

absorbed :
    {A : Type 0} (c i : Bool) (x : Option A)
    → (if c && i then none else if i then none else x) ≡ (if i then none else x)
absorbed true true x = refl
absorbed true false x = refl
absorbed false true x = refl
absorbed false false x = refl

module _ {A : Type 0} (p : A → Bool) where
  delete-All : (xs : List A) → All (λ x. p x ≡ false) (delete p xs)
  unfolding delete
  delete-All [] = tt
  delete-All (x ∷ xs) = elim (Bool-cases (p x)) [
    | inl t ↦ rw t (delete-All xs)
    | inr t ↦ rw t (t, delete-All xs)
  ]

  select_none : (xs : List A) → All (λ x. p x ≡ false) xs → select p xs ≡ []
  unfolding select
  select_none [] h = refl
  select_none (x ∷ xs) h = rw h.0 (select_none xs h.1)

  delete_none : (xs : List A) → All (λ x. p x ≡ false) xs → delete p xs ≡ xs
  unfolding delete
  delete_none [] h = refl
  delete_none (x ∷ xs) h = rw h.0 (ap (λ l. x ∷ l) (delete_none xs h.1))

module _ (root : String) (is_directory : String → Bool) (parents : String → List String) where
  abbrev Done : Type 0
  Done = CleanupReport × Files

  -- What one round leaves at its own path, and at another.
  delete_found-same :
      (q : String) (o : Option Bytes) (done : Done)
      → done.1 q ≡ o
      → (delete_found root is_directory parents q o done).1 q
        ≡ (if is_inside root is_directory parents q then none else done.1 q)
  delete_found-same q none (report, files) e = elim (Bool-cases (is_directory q)) [
    | inl d ↦ rw (d, e) (sym (either_way (is_inside root is_directory parents q) none))
    | inr d ↦ rw (d, e) (sym (either_way (is_inside root is_directory parents q) none))
  ]
  delete_found-same q (some content) (report, files) e =
      elim (Bool-cases (is_inside root is_directory parents q)) [
        | inl t ↦ rw (t, eq_refl) refl
        | inr t ↦ rw t refl
      ]

  delete_found-other :
      (path q : String) (o : Option Bytes) (done : Done)
      → (path == q) ≡ false
      → (delete_found root is_directory parents path o done).1 q ≡ done.1 q
  delete_found-other path q none (report, files) n = elim (Bool-cases (is_directory path)) [
    | inl d ↦ rw d refl
    | inr d ↦ rw d refl
  ]
  delete_found-other path q (some content) (report, files) n =
      elim (Bool-cases (is_inside root is_directory parents path)) [
        | inl t ↦
            let other : (q == path) ≡ false = ground (arith, n, eq_iff q path, eq_iff path q) in
            rw (t, other) refl
        | inr t ↦ rw t refl
      ]

  delete_from-files :
      (paths : List String) (done : Done) (q : String)
      → (delete_from root is_directory parents paths done).1 q
        ≡ (if contains paths q && is_inside root is_directory parents q then none else done.1 q)
  unfolding delete_from contains
  delete_from-files [] done q = refl
  delete_from-files (path ∷ paths) done q = elim (Bool-cases (path == q)) [
    | inl t ↦
        let same : path ≡ q = (eq_iff path q).0 t in
        rw t (
          subst
            (λ k.
              (delete_from root is_directory parents paths
                  (delete_found root is_directory parents k (done.1 k) done)).1
                q
              ≡ (if is_inside root is_directory parents q then none else done.1 q))
            (sym same)
            (delete_from-files paths (delete_found root is_directory parents q (done.1 q) done) q
              ∙ ap
                  (λ o.
                    if contains paths q && is_inside root is_directory parents q then none else o)
                  (delete_found-same q (done.1 q) done refl)
              ∙ absorbed (contains paths q) (is_inside root is_directory parents q) (done.1 q)))
    | inr t ↦ rw t (
        delete_from-files paths (delete_found root is_directory parents path (done.1 path) done) q
        ∙ ap (λ o. if contains paths q && is_inside root is_directory parents q then none else o)
            (delete_found-other path q (done.1 path) done t))
  ]

  -- After a cleanup with no other call between its two transactions, every artifact row that is
  -- left is published and not expired, the files that are gone are those which a removed row
  -- locates and whose resolved path lies below the root, and a second cleanup at the same time
  -- reports nothing and changes nothing.
  pub cleanup_expired-cleanup_expired :
      (now : ℕ) (db : Db) (files : Files) (q : String)
      → All
          (λ a. is_expired now a ≡ false)
          (cleanup_expired root is_directory parents now db files).1.artifacts
        × ((cleanup_expired root is_directory parents now db files).2 q ≡ (
            if contains
                (map (located root is_directory parents) (select (is_expired now) db.artifacts))
                q
              && is_inside root is_directory parents q
            then none
            else files q))
        × (cleanup_expired root is_directory parents now
              (cleanup_expired root is_directory parents now db files).1
              (cleanup_expired root is_directory parents now db files).2
            ≡ (
              no_report,
              (cleanup_expired root is_directory parents now db files).1,
              (cleanup_expired root is_directory parents now db files).2,
            ))
  unfolding cleanup_expired delete_expired delete_from
  cleanup_expired-cleanup_expired now db files q =
      let clean = delete-All (is_expired now) db.artifacts in
      (
        clean,
        delete_from-files
            (map (located root is_directory parents) (select (is_expired now) db.artifacts))
            (no_report, files) q,
        rw (select_none (is_expired now) _ clean, delete_none (is_expired now) _ clean) refl,
      )
