-- ===== src/Agent/Store/Trust.antt =====
-- About the flag `verified` of agent/store.py and the digest beside it, along histories of calls.
use model_courier.Prelude.{
  ℕ, ◌≡◌, refl, sym, ap, inl, inr, String, Bool, Option, none, some, List, [], ◌∷◌, map, All,
  All-append, arith, eq_iff, ◌==◌, Bool-cases, Option-cases, if◌then◌else◌,
}
use model_courier.Prelude.Tables.{find}
use model_courier.Prelude.Tables.Laws.{
  IsKeyed, IsKeyed-Pointwise, IsKeyed-append, All-Pointwise, modify-Pointwise,
}
use model_courier.Agent.Models.{ModelBinding, dump}
use model_courier.Agent.Secrets.{reject_secrets}
use model_courier.Agent.Store.{
  BindingRow, AgentStore, OldRow, row_key, find_binding, modify_binding, unverify, set_accepting,
  upsert_binding, save_binding, migrated, migrate, mark_read, mark_written, mark_found, unexpected,
  mark_verified, mark_unverified,
}

-- The calls that write. `writes` is the last UPDATE of a `mark_verified` that has read its text at
-- any earlier time.
pub data StoreCall : Type 0 where
  saves : ModelBinding → StoreCall
  unmarks : (binding_id : String) → StoreCall
  marks : (binding_id : String) → (expected_digest : Option String) → StoreCall
  writes : (binding_id binding_json : String) → StoreCall
  accepts : Bool → StoreCall

module _ (encode : ModelBinding → String) (lower : String → String) (show : ℕ → String)
    (decode : String → ModelBinding) (digest : ModelBinding → String) where
  unfoldable pub step : StoreCall → AgentStore → AgentStore
  step (saves b) s = (save_binding encode lower show b s).1
  step (unmarks i) s = (mark_unverified i s).1
  step (marks i d) s = (mark_verified decode digest i d s).1
  step (writes i j) s = (mark_written decode digest i j s).1
  step (accepts a) s = set_accepting a s

  unfoldable pub run : List StoreCall → AgentStore → AgentStore
  run [] s = s
  run (c ∷ calls) s = run calls (step c s)

  -- The digest beside the flag is that of the very text in the row.
  abbrev pub IsTrustedRow : BindingRow → Type 0
  IsTrustedRow r =
      r.verified_digest ≡ (if r.verified then some (digest (decode r.binding_json)) else none)

  pub record IsTrusted (s : AgentStore) : Type 0 where
    pub keyed : IsKeyed row_key s.bindings
    pub sound : All IsTrustedRow s.bindings

  -- Rows that keep their key, and their trust.
  abbrev Keeps : BindingRow → BindingRow → Type 0
  Keeps x y = (y.binding_id ≡ x.binding_id) × (IsTrustedRow x → IsTrustedRow y)

  modify-IsTrusted :
      (i : String) (f : BindingRow → BindingRow) (s : AgentStore)
      → ((x : BindingRow) → Keeps x (f x))
      → IsTrusted s
      → IsTrusted (modify_binding i f s)
  modify-IsTrusted i f s k h =
      let m = modify-Pointwise row_key Keeps i f (λ x. (refl, λ t. t)) s.bindings (λ x e. k x) in
      record {
        keyed = IsKeyed-Pointwise row_key Keeps (λ x y r. r.0) s.bindings _ m h.keyed;
        sound = All-Pointwise Keeps IsTrustedRow (λ x y r. r.1) s.bindings _ m h.sound;
      }

  pub upsert-IsTrusted :
      (b : ModelBinding) (s : AgentStore)
      → IsTrusted s
      → IsTrusted (record s { bindings = upsert_binding encode lower show b s.bindings })
  unfolding upsert_binding
  upsert-IsTrusted b s h = elim (Option-cases (find row_key b.binding_id s.bindings)) [
    | inl n ↦
        rw (n, upsert_binding)
          (record {
            keyed = IsKeyed-append row_key s.bindings _ h.keyed n;
            sound = All-append IsTrustedRow s.bindings _ h.sound (refl, tt);
          })
    | inr (r, e) ↦
        rw (e, upsert_binding) (modify-IsTrusted b.binding_id _ s (λ x. (refl, λ t. refl)) h)
  ]

  save-IsTrusted :
      (b : ModelBinding) (s : AgentStore)
      → IsTrusted s
      → IsTrusted (save_binding encode lower show b s).1
  unfolding save_binding
  save-IsTrusted b s h = elim (Option-cases (reject_secrets lower show (dump b) "")) [
    | inl e ↦ rw (e, save_binding) (upsert-IsTrusted b s h)
    | inr (p, e) ↦ rw (e, save_binding) h
  ]

  mark_read-Keeps : (json : String) (x : BindingRow) → Keeps x (mark_read decode digest json x)
  mark_read-Keeps json x = elim (Bool-cases (x.binding_json == json)) [
    | inl e ↦
        rw e
          (refl, λ t. ap (λ j. some (digest (decode j))) (sym ((eq_iff x.binding_json json).0 e)))
    | inr e ↦ rw e (refl, λ t. t)
  ]

  mark_found-IsTrusted :
      (i : String) (d : Option String) (o : Option BindingRow) (s : AgentStore)
      → IsTrusted s
      → IsTrusted (mark_found decode digest i d o s).1
  unfolding mark_written
  mark_found-IsTrusted i d none s h = h
  mark_found-IsTrusted i d (some r) s h =
      elim (Bool-cases (unexpected d (digest (decode r.binding_json)))) [
        | inl e ↦ rw e h
        | inr e ↦ rw e (modify-IsTrusted i _ s (mark_read-Keeps r.binding_json) h)
      ]

  step-IsTrusted : (c : StoreCall) (s : AgentStore) → IsTrusted s → IsTrusted (step c s)
  unfolding step mark_unverified mark_verified mark_written
  step-IsTrusted (saves b) s h = save-IsTrusted b s h
  step-IsTrusted (unmarks i) s h = modify-IsTrusted i unverify s (λ x. (refl, λ t. refl)) h
  step-IsTrusted (marks i d) s h = mark_found-IsTrusted i d (find_binding i s) s h
  step-IsTrusted (writes i j) s h = modify-IsTrusted i _ s (mark_read-Keeps j) h
  step-IsTrusted (accepts a) s h = record { keyed = h.keyed; sound = h.sound }

  pub run-IsTrusted :
      (calls : List StoreCall) (s : AgentStore) → IsTrusted s → IsTrusted (run calls s)
  unfolding run
  run-IsTrusted [] s h = h
  run-IsTrusted (c ∷ calls) s h = run-IsTrusted calls (step c s) (step-IsTrusted c s h)

  abbrev pub old_key : OldRow → String
  old_key r = r.binding_id

  find-migrated :
      (k : String) (rows : List OldRow)
      → find old_key k rows ≡ none
      → find row_key k (map (migrated decode digest) rows) ≡ none
  unfolding find
  find-migrated k [] e = refl
  find-migrated k (r ∷ rows) e = ground (arith, find-migrated k rows)

  migrated-IsKeyed :
      (rows : List OldRow)
      → IsKeyed old_key rows
      → IsKeyed row_key (map (migrated decode digest) rows)
  migrated-IsKeyed [] h = tt
  migrated-IsKeyed (r ∷ rows) h = (find-migrated r.binding_id rows h.0, migrated-IsKeyed rows h.1)

  migrated-sound : (rows : List OldRow) → All IsTrustedRow (map (migrated decode digest) rows)
  migrated-sound [] = tt
  migrated-sound (r ∷ rows) = (refl, migrated-sound rows)

  -- From a migrated table with unique ids, and after any sequence of the store's writes, with late
  -- marks of a text that has changed since among them, the ids are unique and every row carries a
  -- digest exactly when it is verified, that of the binding its own text holds.
  pub run-migrate-IsTrusted :
      (rows : List OldRow) (a : Bool) (calls : List StoreCall)
      → IsKeyed old_key rows
      → IsTrusted (run calls (migrate decode digest rows a))
  unfolding migrate
  run-migrate-IsTrusted rows a calls k =
      run-IsTrusted calls _
        (record { keyed = migrated-IsKeyed rows k; sound = migrated-sound rows })
