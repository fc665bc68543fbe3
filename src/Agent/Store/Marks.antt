-- ===== src/Agent/Store/Marks.antt =====
-- About `save_binding`, `mark_verified` and `is_verified` of agent/store.py on one binding.
use model_courier.Prelude.{
  ℕ, ◌≡◌, ◌≢◌, refl, sym, ap, ◌∙◌, subst, inl, inr, String, Bool, true, false, some, List, arith,
  eq_iff, eq_refl, ◌==◌, Bool-cases, Option-cases, if◌then◌else◌,
}
use model_courier.Prelude.Tables.{find, modify}
use model_courier.Prelude.Tables.Keys.{find-modify_ne, find-append}
use model_courier.Prelude.Tables.Laws.{find-modify, find-id}
use model_courier.Agent.Models.{ModelBinding, dump}
use model_courier.Agent.Secrets.{reject_secrets}
use model_courier.Agent.Store.{
  BindingRow, AgentStore, Saved, saved, row_key, find_binding, unverify, row_of, upsert_binding,
  save_binding, mark, mark_read, mark_written, mark_found, mark_verified, is_trusted, is_verified,
  get_binding, binding_digest,
}

module _ (encode : ModelBinding → String) (lower : String → String) (show : ℕ → String) where
  pub find-upsert :
      (b : ModelBinding) (j : String) (rows : List BindingRow)
      → find row_key j (upsert_binding encode lower show b rows)
        ≡ (if b.binding_id == j then some (row_of encode lower show b) else find row_key j rows)
  unfolding upsert_binding
  find-upsert b j rows = elim (Option-cases (find row_key b.binding_id rows)) [
    | inl n ↦ rw (n, upsert_binding) (find-append row_key j rows (row_of encode lower show b) n)
    | inr (r, e) ↦
        rw (e, upsert_binding)
          (elim (Bool-cases (b.binding_id == j)) [
            | inl t ↦ rw t (
                subst
                  (λ k.
                    find row_key k (
                      modify row_key b.binding_id
                        (λ x. unverify (record x { binding_json = encode b })) rows)
                    ≡ some (row_of encode lower show b))
                  ((eq_iff b.binding_id j).0 t)
                  (find-modify row_key b.binding_id _ (λ x. refl) rows r e
                    ∙ ap (λ k. some (record (row_of encode lower show b) { binding_id = k }))
                        (find-id row_key b.binding_id rows r e)))
            | inr t ↦ rw t (find-modify_ne row_key b.binding_id j _ (λ x. refl) t rows)
          ])
  ]

  pub saved-bindings :
      (b : ModelBinding) (s after : AgentStore)
      → save_binding encode lower show b s ≡ (saved, after)
      → after ≡ record s { bindings = upsert_binding encode lower show b s.bindings }
  unfolding save_binding
  saved-bindings b s after e = elim (Option-cases (reject_secrets lower show (dump b) "")) [
    | inl n ↦ sym (ap (λ (p : Saved × AgentStore). p.1) (rw (n, save_binding) at e))
    | inr (p, n) ↦ absurd (
        let h = rw (n, save_binding) at e in ground (arith, ap (λ (p : Saved × AgentStore). p.0) h))
  ]

  module _ (decode : String → ModelBinding) (digest : ModelBinding → String) where
    -- For a binding that its JSON gives back, a save that succeeds makes it what its id finds, and
    -- not verified; what any other id finds, and whether it is verified, stay as they were.
    pub save_binding-get_binding :
        (b : ModelBinding) (s after : AgentStore) (j : String)
        → decode (encode b) ≡ b
        → save_binding encode lower show b s ≡ (saved, after)
        → (get_binding decode digest j after
            ≡ (if b.binding_id == j then some b else get_binding decode digest j s))
          × (is_verified decode digest j after
              ≡ (if b.binding_id == j then false else is_verified decode digest j s))
    unfolding get_binding is_verified
    save_binding-get_binding b s after j round e =
        rw (saved-bindings b s after e, get_binding, is_verified, find-upsert b j s.bindings)
          (elim (Bool-cases (b.binding_id == j)) [
            | inl t ↦ rw t (ap some round, refl)
            | inr t ↦ rw t (refl, refl)
          ])

module _ (decode : String → ModelBinding) (digest : ModelBinding → String) where
  is_trusted-mark :
      (r : BindingRow) (d : String)
      → digest (decode r.binding_json) ≡ d
      → d ≢ ""
      → is_trusted decode digest (mark d r) ≡ true
  is_trusted-mark r d e n =
      rw (e, eq_refl d)
        (elim (Bool-cases (d == "")) [ inl t ↦ absurd (n ((eq_iff d "").0 t)) | inr t ↦ rw t refl ])

  found-marked :
      (i : String) (s : AgentStore) (r : BindingRow)
      → find_binding i s ≡ some r
      → find_binding i (mark_written decode digest i r.binding_json s).1
        ≡ some (mark (digest (decode r.binding_json)) r)
  unfolding mark_written
  found-marked i s r e =
      find-modify row_key i (mark_read decode digest r.binding_json) (mark_read-id r.binding_json)
        s.bindings r e
      ∙ rw (eq_refl r.binding_json) refl
    where
      mark_read-id :
          (json : String) (x : BindingRow)
          → (mark_read decode digest json x).binding_id ≡ x.binding_id
      mark_read-id json x = ground arith

  expected_found :
      (i d : String) (s after : AgentStore) (r : BindingRow)
      → mark_found decode digest i (some d) (some r) s ≡ (true, after)
      → (digest (decode r.binding_json) ≡ d)
        × (after ≡ (mark_written decode digest i r.binding_json s).1)
  expected_found i d s after r e = elim (Bool-cases (d == digest (decode r.binding_json))) [
    | inl t ↦ (
      sym ((eq_iff d (digest (decode r.binding_json))).0 t),
      sym (ap (λ (p : Bool × AgentStore). p.1) (rw t at e)),
    )
    | inr t ↦ absurd (let h = ap (λ (p : Bool × AgentStore). p.0) (rw t at e) in cc)
  ]

  -- A mark that expects a digest leaves the id verified, with that digest.
  pub mark_verified-is_verified :
      (i d : String) (s after : AgentStore)
      → ((b : ModelBinding) → digest b ≢ "")
      → mark_verified decode digest i (some d) s ≡ (true, after)
      → (is_verified decode digest i after ≡ true) × (binding_digest decode digest i after ≡ some d)
  unfolding mark_verified is_verified binding_digest get_binding
  mark_verified-is_verified i d s after ne e = elim (Option-cases (find_binding i s)) [
    | inl n ↦ absurd (let h = ap (λ (p : Bool × AgentStore). p.0) (rw n at e) in cc)
    | inr (r, n) ↦
        let (same, is_after) = expected_found i d s after r (rw n at e) in
        let here = found-marked i s r n in
        rw is_after (
          rw here (is_trusted-mark r _ refl (ne (decode r.binding_json))),
          rw (here, binding_digest, get_binding) (ap some same),
        )
  ]
