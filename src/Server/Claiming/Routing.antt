-- ===== src/Server/Claiming/Routing.antt =====
-- `_matches` of repository.py against a description of when a capability serves a task.
use model_courier.Prelude.{
  ◌≡◌, refl, sym, ap, ◌∙◌, eq_refl, ◌⊎◌, inl, inr, String, true, false, not, Option, none, some,
  List, [], ◌∷◌, ◌++◌, map, All, contains, is_subset, is_empty, arith, eq_iff, ◌==◌, ◌&&◌,
  holds-some, Bool-cases,
}
use mathlib.Core.Bool.{false≢true}
use model_courier.Contracts.{CapabilityManifest}
use model_courier.Server.Db.{TaskRow}
use model_courier.Server.Repository.Matching.{
  matches, accepts, refuses, refuses_service, refuses_model,
}

-- A requirement that is given (and not empty) holds; one that is not given asks for nothing.
abbrev pub Requires : Option String → (String → Type 0) → Type 0
Requires none P = Unit
Requires (some requested) P = (requested ≡ "") ⊎ P requested

-- Every text of the list is among the others.
abbrev pub Covers : List String → List String → Type 0
Covers formats wanted = All (λ f. contains formats f ≡ true) wanted

-- The capability is of the task's type, has the provider, the service and the model that the task
-- asks for, takes the formats that it asks for, and, if it names formats, those of the inputs.
pub record Serves (row : TaskRow) (c : CapabilityManifest) : Type 0 where
  pub task_type : c.task_type ≡ row.task_type
  pub provider : Requires row.request.requires.provider (λ p. c.provider ≡ p)
  pub service : Requires row.request.requires.service_id (λ s. c.service_id ≡ some s)
  pub model : Requires row.request.requires.model (λ m. contains c.models m ≡ true)
  pub formats : Covers c.formats row.request.requires.formats
  pub inputs : (c.formats ≡ []) ⊎ Covers c.formats (map (λ a. a.mime) row.request.input_artifacts)

is_subset-Covers : (xs ys : List String) → is_subset xs ys ≡ true → Covers ys xs
unfolding is_subset
is_subset-Covers [] ys e = tt
is_subset-Covers (x ∷ xs) ys e = ground (arith, is_subset-Covers xs ys)

Covers-is_subset : (xs ys : List String) → Covers ys xs → is_subset xs ys ≡ true
unfolding is_subset
Covers-is_subset [] ys h = refl
Covers-is_subset (x ∷ xs) ys h = rw h.0 (Covers-is_subset xs ys h.1)

not_refuses : (o : Option String) (p : String) → refuses o p ≡ false → Requires o (λ q. p ≡ q)
not_refuses none p e = tt
not_refuses (some q) p e = ground (arith, eq_iff p q, eq_iff q "")

refuses_not : (o : Option String) (p : String) → Requires o (λ q. p ≡ q) → refuses o p ≡ false
refuses_not none p h = refl
refuses_not (some q) p (inl e) = rw ((eq_iff q "").1 e) refl
refuses_not (some q) p (inr h) = rw ((eq_iff p q).1 h) (ground arith)

not_refuses_service :
    (o s : Option String) → refuses_service o s ≡ false → Requires o (λ q. s ≡ some q)
not_refuses_service none s e = tt
not_refuses_service (some q) s e = elim (Bool-cases (q == "")) [
  | inl x ↦ inl ((eq_iff q "").0 x)
  | inr x ↦ inr (holds-some s q (ground arith))
]

refuses_service_not :
    (o s : Option String) → Requires o (λ q. s ≡ some q) → refuses_service o s ≡ false
refuses_service_not none s h = refl
refuses_service_not (some q) s (inl e) = rw ((eq_iff q "").1 e) refl
refuses_service_not (some q) s (inr h) = rw (h, eq_refl q) (ground arith)

not_refuses_model :
    (o : Option String) (ms : List String)
    → refuses_model o ms ≡ false
    → Requires o (λ q. contains ms q ≡ true)
not_refuses_model none ms e = tt
not_refuses_model (some q) ms e = ground (arith, eq_iff q "")

refuses_model_not :
    (o : Option String) (ms : List String)
    → Requires o (λ q. contains ms q ≡ true)
    → refuses_model o ms ≡ false
refuses_model_not none ms h = refl
refuses_model_not (some q) ms (inl e) = rw ((eq_iff q "").1 e) refl
refuses_model_not (some q) ms (inr h) = rw h (ground arith)

-- `requested and not requested.issubset(...)`
Covers-or_empty :
    (xs ys : List String) → (not (is_empty xs) && not (is_subset xs ys)) ≡ false → Covers ys xs
Covers-or_empty [] ys e = tt
Covers-or_empty (x ∷ xs) ys e = is_subset-Covers (x ∷ xs) ys (ground arith)

inputs_or_empty :
    (xs ys : List String)
    → (not (is_empty xs) && not (is_empty ys) && not (is_subset xs ys)) ≡ false
    → (ys ≡ []) ⊎ Covers ys xs
inputs_or_empty [] ys e = inr tt
inputs_or_empty (x ∷ xs) [] e = inl refl
inputs_or_empty (x ∷ xs) (y ∷ ys) e = inr (is_subset-Covers (x ∷ xs) (y ∷ ys) (ground arith))

empty_or_inputs :
    (xs ys : List String)
    → (ys ≡ []) ⊎ Covers ys xs
    → (not (is_empty xs) && not (is_empty ys) && not (is_subset xs ys)) ≡ false
empty_or_inputs xs ys (inl e) = rw e (ground arith)
empty_or_inputs xs ys (inr h) = rw (Covers-is_subset xs ys h) (ground arith)

module _ (row : TaskRow) (c : CapabilityManifest) where
  accepts-Serves : accepts row c ≡ true → Serves row c
  unfolding accepts
  accepts-Serves e = record {
    task_type = ground (arith, eq_iff c.task_type row.task_type);
    provider = not_refuses row.request.requires.provider c.provider (ground arith);
    service = not_refuses_service row.request.requires.service_id c.service_id (ground arith);
    model = not_refuses_model row.request.requires.model c.models (ground arith);
    formats = Covers-or_empty row.request.requires.formats c.formats (ground arith);
    inputs = inputs_or_empty _ c.formats (ground arith);
  }

  Serves-accepts : Serves row c → accepts row c ≡ true
  unfolding accepts
  Serves-accepts s =
      rw
        (
          (eq_iff c.task_type row.task_type).1 s.task_type,
          refuses_not _ _ s.provider,
          refuses_service_not _ _ s.service,
          refuses_model_not _ _ s.model,
          Covers-is_subset _ _ s.formats,
          empty_or_inputs _ _ s.inputs,
        )
        (ground arith)

-- How the capabilities route a task: to the first one that serves it, or to none.
pub data Routes (row : TaskRow) (cs : List CapabilityManifest)
    : Option CapabilityManifest → Type 0 where
  nowhere : All (λ c. ¬ Serves row c) cs → Routes row cs none
  to :
      (before : List CapabilityManifest) (c : CapabilityManifest) (rest : List CapabilityManifest)
      → cs ≡ before ++ c ∷ rest
      → All (λ d. ¬ Serves row d) before
      → Serves row c
      → Routes row cs (some c)

Routes-cons :
    (row : TaskRow) (d : CapabilityManifest) (cs : List CapabilityManifest)
    (o : Option CapabilityManifest)
    → ¬ Serves row d
    → Routes row cs o
    → Routes row (d ∷ cs) o
Routes-cons row d cs o n (nowhere h) = nowhere (n, h)
Routes-cons row d cs o n (to before c rest e h s) =
    to (d ∷ before) c rest (ap (λ l. d ∷ l) e) (n, h) s

-- The match of a task against a list of capabilities is the first capability that serves the task,
-- and there is none exactly when no capability serves it.
pub matches-Routes : (row : TaskRow) (cs : List CapabilityManifest) → Routes row cs (matches row cs)
unfolding matches
matches-Routes row [] = nowhere tt
matches-Routes row (c ∷ cs) = elim (Bool-cases (accepts row c)) [
  | inl y ↦ rw (y, matches) (to [] c cs refl tt (accepts-Serves row c y))
  | inr n ↦
      rw (n, matches)
        (Routes-cons row c cs _ (λ s. false≢true (sym n ∙ Serves-accepts row c s))
          (matches-Routes row cs))
]
