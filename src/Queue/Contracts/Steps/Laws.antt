-- ===== src/Queue/Contracts/Steps/Laws.antt =====
-- When a step's result says that it was blocked (src/voxera/core/queue_contracts.py).
use voxera_os.Base.{
  ℕ, zero, suc, String, true, false, Option, none, some, List, [], ◌∷◌, ◌≡◌, refl, sym, subst, ◌∙◌,
  ap, arith, All, ◌≢◌, ◌⊎◌, contains, eq_iff, Bool-cases, inl, inr,
}
use voxera_os.Base.Text.{or_else, is_empty, strip}
use voxera_os.Base.Int.{ℤ, pos, negsuc}
use voxera_os.Py.{Value, null, text, array, object, Items, nil, cons, bool, int, Fields, truthy}
use voxera_os.Py.Dict.{get, find}
use voxera_os.Automation.{Raising, value, raises}
use voxera_os.Skill.Result.{str_or_empty}
use voxera_os.Queue.Requests.{◌>>=◌}
use voxera_os.Queue.Contracts.Steps.{
  null_at_zero, number, or_end, outcome_of, boundary_classes, text_or_null, error_class_of,
  is_boundary, reason_class, step_result, timed_step, numbered_step, kept, structured_steps,
  build_structured_step_results, items_of, or_existing,
}

-- The result names a class exactly if its error class is a boundary's.
abbrev pub NamesBoundary : Fields → Type 0
NamesBoundary r = truthy (get "blocked_reason_class" r) ≡ is_boundary r

boundary_not_empty : (s : String) → contains s boundary_classes ≡ true → is_empty s ≡ false
boundary_not_empty s h = elim (Bool-cases (is_empty s)) [
  | inl e ↦ cc (sym (ap (λ t. contains t boundary_classes) ((eq_iff s "").0 e)) ∙ h)
  | inr full ↦ full
]

or_else_full : (s t : String) → is_empty t ≡ false → is_empty (or_else s t) ≡ false
or_else_full s t h = ground (arith, h)

full_text : (s : String) → is_empty s ≡ false → truthy (text_or_null s) ≡ true
unfolding truthy
full_text s h = ground (arith, h)

named_class :
    (item outcome : Fields) → truthy (text_or_null (reason_class item outcome)) ≡ is_boundary item
unfolding reason_class truthy
named_class item outcome = elim (Bool-cases (is_boundary item)) [
  | inl inside ↦
      let own = strip (str_or_empty (get "blocked_reason_class" item)) in
      let rest =
        or_else (strip (str_or_empty (get "blocked_reason_class" outcome))) (error_class_of item) in
      rw inside (
        full_text (or_else own rest) (
          or_else_full own rest (
            or_else_full (strip (str_or_empty (get "blocked_reason_class" outcome)))
              (error_class_of item) (boundary_not_empty (error_class_of item) inside))))
  | inr outside ↦ rw outside refl
]

step_result-NamesBoundary :
    (total index : ℕ) (item outcome : Fields) (started finished duration : Value)
    → NamesBoundary (step_result total index item outcome started finished duration)
unfolding step_result get find
step_result-NamesBoundary total index item outcome started finished duration =
    named_class item outcome

abbrev OnValue {ℓ} : {A : Type ℓ} → (A → Type 0) → Raising A → Type 0
OnValue P (value a) = P a
OnValue P (raises e) = Unit {0}

abbrev OnSome : Option Fields → Type 0
OnSome none = Unit {0}
OnSome (some r) = NamesBoundary r

module _ (total index : ℕ) (item outcome : Fields) where
  timed-NamesBoundary :
      (a b c : Raising Value)
      → OnValue NamesBoundary
          (a >>= λ s. b >>= λ f. c >>= λ d. value (step_result total index item outcome s f d))
  timed-NamesBoundary (raises e) b c = tt
  timed-NamesBoundary (value s) (raises e) c = tt
  timed-NamesBoundary (value s) (value f) (raises e) = tt
  timed-NamesBoundary (value s) (value f) (value d) =
      step_result-NamesBoundary total index item outcome s f d

  timed_step-NamesBoundary : OnValue NamesBoundary (timed_step total index item outcome)
  unfolding timed_step
  timed_step-NamesBoundary =
      timed-NamesBoundary (null_at_zero (number "started_at_ms" item))
        (null_at_zero (number "finished_at_ms" item)) (null_at_zero (number "duration_ms" item))

some-OnSome :
    (t : Raising Fields) → OnValue NamesBoundary t → OnValue OnSome (t >>= λ r. value (some r))
some-OnSome (raises e) h = tt
some-OnSome (value r) h = h

numbered_step-OnSome :
    (total : ℕ) (outcomes : Items) (item : Fields) (n : Option ℤ)
    → OnValue OnSome (numbered_step total outcomes item n)
numbered_step-OnSome total outcomes item none = tt
numbered_step-OnSome total outcomes item (some (negsuc n)) = tt
numbered_step-OnSome total outcomes item (some (pos zero)) = tt
numbered_step-OnSome total outcomes item (some (pos (suc n))) =
    let outcome = or_end (outcome_of (suc n) outcomes) in
    some-OnSome (timed_step total (suc n) item outcome)
      (timed_step-NamesBoundary total (suc n) item outcome)

joined-All :
    (o : Raising (Option Fields)) (rs : Raising (List Fields))
    → OnValue OnSome o
    → OnValue (All NamesBoundary) rs
    → OnValue (All NamesBoundary) (o >>= λ r. rs >>= λ l. value (kept r l))
joined-All (raises e) rs h k = tt
joined-All (value o) (raises e) h k = tt
joined-All (value none) (value l) h k = k
joined-All (value (some r)) (value l) h k = (h, k)

structured_steps-All :
    (total : ℕ) (outcomes items : Items)
    → OnValue (All NamesBoundary) (structured_steps total outcomes items)
unfolding structured_steps
structured_steps-All total outcomes nil = tt
structured_steps-All total outcomes (cons (object item) vs) =
    joined-All (numbered_step total outcomes item (number "step" item))
      (structured_steps total outcomes vs)
      (numbered_step-OnSome total outcomes item (number "step" item))
      (structured_steps-All total outcomes vs)
structured_steps-All total outcomes (cons null vs) = structured_steps-All total outcomes vs
structured_steps-All total outcomes (cons (bool b) vs) = structured_steps-All total outcomes vs
structured_steps-All total outcomes (cons (int z) vs) = structured_steps-All total outcomes vs
structured_steps-All total outcomes (cons (text s) vs) = structured_steps-All total outcomes vs
structured_steps-All total outcomes (cons (array ws) vs) = structured_steps-All total outcomes vs

value_injective {ℓ} : {A : Type ℓ} {a b : A} → value a ≡ value b → a ≡ b
value_injective h = cc

cons-ne-nil {ℓ} : {A : Type ℓ} {a : A} {l : List A} → (a ∷ l) ≢ []
cons-ne-nil h = cc

-- The run's own results, or those that were there where it has none.
abbrev pub OwnOrExisting : List Fields → List Fields → Raising (List Fields) → Type 0
OwnOrExisting existing rs own =
    ((own ≡ value rs) × (rs ≢ []) × All NamesBoundary rs) ⊎ ((own ≡ value []) × (rs ≡ existing))

own-or-existing :
    (own : Raising (List Fields)) (existing rs : List Fields)
    → OnValue (All NamesBoundary) own
    → (own >>= λ l. value (or_existing l existing)) ≡ value rs
    → OwnOrExisting existing rs own
own-or-existing (raises e) existing rs h built = cc
own-or-existing (value []) existing rs h built = inr (refl, value_injective (sym built))
own-or-existing (value (r ∷ l)) existing rs h built = inl (
  built,
  λ e. cons-ne-nil (value_injective built ∙ e),
  subst (All NamesBoundary) (value_injective built) h,
)

-- The results of the steps are those of the run, where it has any, and only then those that were
-- there before. Every result of the run names a class of its block exactly if its error class is one
-- of the three boundaries, whatever class the step or its outcome gave.
pub build_structured_step_results-NamesBoundary :
    (rr_data : Fields) (total : ℕ) (existing rs : List Fields)
    → build_structured_step_results rr_data total existing ≡ value rs
    → OwnOrExisting existing rs (
        structured_steps total
          (items_of (get "step_outcomes" rr_data))
          (items_of (get "results" rr_data)))
unfolding build_structured_step_results
build_structured_step_results-NamesBoundary rr_data total existing rs built =
    let outcomes = items_of (get "step_outcomes" rr_data) in
    let items = items_of (get "results" rr_data) in
    own-or-existing (structured_steps total outcomes items) existing rs
      (structured_steps-All total outcomes items) built
