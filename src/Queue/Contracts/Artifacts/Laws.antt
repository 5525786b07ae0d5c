-- ===== src/Queue/Contracts/Artifacts/Laws.antt =====
-- A second refresh of a job's artifacts changes nothing (src/voxera/core/queue_contracts.py).
use voxera_os.Base.{
  List, [], ◌∷◌, All, String, Bool, Option, none, some, ◌≡◌, refl, ◌∙◌, ap, arith, eq_iff,
}
use voxera_os.Py.{Value, null, text, object, Fields, end, field, texts}
use voxera_os.Py.Dict.{get, find, put, find-put}
use voxera_os.Queue.State.{dict_or}
use voxera_os.Queue.Contracts.Artifacts.{
  Contract, Observation, minimum_artifact_presence, refs_value, observation_value, refresh_review,
  refresh_evidence, observation_of, refreshed_with, review_before, review_after, with_review,
  evidence_before, refresh_artifact_contract, build_artifact_contract,
  refresh_execution_result_artifact_contract, compare_expected_artifacts,
  normalize_expected_artifacts,
}

-- What is there already stays as it is when it is written again.
put_found : (k : String) (v : Value) (d : Fields) → find k d ≡ some v → put k v d ≡ d
unfolding find put
put_found k v end h = cc
put_found k v (field j w d) h = ground (arith, put_found k v d, eq_iff j k)

abbrev puts : List (String × Value) → Fields → Fields
puts [] d = d
puts ((k, v) ∷ kvs) d = put k v (puts kvs d)

abbrev Holds : Fields → String × Value → Type 0
Holds d (k, v) = find k d ≡ some v

puts_found : (kvs : List (String × Value)) (d : Fields) → All (Holds d) kvs → puts kvs d ≡ d
puts_found [] d h = refl
puts_found ((k, v) ∷ kvs) d (h, hs) = ap (put k v) (puts_found kvs d hs) ∙ put_found k v d h

abbrev review_entries : Contract → Observation → List (String × Value)
review_entries c o =
    ("minimum_artifacts", object (minimum_artifact_presence c.refs))
    ∷ ("missing_expected_artifacts", texts o.missing)
    ∷ ("observed_expected_artifacts", texts o.observed)
    ∷ ("expected_artifact_status", text o.status)
    ∷ []

abbrev evidence_entries : Contract → Observation → Fields → List (String × Value)
evidence_entries c o review =
    ("minimum_artifacts", object (minimum_artifact_presence c.refs))
    ∷ ("expected_artifacts", observation_value o)
    ∷ ("review_summary", object review)
    ∷ ("artifact_refs", refs_value c.refs)
    ∷ ("artifact_families", texts c.families)
    ∷ []

module _ (c : Contract) (o : Observation) where
  review_twice : (d : Fields) → refresh_review c o (refresh_review c o d) ≡ refresh_review c o d
  unfolding refresh_review
  review_twice d =
      puts_found (review_entries c o) (puts (review_entries c o) d)
        (simp find-put, (simp find-put, (simp find-put, (simp find-put, tt))))

  evidence_twice :
      (review d : Fields)
      → refresh_evidence c o review (refresh_evidence c o review d) ≡ refresh_evidence c o review d
  unfolding refresh_evidence
  evidence_twice review d =
      puts_found (evidence_entries c o review) (puts (evidence_entries c o review) d)
        (simp find-put, (simp find-put, (simp find-put, (simp find-put, (simp find-put, tt)))))

  review_expected :
      (d : Fields) → get "expected_artifacts" (refresh_review c o d) ≡ get "expected_artifacts" d
  unfolding refresh_review get
  review_expected d =
      let kept : find "expected_artifacts" (refresh_review c o d) ≡ find "expected_artifacts" d =
        simp find-put in
      ap (λ (x : Option Value). elim x as (λ y. Value) [ none ↦ null | some v ↦ v ]) kept

  review_observed : (d : Fields) → observation_of c (refresh_review c o d) ≡ observation_of c d
  unfolding observation_of
  review_observed d =
      ap (λ v. compare_expected_artifacts c (normalize_expected_artifacts v)) (review_expected d)

abbrev object_found : Option Value → Fields
object_found x = dict_or (elim x as (λ y. Value) [ none ↦ null | some v ↦ v ]) end

module _ (c : Contract) (d : Fields) where
  again_with : refreshed_with c (refresh_artifact_contract c d) ≡ refresh_artifact_contract c d
  unfolding refresh_artifact_contract
  again_with =
      puts_found
        (("artifact_refs", refs_value c.refs) ∷ ("artifact_families", texts c.families) ∷ []) _
        (simp find-put, (simp find-put, tt))

  holds_review :
      find "review_summary" (refresh_artifact_contract c d) ≡ some (object (review_after c d))
  unfolding refresh_artifact_contract
  holds_review = simp find-put

  holds_evidence :
      find "evidence_bundle" (refresh_artifact_contract c d)
      ≡ some (
          object (
            refresh_evidence c
              (observation_of c (review_before c d))
              (review_after c d)
              (evidence_before c d)))
  unfolding refresh_artifact_contract
  holds_evidence = simp find-put

  again_review : review_before c (refresh_artifact_contract c d) ≡ review_after c d
  unfolding get
  again_review =
      ap (λ x. dict_or (get "review_summary" x) end) again_with ∙ ap object_found holds_review

  again_observed :
      observation_of c (review_before c (refresh_artifact_contract c d))
      ≡ observation_of c (review_before c d)
  again_observed =
      ap (observation_of c) again_review
      ∙ review_observed c (observation_of c (review_before c d)) (review_before c d)

  again_after : review_after c (refresh_artifact_contract c d) ≡ review_after c d
  again_after =
      ap (λ o. refresh_review c o (review_before c (refresh_artifact_contract c d))) again_observed
      ∙ ap (refresh_review c (observation_of c (review_before c d))) again_review
      ∙ review_twice c (observation_of c (review_before c d)) (review_before c d)

  again_with_review : with_review c (refresh_artifact_contract c d) ≡ refresh_artifact_contract c d
  again_with_review =
      ap (λ r. put "review_summary" (object r) (refreshed_with c (refresh_artifact_contract c d)))
        again_after
      ∙ ap (put "review_summary" (object (review_after c d))) again_with
      ∙ put_found "review_summary" (object (review_after c d)) (refresh_artifact_contract c d)
          holds_review

  again_evidence :
      evidence_before c (refresh_artifact_contract c d)
      ≡ refresh_evidence c
          (observation_of c (review_before c d))
          (review_after c d)
          (evidence_before c d)
  unfolding get
  again_evidence =
      ap (λ x. dict_or (get "evidence_bundle" x) end) again_with_review
      ∙ ap object_found holds_evidence

  again_whole :
      refresh_artifact_contract c (refresh_artifact_contract c d) ≡ refresh_artifact_contract c d
  again_whole =
      let o = observation_of c (review_before c d) in
      let review = review_after c d in
      let X = refresh_artifact_contract c d in
      refresh_step X
      ∙ ap
          (λ o'.
            put "evidence_bundle"
              (object (refresh_evidence c o' (review_after c X) (evidence_before c X)))
              (with_review c X))
          again_observed
      ∙ ap
          (λ r.
            put "evidence_bundle" (object (refresh_evidence c o r (evidence_before c X)))
              (with_review c X))
          again_after
      ∙ ap (λ e. put "evidence_bundle" (object (refresh_evidence c o review e)) (with_review c X))
          again_evidence
      ∙ ap (λ e. put "evidence_bundle" (object e) (with_review c X))
          (evidence_twice c o review (evidence_before c d))
      ∙ ap (put "evidence_bundle" (object (refresh_evidence c o review (evidence_before c d))))
          again_with_review
      ∙ put_found "evidence_bundle" (object (refresh_evidence c o review (evidence_before c d))) X
          holds_evidence
    where
      refresh_step :
          (x : Fields)
          → refresh_artifact_contract c x
            ≡ put "evidence_bundle"
                (object (
                  refresh_evidence c
                    (observation_of c (review_before c x))
                    (review_after c x)
                    (evidence_before c x)))
                (with_review c x)
      refresh_step x = unfold refresh_artifact_contract in refl

-- A second refresh of a result changes nothing, as long as the job's directory has the same files.
pub refresh_twice :
    (there : String → Bool) (d : Fields)
    → refresh_execution_result_artifact_contract there
        (refresh_execution_result_artifact_contract there d)
      ≡ refresh_execution_result_artifact_contract there d
unfolding refresh_execution_result_artifact_contract
refresh_twice there d = again_whole (build_artifact_contract there) d
