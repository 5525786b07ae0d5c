-- ===== src/Queue/Contracts/Artifacts.antt =====
-- The artifacts that a job was expected to leave and those that are there, in
-- src/voxera/core/queue_contracts.py. `there` says which files the job's directory has.
pub mod Laws
use voxera_os.Base.{
  String, Bool, true, false, not, Option, none, some, List, [], ◌∷◌, ◌++◌, map, ◌==◌, ◌||◌,
  contains, if◌then◌else◌,
}
use voxera_os.Base.Text.{strip, is_empty, sorted, distinct, text_le}
use voxera_os.Py.{
  Value, null, bool, text, array, object, Items, nil, cons, Fields, end, field, texts, of_list,
}
use voxera_os.Py.Dict.{get, put}
use voxera_os.Py.Str.{py_str}
use voxera_os.Queue.State.{dict_or}
use voxera_os.Queue.Disk.{stem}
use voxera_os.Queue.Names.{base_name}

pub record ArtifactRef : Type 0 where
  pub family : String
  pub path : String

pub record Contract : Type 0 where
  pub families : List String
  pub refs : List ArtifactRef

pub record Observation : Type 0 where
  pub status : String
  pub expected : List String
  pub observed : List String
  pub missing : List String

stripped_items : Items → List String
stripped_items nil = []
stripped_items (cons v vs) =
    let rest = stripped_items vs in
    let s = strip (py_str v) in if is_empty s then rest else s ∷ rest

-- `_normalize_expected_artifacts`
unfoldable pub normalize_expected_artifacts : Value → List String
unfolding stripped_items
normalize_expected_artifacts (array vs) = sorted (distinct (stripped_items vs))
normalize_expected_artifacts _ = []

stripped : List String → List String
stripped [] = []
stripped (s ∷ ss) = let rest = stripped ss in if is_empty (strip s) then rest else strip s ∷ rest

abbrev path_stem : String → String
path_stem s = stem (base_name s)

abbrev paths_of : List ArtifactRef → List String
paths_of = map (λ r. r.path)

-- Whether an artifact is there, under its own name or that of its stem
unfoldable pub is_observed : Contract → String → Bool
unfolding stripped
is_observed c token =
    let families = stripped c.families in
    let paths = stripped (paths_of c.refs) in
    contains token families
    || contains token paths
    || contains (path_stem token) families
    || contains (path_stem token) (map path_stem paths)

unfoldable pub tokens_where : (String → Bool) → List String → List String
tokens_where f [] = []
tokens_where f (s ∷ ss) =
    let rest = tokens_where f ss in if f (strip s) then strip s ∷ rest else rest

abbrev status_of : List String → List String → String
status_of observed [] = "observed"
status_of [] (s ∷ ss) = "missing"
status_of (t ∷ ts) (s ∷ ss) = "partial"

-- `_compare_expected_artifacts`
unfoldable pub compare_expected_artifacts : Contract → List String → Observation
unfolding tokens_where is_observed
compare_expected_artifacts c [] = record {
  status = "none_declared";
  expected = [];
  observed = [];
  missing = [];
}
compare_expected_artifacts c (e ∷ es) =
    let observed = tokens_where (is_observed c) (e ∷ es) in
    let missing = tokens_where (λ s. not (is_observed c s)) (e ∷ es) in
    record {
      status = status_of observed missing;
      expected = e ∷ es;
      observed = observed;
      missing = missing;
    }

abbrev file_to_family : List ArtifactRef
file_to_family =
    record { family = "plan"; path = "plan.json" }
    ∷ record { family = "actions"; path = "actions.jsonl" }
    ∷ record { family = "stdout"; path = "stdout.txt" }
    ∷ record { family = "stderr"; path = "stderr.txt" }
    ∷ record { family = "execution_envelope"; path = "execution_envelope.json" }
    ∷ record { family = "execution_result"; path = "execution_result.json" }
    ∷ record { family = "step_results"; path = "step_results.json" }
    ∷ record { family = "job_intent"; path = "job_intent.json" }
    ∷ record { family = "assistant_advisory"; path = "assistant_response.json" }
    ∷ record { family = "review_summary"; path = "review_summary.json" }
    ∷ record { family = "evidence_bundle"; path = "evidence_bundle.json" }
    ∷ []

present : (String → Bool) → List ArtifactRef → List ArtifactRef
present there [] = []
present there (r ∷ rs) = let rest = present there rs in if there r.path then r ∷ rest else rest

insert_ref : ArtifactRef → List ArtifactRef → List ArtifactRef
insert_ref r [] = r ∷ []
insert_ref r (s ∷ ss) = if text_le r.path s.path then r ∷ s ∷ ss else s ∷ insert_ref r ss

sorted_refs : List ArtifactRef → List ArtifactRef
unfolding insert_ref
sorted_refs [] = []
sorted_refs (r ∷ rs) = insert_ref r (sorted_refs rs)

-- `_build_artifact_contract` of a directory
unfoldable pub build_artifact_contract : (String → Bool) → Contract
unfolding present sorted_refs
build_artifact_contract there =
    let refs = present there file_to_family in
    record {
      families = sorted (distinct ("step_results" ∷ "execution_result" ∷ map (λ r. r.family) refs));
      refs = sorted_refs refs;
    }

abbrev minimum_artifacts : List String
minimum_artifacts =
    "execution_envelope.json" ∷ "execution_result.json" ∷ "step_results.json" ∷ "job_intent.json"
    ∷ "plan.json" ∷ "actions.jsonl" ∷ []

names_where : (String → Bool) → List String → List String
names_where f [] = []
names_where f (s ∷ ss) = let rest = names_where f ss in if f s then s ∷ rest else rest

abbrev minimum_status : List String → String
minimum_status [] = "observed"
minimum_status (s ∷ ss) = "missing"

-- `minimum_artifact_presence`
unfoldable pub minimum_artifact_presence : List ArtifactRef → Fields
unfolding names_where stripped
minimum_artifact_presence refs =
    let paths = stripped (paths_of refs) in
    let missing = names_where (λ s. not (contains s paths)) minimum_artifacts in
    field "status" (text (minimum_status missing)) (
      field "required" (texts minimum_artifacts) (
        field "observed" (texts (names_where (λ s. contains s paths) minimum_artifacts))
          (field "missing" (texts missing) end)))

abbrev ref_value : ArtifactRef → Value
ref_value r = object (
    field "artifact_family" (text r.family)
      (field "artifact_path" (text r.path) (field "exists" (bool true) end)))

abbrev pub refs_value : List ArtifactRef → Value
refs_value refs = array (of_list (map ref_value refs))

abbrev pub observation_value : Observation → Value
observation_value o = object (
    field "status" (text o.status) (
      field "expected" (texts o.expected)
        (field "observed" (texts o.observed) (field "missing" (texts o.missing) end))))

-- The review's entries on the artifacts.
unfoldable pub refresh_review : Contract → Observation → Fields → Fields
refresh_review c o d = put "minimum_artifacts" (object (minimum_artifact_presence c.refs)) (
    put "missing_expected_artifacts" (texts o.missing) (
      put "observed_expected_artifacts" (texts o.observed)
        (put "expected_artifact_status" (text o.status) d)))

unfoldable pub refresh_evidence : Contract → Observation → Fields → Fields → Fields
refresh_evidence c o review d =
    put "minimum_artifacts" (object (minimum_artifact_presence c.refs)) (
      put "expected_artifacts" (observation_value o) (
        put "review_summary" (object review)
          (put "artifact_refs" (refs_value c.refs) (put "artifact_families" (texts c.families) d))))

unfoldable pub observation_of : Contract → Fields → Observation
observation_of c review =
    compare_expected_artifacts c (normalize_expected_artifacts (get "expected_artifacts" review))

abbrev pub refreshed_with : Contract → Fields → Fields
refreshed_with c d =
    put "artifact_refs" (refs_value c.refs) (put "artifact_families" (texts c.families) d)

abbrev pub review_before : Contract → Fields → Fields
review_before c d = dict_or (get "review_summary" (refreshed_with c d)) end

abbrev pub review_after : Contract → Fields → Fields
review_after c d = refresh_review c (observation_of c (review_before c d)) (review_before c d)

abbrev pub with_review : Contract → Fields → Fields
with_review c d = put "review_summary" (object (review_after c d)) (refreshed_with c d)

abbrev pub evidence_before : Contract → Fields → Fields
evidence_before c d = dict_or (get "evidence_bundle" (with_review c d)) end

-- `refresh_execution_result_artifact_contract`, for the artifacts that are there
unfoldable pub refresh_artifact_contract : Contract → Fields → Fields
refresh_artifact_contract c d =
    put "evidence_bundle"
      (object (
        refresh_evidence c (observation_of c (review_before c d)) (review_after c d)
          (evidence_before c d)))
      (with_review c d)

unfoldable pub refresh_execution_result_artifact_contract : (String → Bool) → Fields → Fields
unfolding refresh_artifact_contract
refresh_execution_result_artifact_contract there d =
    refresh_artifact_contract (build_artifact_contract there) d
