-- ===== src/Evals/Artifacts.antt =====
-- evals/artifacts.py: the records of a run, one file per question, and what a resumed run finds.
-- A file holds the artifact that was written to it, or is unreadable; JSON and SHA-256 are
-- parameters.
pub mod Names
use Prim.Native.Char.{Char, code}
use Prim.Native.String
use Prim.Native.String.{[], ◌∷◌}
use mathlib.Core.List.{[] as []ᴸ, ◌∷◌ as ◌∷ᴸ◌}
use mcp_text_to_sql_agent.Prelude.{
  ℕ, zero, suc, String, Bool, true, false, Option, none, some, List, length, take, prefix, ltb, leb,
  nat_eq, ◌&&◌, ◌||◌, ◌⧺◌, ◌==◌, if◌then◌else◌, assign_key,
}
use mcp_text_to_sql_agent.Platform.{Platform, Value}
use mcp_text_to_sql_agent.Evals.Taxonomy.{is_infrastructure}

abbrev pub max_persisted_rows : ℕ
max_persisted_rows = 50

pub record RunManifest : Type 0 where
  pub run_id : String
  pub dataset : String
  pub split : String
  pub model : String
  pub retriever_model_version : String
  pub prompt_version : String
  pub commit : String
  pub seed : ℕ
  pub started_at : String
  pub notes : String
  pub baseline : String
  pub code_digest : String

-- The fields that are hashed.
pub record Material : Type 0 where
  pub dataset : String
  pub split : String
  pub model : String
  pub retriever_model_version : String
  pub prompt_version : String
  pub code_digest : String
  pub seed : ℕ
  pub baseline : String

abbrev pub material : RunManifest → Material
material m = record {
  dataset = m.dataset;
  split = m.split;
  model = m.model;
  retriever_model_version = m.retriever_model_version;
  prompt_version = m.prompt_version;
  code_digest = m.code_digest;
  seed = m.seed;
  baseline = m.baseline;
}

pub record Hashing : Type 0 where
  -- `hashlib.sha256(json.dumps(material, sort_keys=True).encode()).hexdigest()[:16]`
  pub hash_material : Material → String
  -- `hashlib.sha256(text.encode("utf-8")).hexdigest()[:8]`
  pub short_digest : String → String

unfoldable pub config_fingerprint : Hashing → RunManifest → String
config_fingerprint h m = h.hash_material (material m)

pub record QuestionArtifact (Float : Type 0) : Type 0 where
  pub question_id : String
  pub question : String
  pub gold_sql : String
  pub generated_sql : Option String
  pub matched : Option Bool
  pub verdict : String
  pub failure_category : String
  pub validation_attempts : ℕ
  pub error_type : Option String
  pub error_message : String
  pub recall_at_k : List (ℕ × Float)
  pub gold_element_count : ℕ
  pub unresolved_references : ℕ
  pub duration_ms : Float
  pub input_tokens : ℕ
  pub output_tokens : ℕ
  pub answering_model : String
  pub gold_rows : List (List (Value Float))
  pub predicted_rows : List (List (Value Float))
  pub rows_truncated : Bool

unfoldable pub bounded : {Float : Type 0} → QuestionArtifact Float → ℕ → QuestionArtifact Float
bounded a limit = record a {
  gold_rows = take limit a.gold_rows;
  predicted_rows = take limit a.predicted_rows;
  rows_truncated = ltb limit (length a.gold_rows) || ltb limit (length a.predicted_rows);
}

-- A character of the set `[A-Za-z0-9_-]`.
unfoldable pub is_safe_char : ℕ → Bool
is_safe_char c =
    (leb 65 c && leb c 90)
    || (leb 97 c && leb c 122)
    || (leb 48 c && leb c 57)
    || nat_eq c 95
    || nat_eq c 45

abbrev pub safe_char : Char → Bool → Char
safe_char c true = c
safe_char c false = "-"

-- `_UNSAFE_IN_FILENAME.sub("-", text)`
unfoldable pub sanitised : String → String
unfolding is_safe_char
sanitised [] = []
sanitised (c ∷ s) = safe_char c (is_safe_char (code c)) ∷ sanitised s

unfoldable pub artifact_filename : Hashing → String → String
unfolding sanitised prefix
artifact_filename h question_id =
    prefix 80 (sanitised question_id) ⧺ "-" ⧺ h.short_digest question_id ⧺ ".json"

pub data File (Float : Type 0) : Type 0 where
  stored : QuestionArtifact Float → File Float
  unreadable : File Float

-- The run's directory: the fingerprint in the manifest, if there is a manifest, and the files of the
-- questions by their names.
pub record Directory (Float : Type 0) : Type 0 where
  pub manifest : Option String
  pub files : List (String × File Float)

-- A `RunStore`, but for its directory.
pub record RunStore : Type 0 where
  pub hashing : Hashing
  pub run_manifest : RunManifest

abbrev pub or_new : Option String → String → Option String
or_new none fingerprint = some fingerprint
or_new (some existing) fingerprint = some existing

module _ {Float : Type 0} where
  unfoldable pub start : RunStore → Directory Float → Directory Float
  unfolding config_fingerprint
  start store d = record d {
    manifest = or_new d.manifest (config_fingerprint store.hashing store.run_manifest);
  }

  unfoldable pub answered_in : List (String × File Float) → List String
  unfolding is_infrastructure
  answered_in []ᴸ = []ᴸ
  answered_in ((name, unreadable) ∷ᴸ files) = answered_in files
  answered_in ((name, stored a) ∷ᴸ files) =
      let rest = answered_in files in
      if is_infrastructure a.error_type then rest else a.question_id ∷ᴸ rest

  -- The ids, or the `ValueError` for another configuration.
  unfoldable pub resume_at :
      String → Option String → List (String × File Float) → Option (List String)
  unfolding answered_in
  resume_at fingerprint none files = some []ᴸ
  resume_at fingerprint (some existing) files =
      if existing == fingerprint then some (answered_in files) else none

  unfoldable pub resume : RunStore → Directory Float → Option (List String)
  unfolding resume_at config_fingerprint
  resume store d =
      resume_at (config_fingerprint store.hashing store.run_manifest) d.manifest d.files

  -- `RunStore.record`
  unfoldable pub record_artifact :
      RunStore → QuestionArtifact Float → Directory Float → Directory Float
  unfolding artifact_filename bounded
  record_artifact store a d = record d {
    files =
        assign_key (artifact_filename store.hashing a.question_id)
          (stored (bounded a max_persisted_rows)) d.files;
  }

  -- The artifacts of the files in their order, or none if one is unreadable.
  abbrev pub load_after :
      QuestionArtifact Float
      → Option (List (QuestionArtifact Float))
      → Option (List (QuestionArtifact Float))
  load_after a none = none
  load_after a (some rest) = some (a ∷ᴸ rest)

  unfoldable pub artifacts : List (String × File Float) → Option (List (QuestionArtifact Float))
  artifacts []ᴸ = some []ᴸ
  artifacts ((name, unreadable) ∷ᴸ files) = none
  artifacts ((name, stored a) ∷ᴸ files) = load_after a (artifacts files)
