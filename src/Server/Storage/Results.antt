-- ===== src/Server/Storage/Results.antt =====
-- `publish_result` and `path_for` of src/model_courier/server/storage.py. A file comes with the random
-- identifier that `begin` gives it.
use Prim.Native.String.{◌++◌ as join}
use model_courier.Prelude.{ℕ, String, List, [], ◌∷◌, length}
use model_courier.Prelude.Int.{pos}
use model_courier.Contracts.{ArtifactRef}
use model_courier.Server.Exec.{Result, ok, err, artifact}
use model_courier.Server.Storage.{
  UploadHandle, Bytes, Files, chunk, replace, begin, write_stream, base_name,
}

pub record ResultFile : Type 0 where
  pub artifact_id : String
  pub name : String
  pub mime : String
  pub content : Bytes

-- What `rglob` finds for an artifact.
abbrev pub path_for : List String → Result String
path_for (path ∷ []) = ok path
path_for _ = err (artifact "artifact file is not uniquely present")

module _ (strip : String → String) (hex_digest : Bytes → String) (show : ℕ → String) where
  abbrev pub final_path : String → ℕ → UploadHandle → String
  final_path task_id lease_generation handle =
      join (join (join (join "results/" task_id) "/") (join (show lease_generation) "/"))
        (base_name handle.path)

  abbrev pub moved : UploadHandle → String → Result ArtifactRef × Files → Result ArtifactRef × Files
  moved handle target (err e, files) = (err e, files)
  moved handle target (ok a, files) = (ok a, replace handle.path target files)

  abbrev pub publish_handle :
      String → ℕ → Bytes → Files → Result UploadHandle → Result ArtifactRef × Files
  publish_handle task_id lease_generation content files (err e) = (err e, files)
  publish_handle task_id lease_generation content files (ok handle) =
      moved handle (final_path task_id lease_generation handle)
        (write_stream strip hex_digest handle (chunk content ∷ []) files)

  unfoldable pub publish_file : String → ℕ → ResultFile → Files → Result ArtifactRef × Files
  publish_file task_id lease_generation f files =
      publish_handle task_id lease_generation f.content files
        (begin f.artifact_id task_id "result" (pos (length f.content)) f.mime f.name)

  abbrev pub gathered :
      Result ArtifactRef × Files
      → Result (List ArtifactRef) × Files
      → Result (List ArtifactRef) × Files
  gathered (err e, files) rest = (err e, files)
  gathered (ok a, files) (err e, left) = (err e, left)
  gathered (ok a, files) (ok output, left) = (ok (a ∷ output), left)

  -- The loop of `publish_result`.
  unfoldable pub publish_result :
      String → ℕ → List ResultFile → Files → Result (List ArtifactRef) × Files
  publish_result task_id lease_generation [] files = (ok [], files)
  publish_result task_id lease_generation (f ∷ rest) files =
      let first = publish_file task_id lease_generation f files in
      let others = publish_result task_id lease_generation rest first.1 in gathered first others
