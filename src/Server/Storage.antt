-- ===== src/Server/Storage.antt =====
-- storage.py: artifact files. A file system gives the bytes of each path that holds a file; the
-- directories that `begin` makes are not modelled, and neither are failures of the disk.
-- `secrets.token_hex(16)` is the argument `artifact_id`, SHA-256 in hexadecimal is `hex_digest`.
pub mod Names
pub mod Streams
pub mod Results
use Prim.Native.Char.{Char}
use Prim.Native.String.{◌++◌ as join}
use text.Mathlib.Text.{starts_with}
use model_courier.Prelude.{
  ℕ, ◌+◌, ◌*◌, String, Bool, true, false, Option, none, some, List, [], ◌∷◌, ◌++◌, length, ltb, eqb,
  not, is_empty, ◌==◌, ◌||◌, if◌then◌else◌,
}
use model_courier.Prelude.Int.{ℤ, pos, negsuc}
use model_courier.Contracts.{ArtifactRef}
use model_courier.Contracts.Models.{validate_artifact}
use model_courier.Server.Exec.{Exec, Result, Error, ok, err, artifact, interrupted, invalid}

abbrev pub max_image_bytes : ℕ
max_image_bytes = 8 * 1024 * 1024

abbrev pub max_audio_bytes : ℕ
max_audio_bytes = 32 * 1024 * 1024

abbrev pub max_result_bytes : ℕ
max_result_bytes = 16 * 1024 * 1024

pub record UploadHandle : Type 0 where
  pub task_id : String
  pub artifact_id : String
  pub name : String
  pub mime : String
  pub declared_size : ℕ
  pub path : String
  pub temporary_path : String

-- One character of a text.
abbrev pub of_char : Char → String
of_char c = String.◌∷◌ c String.[]

-- A component that pathlib keeps: not empty, and not the current directory.
abbrev pub keep_component : String → String → String
keep_component component last = if component == "" || component == "." then last else component

-- `Path(name).name`: the last component that is kept.
unfoldable pub last_component : String → String → String → String
last_component last component String.[] = keep_component component last
last_component last component (String.◌∷◌ c rest) =
    let ended = last_component (keep_component component last) "" rest in
    let longer = last_component last (join component (of_char c)) rest in
    if of_char c == "/" then ended else longer

abbrev pub base_name : String → String
base_name name = last_component "" "" name

unfoldable pub input_limit : String → Result ℕ
input_limit mime =
    if starts_with mime "image/"
    then ok max_image_bytes
    else if starts_with mime "audio/"
    then ok max_audio_bytes
    else err (artifact "unsupported input MIME type")

-- The limit of a kind, after the test of the kind.
abbrev pub limit_of : String → String → Result ℕ
limit_of kind mime = if kind == "result" then ok max_result_bytes else input_limit mime

abbrev pub directory_of : String → String → String
directory_of kind task_id = join (if kind == "input" then "incoming/" else "staging/") task_id

abbrev pub handle_of : String → String → String → ℕ → String → String → UploadHandle
handle_of artifact_id task_id kind declared_size mime safe_name =
    let path =
      join (join (directory_of kind task_id) "/") (join (join artifact_id "-") safe_name) in
    record {
      task_id = task_id;
      artifact_id = artifact_id;
      name = safe_name;
      mime = mime;
      declared_size = declared_size;
      path = path;
      temporary_path = join path ".part";
    }

-- The tests after that of the size's sign. The message of the first leaves out the number of bytes.
abbrev pub begin_within :
    String → String → String → ℕ → String → String → Result ℕ → Result UploadHandle
begin_within artifact_id task_id kind declared_size mime safe_name (err e) = err e
begin_within artifact_id task_id kind declared_size mime safe_name (ok limit) =
    if ltb limit declared_size
    then err (artifact "artifact exceeds byte limit")
    else if safe_name == "" || safe_name == "." || safe_name == ".."
    then err (artifact "invalid artifact name")
    else ok (handle_of artifact_id task_id kind declared_size mime safe_name)

-- Paths are relative to the root of the store.
unfoldable pub begin : String → String → String → ℤ → String → String → Result UploadHandle
unfolding input_limit
begin artifact_id task_id kind (negsuc n) mime name =
    if kind == "input" || kind == "result"
    then err (artifact "declared size cannot be negative")
    else err (artifact "unsupported artifact kind")
begin artifact_id task_id kind (pos declared_size) mime name =
    if kind == "input" || kind == "result"
    then begin_within artifact_id task_id kind declared_size mime (base_name name)
        (limit_of kind mime)
    else err (artifact "unsupported artifact kind")

abbrev pub Bytes : Type 0
Bytes = List ℕ

abbrev pub Files : Type 0
Files = String → Option Bytes

abbrev pub put : String → Bytes → Files → Files
put path content files p = if p == path then some content else files p

abbrev pub unlink : String → Files → Files
unlink path files p = if p == path then none else files p

abbrev pub replaced : Option Bytes → String → String → Files → Files
replaced none source target files = files
replaced (some content) source target files = put target content (unlink source files)

-- `os.replace`
abbrev pub replace : String → String → Files → Files
replace source target files = replaced (files source) source target files

-- What the iterator yields: a chunk, or an exception of its own.
pub data Item : Type 0 where
  chunk : Bytes → Item
  breaks : Item

-- The loop over the chunks: what was written so far, and the content at its end.
unfoldable pub receive : ℕ → Bytes → List Item → Result Bytes
receive declared written [] = ok written
receive declared written (breaks ∷ items) = err interrupted
receive declared written (chunk bytes ∷ items) =
    let skip = receive declared written items in
    let rest = receive declared (written ++ bytes) items in
    if is_empty bytes
    then skip
    else if ltb declared (length (written ++ bytes))
    then err (artifact "upload is larger than declared size")
    else rest

-- `strip` is what pydantic strips off a text.
module _ (strip : String → String) (hex_digest : Bytes → String) where
  -- The keyword arguments of `ArtifactRef(...)`.
  abbrev pub fields_of : UploadHandle → Bytes → ArtifactRef
  fields_of handle content = record {
    artifact_id = some handle.artifact_id;
    name = handle.name;
    mime = handle.mime;
    size_bytes = some (length content);
    sha256 = some (hex_digest content);
  }

  -- The artifact that is returned, or the ValidationError, outside the `try` block.
  abbrev pub artifact_of : UploadHandle → Bytes → Result ArtifactRef
  artifact_of handle content = elim (validate_artifact strip (fields_of handle content)) [
    | none ↦ err invalid
    | some a ↦ ok a
  ]

  -- The files after the `except` clause, and after the `try` block.
  abbrev pub abandoned : UploadHandle → Files → Files
  abandoned handle files = unlink handle.path (unlink handle.temporary_path files)

  abbrev pub stored : UploadHandle → Bytes → Files → Files
  stored handle content files =
      replace handle.temporary_path handle.path (put handle.temporary_path content files)

  abbrev pub settle : UploadHandle → Files → Result Bytes → Result ArtifactRef × Files
  settle handle files (err e) = (err e, abandoned handle files)
  settle handle files (ok content) =
      if not (eqb (length content) handle.declared_size)
      then (err (artifact "upload size does not match declaration"), abandoned handle files)
      else (artifact_of handle content, stored handle content files)

  -- `write_stream` and `write_async_stream`, which differ in the loop's keyword only.
  unfoldable pub write_stream : UploadHandle → List Item → Files → Result ArtifactRef × Files
  write_stream handle items files = settle handle files (receive handle.declared_size [] items)
