-- ===== src/Server/Cleanup.antt =====
-- `delete_expired` of src/model_courier/server/storage.py and server/cleanup.py. A path is its text;
-- `is_directory` is what the disk says of it, `parents` are those of what it resolves to.
pub mod Swept
use Prim.Native.String.{◌++◌ as join}
use text.Mathlib.Text.{starts_with}
use model_courier.Prelude.{
  ℕ, ◌+◌, String, Bool, Option, none, some, List, [], ◌∷◌, map, contains, length, leb, not, ◌&&◌,
  ◌||◌, if◌then◌else◌,
}
use model_courier.Prelude.Tables.{select, delete}
use model_courier.Server.Db.{Db, ArtifactRow}
use model_courier.Server.Storage.{Bytes, Files, unlink}

pub record CleanupReport : Type 0 where
  pub deleted_files : ℕ
  pub deleted_bytes : ℕ
  pub missing_files : ℕ

abbrev pub no_report : CleanupReport
no_report = record { deleted_files = 0; deleted_bytes = 0; missing_files = 0 }

-- `expires_at <= ? OR published = 0`
abbrev pub is_expired : ℕ → ArtifactRow → Bool
is_expired now a = leb a.expires_at now || not a.published

module _ (root : String) (is_directory : String → Bool) (parents : String → List String) where
  -- The path of a row, below the root where it is not absolute.
  abbrev pub located : ArtifactRow → String
  located a = if starts_with a.path "/" then a.path else join (join root "/") a.path

  abbrev pub is_inside : String → Bool
  is_inside path = contains (parents path) root

  -- One round of the loop of `delete_expired`, for what the path holds.
  abbrev pub delete_found : String → Option Bytes → CleanupReport × Files → CleanupReport × Files
  delete_found path none (report, files) =
      if is_directory path
      then (report, files)
      else (record report { missing_files = report.missing_files + 1 }, files)
  delete_found path (some content) (report, files) =
      if not (is_inside path) then (report, files) else (
        record report {
          deleted_files = report.deleted_files + 1;
          deleted_bytes = report.deleted_bytes + length content;
        },
        unlink path files,
      )

  unfoldable pub delete_from : List String → CleanupReport × Files → CleanupReport × Files
  delete_from [] done = done
  delete_from (path ∷ paths) done = delete_from paths (delete_found path (done.1 path) done)

  unfoldable pub delete_expired : List String → Files → CleanupReport × Files
  delete_expired paths files = delete_from paths (no_report, files)

  -- The two transactions with the files between them, and no other call between those.
  unfoldable pub cleanup_expired : ℕ → Db → Files → CleanupReport × Db × Files
  cleanup_expired now db files =
      let rows = select (is_expired now) db.artifacts in
      let (report, left) = delete_expired (map located rows) files in
      (report, record db { artifacts = delete (is_expired now) db.artifacts }, left)
