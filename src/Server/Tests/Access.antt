-- ===== src/Server/Tests/Access.antt =====
-- The theorems on tokens, quotas and stored files, applied to that server.
use model_courier.Prelude.{
  ◌≡◌, ◌≢◌, refl, eq_iff, ◌==◌, String, Bool, true, false, none, some, List, [], ◌∷◌, contains, All,
  if◌then◌else◌,
}
use model_courier.Prelude.Int.{pos}
use model_courier.Prelude.Tables.{find, select, select_one}
use mathlib.Core.Bool.{false≢true}
use std.Logic.{◌↔◌}
use model_courier.Server.Exec.{ok, err, authentication}
use model_courier.Server.Db.{Db, ArtifactRow, input, empty}
use model_courier.Server.Cleanup.{CleanupReport, no_report, is_expired, cleanup_expired}
use model_courier.Server.Cleanup.Swept.{cleanup_expired-cleanup_expired}
use model_courier.Server.Repository.Identities.{ensure_owner}
use model_courier.Server.Tokens.{
  Principal, device, issue_device, authenticate, revoke, upsert_device,
}
use model_courier.Server.Tokens.Laws.{authenticate-revoke}
use model_courier.Server.Quotas.{reserve}
use model_courier.Server.Quotas.Limits.{HasRoom, reserve-HasRoom}
use model_courier.Server.Storage.{
  UploadHandle, Bytes, Files, Item, chunk, begin, write_stream, handle_of, last_component,
  input_limit,
}
use model_courier.Server.Storage.Names.{Accepted, begin-Accepted}
use model_courier.Server.Storage.Streams.{
  Settles, Describes, write_stream-Settles, write_stream_total, content_of,
}
use model_courier.Prelude.Texts.{is_blank, strip, strip_left, strip_right}
use model_courier.Server.Routes.{answers}
use model_courier.Server.Routes.Bearer.{device_principal}
use model_courier.Server.Routes.Bearer.Laws.{device_principal-issue_device}
use model_courier.Server.Tests.{sha256}

abbrev issued : Db
issued = (issue_device sha256 "token" "o" "d" 5 empty).1

issued_token : issue_device sha256 "token" "o" "d" 5 empty ≡ (ok "token", issued)
unfolding issue_device ensure_owner select_one contains
issued_token = refl

abbrev device_d : Principal
device_d = record { kind = device; subject_id = "d"; owner_id = "o" }

not_stripped : strip is_blank "token" ≡ "token"
unfolding strip_left strip_right
not_stripped = refl

not_empty : ("token" == "") ≡ false
not_empty = refl

device_principal-issue_device_example :
    device_principal sha256 (some "Bearer token") issued ≡ answers device_d
device_principal-issue_device_example =
    device_principal-issue_device sha256 "token" "o" "d" "token" 5 empty issued issued_token
      not_stripped not_empty

admitted : authenticate sha256 device "token" issued ≡ ok device_d
unfolding authenticate issue_device ensure_owner select_one upsert_device find contains
admitted = refl

authenticate-revoke_example :
    authenticate sha256 device "token" (revoke device "d" 9 issued)
    ≡ err (authentication "invalid or revoked token")
authenticate-revoke_example = authenticate-revoke sha256 device "token" 9 issued device_d admitted

reserve-HasRoom_example :
    (reserve 6000000000 "o" "d" (pos 100) issued
      ≡ ok (record { owner_id = "o"; device_id = "d"; bytes_reserved = 100 }))
    ↔ HasRoom 6000000000 "o" "d" 100 issued
reserve-HasRoom_example = reserve-HasRoom 6000000000 "o" "d" 100 issued

abbrev handle : UploadHandle
handle = handle_of "a1" "t" "input" 3 "audio/wav" "speech.wav"

begun : begin "a1" "t" "input" (pos 3) "audio/wav" "../../speech.wav" ≡ ok handle
unfolding begin last_component input_limit
begun = refl

begin-Accepted_example : Accepted "a1" "t" "input" (pos 3) "audio/wav" "../../speech.wav" handle
begin-Accepted_example =
    begin-Accepted "a1" "t" "input" (pos 3) "audio/wav" "../../speech.wav" handle begun

abbrev hex_digest : Bytes → String
hex_digest [] = "empty"
hex_digest (b ∷ bs) = "some"

abbrev no_files : Files
no_files path = none

abbrev stream : List Item
stream = chunk (7 ∷ 8 ∷ []) ∷ chunk [] ∷ chunk (9 ∷ []) ∷ []

path≢temporary : handle.path ≢ handle.temporary_path
path≢temporary e = false≢true ((eq_iff handle.path handle.temporary_path).1 e)

write_stream-Settles_example :
    Settles
      (strip is_blank)
      hex_digest
      handle
      stream
      no_files
      (write_stream (strip is_blank) hex_digest handle stream no_files)
write_stream-Settles_example =
    write_stream-Settles (strip is_blank) hex_digest handle stream no_files path≢temporary

stream_content : content_of stream ≡ some (7 ∷ 8 ∷ 9 ∷ [])
stream_content = refl

write_stream_total_example :
    Describes
      (strip is_blank)
      hex_digest
      handle
      stream
      no_files
      (7 ∷ 8 ∷ 9 ∷ [])
      (write_stream (strip is_blank) hex_digest handle stream no_files).0
write_stream_total_example =
    write_stream_total (strip is_blank) hex_digest handle stream no_files (7 ∷ 8 ∷ 9 ∷ [])
      stream_content refl

abbrev stale : ArtifactRow
stale = record {
  id = "a";
  task_id = "t";
  kind = input;
  name = "image.jpg";
  mime = "image/jpeg";
  size_bytes = 2;
  sha256 = "s";
  path = "incoming/t/a-image.jpg";
  published = true;
  expires_at = 10;
  created_at = 1;
}

abbrev stored_db : Db
stored_db = record empty {
  artifacts = stale ∷ record stale { id = "b"; path = "results/b"; expires_at = 90 } ∷ [];
}

abbrev disk : Files
disk path =
    if contains ("/data/incoming/t/a-image.jpg" ∷ "/data/results/b" ∷ []) path
    then some (1 ∷ 2 ∷ [])
    else none

abbrev no_directory : String → Bool
no_directory path = false

abbrev under_data : String → List String
under_data path = "/data" ∷ "/" ∷ []

abbrev cleaned : CleanupReport × Db × Files
cleaned = cleanup_expired "/data" no_directory under_data 10 stored_db disk

cleanup_expired-cleanup_expired_example :
    All (λ a. is_expired 10 a ≡ false) cleaned.1.artifacts
    × (cleaned.2 "/data/incoming/t/a-image.jpg" ≡ none)
    × (cleanup_expired "/data" no_directory under_data 10 cleaned.1 cleaned.2
        ≡ (no_report, cleaned.1, cleaned.2))
unfolding select contains
cleanup_expired-cleanup_expired_example =
    cleanup_expired-cleanup_expired "/data" no_directory under_data 10 stored_db disk
      "/data/incoming/t/a-image.jpg"
