-- ===== src/Uploads/Tests.antt =====
-- Runs of resumable uploads.
use whaloc.Base.{String, List, [], ◌∷◌, none, some, inr, true, ◌≡◌, refl, is_some}
use whaloc.Storage.{Bytes, put_object}
use whaloc.Uploads.Table.{UploadSession, find_session, update_session, insert_session, new_session}
use whaloc.Uploads.{
  Uploads, Minted, Length, CreateUploadSessionInput, create_session, append, open_upload,
  check_chunk, store_chunk, store_file, stored, status,
}
use whaloc.Uploads.Resume.{send, AllUnused, open_upload-send}

abbrev empty : Uploads
empty = record { sessions = []; files = [] }

abbrev input : CreateUploadSessionInput
input = record {
  app_id = "42";
  file_length = Length.whole 3;
  file_type = " image/png ";
  file_name = some "";
}

abbrev session : UploadSession
session = record {
  id = "s1";
  app_id = "42";
  file_name = none;
  file_type = "image/png";
  file_length = 3;
  received_bytes = 0;
  handle = none;
  storage_key = none;
  sha256 = none;
  url_token = none;
  created_at = "now";
  updated_at = "now";
}

abbrev opened : Uploads
opened = record { sessions = session ∷ []; files = [] }

opens : create_session "7" 100 "now" "s1" input empty ≡ inr (opened, session)
unfolding create_session insert_session new_session
opens = refl

abbrev minted : Minted
minted = record { key = "k"; handle = "h"; url_token = "t"; now = "later" }

abbrev digest : Bytes → String
digest bytes = "sum"

abbrev chunks : List (Minted × Bytes)
chunks = (minted, 1 ∷ 2 ∷ []) ∷ (minted, 3 ∷ []) ∷ []

chunks-AllUnused : AllUnused digest "s1" chunks opened
unfolding append check_chunk store_chunk store_file stored put_object update_session status
chunks-AllUnused =
    (record { handle = refl; token = refl }, (record { handle = refl; token = refl }, tt))

open_upload-send_example :
    (done : UploadSession) × (find_session "s1" (send digest "s1" chunks opened).sessions
      ≡ some done)
    × (is_some done.handle ≡ true)
    × (open_upload done none (send digest "s1" chunks opened).files ≡ some (1 ∷ 2 ∷ 3 ∷ []))
open_upload-send_example =
    open_upload-send "7" 100 "now" "s1" input empty (opened, session) opens digest chunks
      chunks-AllUnused refl
