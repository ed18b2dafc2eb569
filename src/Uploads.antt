-- ===== src/Uploads.antt =====
-- packages/server/src/domain/upload-service.ts: resumable uploads. The state is the table of
-- sessions and the files of the storage.
pub mod Table
pub mod Content
pub mod Resume
mod Tests
use Prim.Native.String.{◌++◌ as ◌++ˢ◌}
use whaloc.Base.{
  String, ℕ, ◌+◌, List, [], ◌∷◌, ◌++◌, Bool, true, false, not, ◌&&◌, ◌||◌, Option, none, some,
  get_or, ◌⊎◌, inl, inr, ◌==◌, leb, ltb, eqb, if◌then◌else◌, is_some, is_digit, all_chars, behind,
  trim, text_length, length, decimal, raise, require, or_raise, ◌>>=◌, ◌>>◌,
}
use whaloc.GraphError.{
  unknown_object_error, invalid_parameter_error, invalid_upload_offset_error, upload_too_long_error,
}
use whaloc.Failure.{Failure, graph, constraint}
use whaloc.Storage.{Bytes, Files, StoredMedia, put_object, get_object}
use Table.{
  UploadSession, UpdateUploadSessionInput, find_session, find_session_by_handle,
  find_session_by_token, insert_session, update_session,
}

pub record Uploads : Type 0 where
  pub sessions : List UploadSession
  pub files : Files

abbrev upload_session_prefix : String
upload_session_prefix = "upload:"

unfoldable pub parse_upload_session_id : String → Option String
parse_upload_session_id segment = behind upload_session_prefix segment

unfoldable pub upload_session_id_of : UploadSession → String
upload_session_id_of session = upload_session_prefix ++ˢ session.id

abbrev pub unknown_session : String → Failure
unknown_session id = graph (unknown_object_error (upload_session_prefix ++ˢ id))

-- a number of a request: a natural number, or one that is negative, a fraction or none
pub data Length : Type 0 where
  whole : ℕ → Length
  other : Length

-- `Number.MAX_SAFE_INTEGER`
abbrev max_safe_integer : ℕ
max_safe_integer = 9007199254740991

abbrev pub positive_length : Length → Option ℕ
positive_length (whole n) = if ltb 0 n && leb n max_safe_integer then some n else none
positive_length other = none

pub record CreateUploadSessionInput : Type 0 where
  pub app_id : String
  pub file_length : Length
  pub file_type : String
  pub file_name : Option String

-- `APP_ID_PATTERN`: /^\d{1,32}$/
abbrev pub is_app_id : String → Bool
is_app_id text = all_chars is_digit text && (leb 1 (text_length text) && leb (text_length text) 32)

abbrev pub named : Option String → Option String
named none = none
named (some name) = if name == "" then none else some name

-- `own_app_id` and `max_bytes` are options of the service; `fresh` is the id that was minted
unfoldable pub create_session :
    String
    → ℕ
    → String
    → String
    → CreateUploadSessionInput
    → Uploads
    → Failure ⊎ (Uploads × UploadSession)
create_session own_app_id max_bytes now fresh input s = do
  require (input.app_id == own_app_id || is_app_id input.app_id) (
      graph (
        invalid_parameter_error (
          "Param app id (" ++ˢ input.app_id
          ++ˢ ") must be a Meta app id, a string of 1-32 digits")))
  file_length ← or_raise (positive_length input.file_length) (
      graph (
        invalid_parameter_error
          "Param file_length must be a whole number of bytes greater than zero"))
  require (leb file_length max_bytes) (
      graph (
        invalid_parameter_error (
          "Param file_length must be at most "
          ++ˢ decimal max_bytes
          ++ˢ " bytes, the upload cap of this instance")))
  require (not (trim input.file_type == "")) (
      graph (
        invalid_parameter_error
          "Param file_type is required and must be a MIME type such as image/jpeg"))
  (sessions, session) ←
      or_raise
        (insert_session now
          (record {
            id = fresh;
            app_id = input.app_id;
            file_name = named input.file_name;
            file_type = trim input.file_type;
            file_length = file_length;
            created_at = some now;
          })
          s.sessions)
        constraint
  inr (record s { sessions = sessions }, session)

-- the offset that `status` reports
unfoldable pub status : String → Uploads → Failure ⊎ (String × ℕ)
unfolding upload_session_id_of
status id s = do
  session ← or_raise (find_session id s.sessions) (unknown_session id)
  inr (upload_session_id_of session, session.received_bytes)

-- `#stored`: the bytes so far; a file that is gone counts as empty
abbrev stored_under : Option String → ℕ → Files → Bytes
stored_under none received files = []
stored_under (some key) received files =
    if eqb received 0 then [] else get_or (get_object key none files) []

unfoldable pub stored : UploadSession → Files → Bytes
stored session files = stored_under session.storage_key session.received_bytes files

-- what an append mints and reads: a storage key, a handle, a token and the time
pub record Minted : Type 0 where
  pub key : String
  pub handle : String
  pub url_token : String
  pub now : String

abbrev pub minted_if : Bool → String → Option (Option String)
minted_if true text = some (some text)
minted_if false text = none

abbrev pub chunk_patch : Minted → Bool → StoredMedia → UpdateUploadSessionInput
chunk_patch minted is_complete media = record {
  received_bytes = some media.byte_size;
  handle = minted_if is_complete minted.handle;
  storage_key = some (some media.storage_key);
  sha256 = some (some media.sha256);
  url_token = minted_if is_complete minted.url_token;
  updated_at = some minted.now;
}

-- the checks of a chunk
unfoldable pub check_chunk : ℕ → Bytes → UploadSession → Failure ⊎ Unit {0}
check_chunk file_offset bytes session = do
  require (eqb file_offset session.received_bytes)
      (graph (invalid_upload_offset_error session.received_bytes file_offset))
  let received = session.received_bytes + length bytes
  require (leb received session.file_length)
      (graph (upload_too_long_error session.file_length received))

-- the write of the file, and then of the row
unfoldable pub store_file :
    (Bytes → String)
    → Minted
    → UploadSession
    → Bytes
    → Uploads
    → (Failure ⊎ UploadSession) × Uploads
store_file digest minted session combined s =
    let (files, media) = put_object digest minted.key combined session.storage_key s.files in
    let is_complete = leb session.file_length media.byte_size in
    elim (update_session minted.now session.id (chunk_patch minted is_complete media) s.sessions) [
      | none ↦ (inl constraint, record s { files = files })
      | some (sessions, updated) ↦ (
        or_raise updated (unknown_session session.id),
        record { sessions = sessions; files = files },
      )
    ]

unfoldable pub store_chunk :
    (Bytes → String)
    → Minted
    → UploadSession
    → Bytes
    → Uploads
    → (Failure ⊎ UploadSession) × Uploads
store_chunk digest minted session bytes s =
    store_file digest minted session (stored session s.files ++ bytes) s

-- a session that has its handle takes no chunk; what was written before a failure stays written
unfoldable pub append :
    (Bytes → String) → Minted → String → ℕ → Bytes → Uploads → (Failure ⊎ UploadSession) × Uploads
append digest minted id file_offset bytes s = elim (find_session id s.sessions) [
  | none ↦ (inl (unknown_session id), s)
  | some session ↦
      if is_some session.handle
      then (inr session, s)
      else elim (check_chunk file_offset bytes session) [
        | inl failure ↦ (inl failure, s)
        | inr _ ↦ store_chunk digest minted session bytes s
      ]
]

unfoldable pub find_by_handle : String → Uploads → Option UploadSession
find_by_handle handle s = find_session_by_handle handle s.sessions

unfoldable pub url : String → UploadSession → Option String
url public_url session = elim session.url_token [
  | none ↦ none
  | some token ↦ some (public_url ++ˢ "/whaloc-upload" ++ˢ "/" ++ˢ token)
]

pub record UploadDescriptor : Type 0 where
  pub handle : String
  pub url : String
  pub mime_type : String
  pub sha256 : String
  pub file_size : ℕ
  pub file_name : Option String
  pub created_at : String

abbrev describe : Option String → Option String → UploadSession → Option UploadDescriptor
describe (some url) (some handle) session = some (record {
  handle = handle;
  url = url;
  mime_type = session.file_type;
  sha256 = get_or session.sha256 "";
  file_size = session.received_bytes;
  file_name = session.file_name;
  created_at = session.created_at;
})
describe _ _ session = none

unfoldable pub descriptor : String → UploadSession → Option UploadDescriptor
descriptor public_url session = describe (url public_url session) session.handle session

-- `open`: `none` is `MediaObjectNotFoundError`
unfoldable pub open_upload : UploadSession → Option (ℕ × ℕ) → Files → Option Bytes
open_upload session range files = elim session.storage_key [
  | none ↦ none
  | some key ↦ get_object key range files
]
