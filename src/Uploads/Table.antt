-- ===== src/Uploads/Table.antt =====
-- packages/server/src/db/repositories/upload-session-repository.ts: the table of upload sessions. A
-- row is kept as the record that it decodes to.
use whaloc.Base.{
  String, ℕ, List, [], ◌∷◌, ◌++◌, Bool, false, ◌&&◌, ◌||◌, not, Option, none, some, get_or, ◌==◌,
  if◌then◌else◌, is_some, same_text, find, find_by, any, map,
}
use whaloc.Database.{order_by_creation}

pub record UploadSession : Type 0 where
  pub id : String
  pub app_id : String
  pub file_name : Option String
  pub file_type : String
  pub file_length : ℕ
  pub received_bytes : ℕ
  pub handle : Option String
  pub storage_key : Option String
  pub sha256 : Option String
  pub url_token : Option String
  pub created_at : String
  pub updated_at : String

pub record InsertUploadSessionInput : Type 0 where
  pub id : String
  pub app_id : String
  pub file_name : Option String
  pub file_type : String
  pub file_length : ℕ
  pub created_at : Option String

-- a field that is `some none` is cleared
pub record UpdateUploadSessionInput : Type 0 where
  pub received_bytes : Option ℕ
  pub handle : Option (Option String)
  pub storage_key : Option (Option String)
  pub sha256 : Option (Option String)
  pub url_token : Option (Option String)
  pub updated_at : Option String

abbrev pub session_id : UploadSession → String
session_id s = s.id

abbrev pub find_session : String → List UploadSession → Option UploadSession
find_session id table = find_by session_id id table

abbrev pub has_handle : String → UploadSession → Bool
has_handle handle s = same_text s.handle (some handle)

abbrev pub has_token : String → UploadSession → Bool
has_token token s = same_text s.url_token (some token)

unfoldable pub find_session_by_handle : String → List UploadSession → Option UploadSession
find_session_by_handle handle table = find (has_handle handle) table

unfoldable pub find_session_by_token : String → List UploadSession → Option UploadSession
find_session_by_token token table = find (has_token token) table

unfoldable pub new_session : String → InsertUploadSessionInput → UploadSession
new_session clock input =
    let now = get_or input.created_at clock in
    record {
      id = input.id;
      app_id = input.app_id;
      file_name = input.file_name;
      file_type = input.file_type;
      file_length = input.file_length;
      received_bytes = 0;
      handle = none;
      storage_key = none;
      sha256 = none;
      url_token = none;
      created_at = now;
      updated_at = now;
    }

-- `none` is a primary key that is taken
unfoldable pub insert_session :
    String
    → InsertUploadSessionInput
    → List UploadSession
    → Option (List UploadSession × UploadSession)
insert_session clock input table =
    if is_some (find_session input.id table)
    then none
    else (let row = new_session clock input in some (table ++ row ∷ [], row))

abbrev pub patched_session : String → UpdateUploadSessionInput → UploadSession → UploadSession
patched_session clock input s = record s {
  received_bytes = get_or input.received_bytes s.received_bytes;
  handle = get_or input.handle s.handle;
  storage_key = get_or input.storage_key s.storage_key;
  sha256 = get_or input.sha256 s.sha256;
  url_token = get_or input.url_token s.url_token;
  updated_at = get_or input.updated_at clock;
}

abbrev pub write_session :
    String → String → UpdateUploadSessionInput → UploadSession → UploadSession
write_session clock id input s = if s.id == id then patched_session clock input s else s

-- another session has the text in a column that is unique
abbrev pub is_taken :
    (String → UploadSession → Bool) → String → Option (Option String) → List UploadSession → Bool
is_taken has id (some (some text)) table = any (λ s. not (s.id == id) && has text s) table
is_taken has id _ table = false

-- `none` is a handle, or a token of a URL, that another session has
unfoldable pub update_session :
    String
    → String
    → UpdateUploadSessionInput
    → List UploadSession
    → Option (List UploadSession × Option UploadSession)
update_session clock id input table =
    if is_taken has_handle id input.handle table || is_taken has_token id input.url_token table
    then none
    else (let table' = map (write_session clock id input) table in
        some (table', find_session id table'))

-- `listAll`
unfoldable pub list_sessions : List UploadSession → List UploadSession
list_sessions table = order_by_creation (λ s. s.created_at) session_id table
