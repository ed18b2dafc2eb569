-- ===== src/Database/Media.antt =====
-- packages/server/src/db/repositories/media-repository.ts: the table of media objects.
use whaloc.Base.{
  String, ℕ, List, [], ◌∷◌, ◌++◌, Bool, ◌||◌, Option, none, some, get_or, ◌==◌, if◌then◌else◌,
  is_some, find_by, remove, filter,
}
use whaloc.Database.{order_by_creation}

pub record MediaRecord : Type 0 where
  pub id : String
  pub phone_number_id : String
  pub mime_type : String
  pub sha256 : String
  pub file_size : ℕ
  pub storage_key : String
  pub url_token : String
  pub created_at : String

pub record InsertMediaInput : Type 0 where
  pub id : String
  pub phone_number_id : String
  pub mime_type : String
  pub sha256 : String
  pub file_size : ℕ
  pub storage_key : String
  pub url_token : String
  pub created_at : Option String

abbrev pub media_id : MediaRecord → String
media_id m = m.id

abbrev pub find_media : String → List MediaRecord → Option MediaRecord
find_media id table = find_by media_id id table

unfoldable pub find_by_url_token : String → List MediaRecord → Option MediaRecord
find_by_url_token token table = find_by (λ (m : MediaRecord). m.url_token) token table

abbrev new_media : String → InsertMediaInput → MediaRecord
new_media now input = record {
  id = input.id;
  phone_number_id = input.phone_number_id;
  mime_type = input.mime_type;
  sha256 = input.sha256;
  file_size = input.file_size;
  storage_key = input.storage_key;
  url_token = input.url_token;
  created_at = get_or input.created_at now;
}

-- `none` is an id, or a token of a URL, that is taken
unfoldable pub insert_media :
    String → InsertMediaInput → List MediaRecord → Option (List MediaRecord × MediaRecord)
unfolding find_by_url_token
insert_media now input table =
    if is_some (find_media input.id table) || is_some (find_by_url_token input.url_token table)
    then none
    else (let row = new_media now input in some (table ++ row ∷ [], row))

-- `listAll`
unfoldable pub list_media : List MediaRecord → List MediaRecord
list_media table = order_by_creation (λ m. m.created_at) media_id table

abbrev is_of_number : String → MediaRecord → Bool
is_of_number phone_number_id m = m.phone_number_id == phone_number_id

-- `listByPhoneNumberId`
unfoldable pub media_of_number : String → List MediaRecord → List MediaRecord
media_of_number phone_number_id table =
    order_by_creation (λ m. m.created_at) media_id (filter (is_of_number phone_number_id) table)

-- the table, and whether there was a row
unfoldable pub delete_media : String → List MediaRecord → List MediaRecord × Bool
delete_media id table = (remove media_id id table, is_some (find_media id table))
