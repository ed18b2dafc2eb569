-- ===== src/Storage.antt =====
-- packages/server/src/storage/local-dir-storage.ts: the files of the media directory, by their
-- storage key. A byte is a number.
use mathlib.Core.Option
use whaloc.Base.{
  String, ℕ, ◌+◌, ◌-◌, List, Option, none, some, get_or, Assoc, get, put, delete, length, drop,
  take,
}

abbrev pub Bytes : Type 0
Bytes = List ℕ

abbrev pub Files : Type 0
Files = Assoc Bytes

pub record StoredMedia : Type 0 where
  pub storage_key : String
  pub sha256 : String
  pub byte_size : ℕ

-- `digest` is the base64 SHA-256 of the bytes; `fresh` is the key that was minted
unfoldable pub put_object :
    (Bytes → String) → String → Bytes → Option String → Files → Files × StoredMedia
put_object digest fresh bytes key files =
    let storage_key = get_or key fresh in
    (
      put storage_key bytes files,
      record { storage_key = storage_key; sha256 = digest bytes; byte_size = length bytes },
    )

abbrev slice : Option (ℕ × ℕ) → Bytes → Bytes
slice none bytes = bytes
slice (some (from, to)) bytes = take (to + 1 - from) (drop from bytes)

-- the bytes in an inclusive range; `none` is `MediaObjectNotFoundError`
unfoldable pub get_object : String → Option (ℕ × ℕ) → Files → Option Bytes
get_object key range files = Option.map (slice range) (get key files)

-- deleting what is not there is no error
unfoldable pub delete_object : String → Files → Files
delete_object key files = delete key files
