-- ===== src/Uploads/Content.antt =====
-- packages/server/src/domain/upload-service.ts: the bytes of a session, chunk by chunk.
use mathlib.Core.Option
use whaloc.Base.{
  String, ℕ, ◌+◌, ◌≤◌, List, [], ◌∷◌, ◌++◌, Bool, true, false, not, ◌&&◌, Option, none, some,
  get_or, ◌⊎◌, inl, inr, ◌≡◌, refl, sym, ap, ◌∙◌, ◌==◌, leb, is_some, any, map, get, put,
  get-put_same, find_by-map, length, length-append, arith, eq_refl, or_raise,
}
use whaloc.Failure.{Failure, constraint}
use whaloc.Storage.{Bytes, Files, put_object, get_object}
use whaloc.Uploads.Table.{
  UploadSession, UpdateUploadSessionInput, session_id, find_session, has_handle, has_token,
  is_taken, patched_session, write_session, update_session,
}
use whaloc.Uploads.{
  unknown_session, Uploads, Minted, chunk_patch, minted_if, stored, stored_under, store_file,
  store_chunk,
}

-- the bytes of a session are in its file, or it has none and no bytes
abbrev pub IsStored : Bytes → Option String → Files → Type 0
IsStored content none files = content ≡ []
IsStored content (some key) files = get key files ≡ some content

-- the session has received these bytes, and it has a handle where they are all
pub record Holds (content : Bytes) (session : UploadSession) (s : Uploads) : Type 0 where
  pub found : find_session session.id s.sessions ≡ some session
  pub received : session.received_bytes ≡ length content
  pub fits : length content ≤ session.file_length
  pub complete : is_some session.handle ≡ leb session.file_length (length content)
  pub kept : IsStored content session.storage_key s.files

-- no session has what was minted
pub record IsUnused (minted : Minted) (s : Uploads) : Type 0 where
  pub handle : any (has_handle minted.handle) s.sessions ≡ false
  pub token : any (has_token minted.url_token) s.sessions ≡ false

stored_lem :
    (content : Bytes) (session : UploadSession) (s : Uploads)
    → Holds content session s
    → stored session s.files ≡ content
unfolding stored get_object
stored_lem content session s h =
    stored_at content session.storage_key session.received_bytes h.received h.kept
  where
    stored_at :
        (content : Bytes) (key : Option String) (n : ℕ)
        → n ≡ length content
        → IsStored content key s.files
        → stored_under key n s.files ≡ content
    stored_at content none n e kept = sym kept
    stored_at [] (some key) n e kept = rw e refl
    stored_at (b ∷ content) (some key) n e kept = rw (e, kept) (ground arith)

any_others :
    (p : UploadSession → Bool) (id : String) (rows : List UploadSession)
    → any p rows ≡ false
    → any (λ r. not (r.id == id) && p r) rows ≡ false
any_others p id [] h = refl
any_others p id (r ∷ rows) h = ground (arith, any_others p id rows)

not_taken :
    (has : String → UploadSession → Bool) (id : String) (b : Bool) (text : String)
    (rows : List UploadSession)
    → any (has text) rows ≡ false
    → is_taken has id (minted_if b text) rows ≡ false
not_taken has id true text rows h = any_others (has text) id rows h
not_taken has id false text rows h = refl

module _ (digest : Bytes → String) (minted : Minted) (content bytes : Bytes)
    (session : UploadSession) (s : Uploads) (h : Holds content session s)
    (unused : IsUnused minted s) (room : length content + length bytes ≤ session.file_length) where
  abbrev pub whole : Bytes
  whole = content ++ bytes

  key : String
  key = get_or session.storage_key minted.key

  change : UpdateUploadSessionInput
  unfolding key
  change =
      chunk_patch minted (leb session.file_length (length whole))
        (record { storage_key = key; sha256 = digest whole; byte_size = length whole })

  pub grown : UploadSession
  unfolding change
  grown = patched_session minted.now change session

  pub after : Uploads
  unfolding change key
  after = record {
    sessions = map (write_session minted.now session.id change) s.sessions;
    files = put key whole s.files;
  }

  minted_lem : (b : Bool) → is_some (get_or (minted_if b minted.handle) none) ≡ b
  minted_lem true = refl
  minted_lem false = refl

  found-after : find_session session.id after.sessions ≡ some grown
  unfolding after grown
  found-after =
      find_by-map session_id (write_session minted.now session.id change) (λ r. ground arith)
        session.id s.sessions
      ∙ ap (Option.map (write_session minted.now session.id change)) h.found
      ∙ ap some (rw (eq_refl session.id) refl)

  length-whole : length whole ≡ length content + length bytes
  length-whole = length-append content bytes

  kept-after : IsStored whole grown.storage_key after.files
  unfolding grown after change
  kept-after = get-put_same key key whole s.files (eq_refl key)

  handle_free : is_taken has_handle session.id change.handle s.sessions ≡ false
  unfolding change
  handle_free =
      not_taken has_handle session.id (leb session.file_length (length whole)) minted.handle
        s.sessions unused.handle

  token_free : is_taken has_token session.id change.url_token s.sessions ≡ false
  unfolding change
  token_free =
      not_taken has_token session.id (leb session.file_length (length whole)) minted.url_token
        s.sessions unused.token

  updates :
      update_session minted.now session.id change s.sessions ≡ some (after.sessions, some grown)
  unfolding update_session after
  updates = rw (handle_free, token_free) (ap (λ o. some (after.sessions, o)) found-after)

  writes : store_file digest minted session (content ++ bytes) s ≡ (inr grown, after)
  unfolding store_file put_object put after change
  writes = ap written updates
    where
      written :
          Option (List UploadSession × Option UploadSession) → (Failure ⊎ UploadSession) × Uploads
      written none = (inl constraint, record s { files = after.files })
      written (some (sessions, updated)) = (
        or_raise updated (unknown_session session.id),
        record { sessions = sessions; files = after.files },
      )

  pub stores : store_chunk digest minted session bytes s ≡ (inr grown, after)
  unfolding store_chunk
  stores =
      ap (λ c. store_file digest minted session (c ++ bytes) s) (stored_lem content session s h)
      ∙ writes

  complete-after :
      session.handle ≡ none → is_some grown.handle ≡ leb grown.file_length (length whole)
  unfolding grown change
  complete-after unfinished = rw unfinished (minted_lem (leb session.file_length (length whole)))

  pub Holds-after : session.handle ≡ none → Holds whole grown after
  unfolding grown change
  Holds-after unfinished = record {
    found = found-after;
    received = refl;
    fits = omega (arith, length-whole, room);
    complete = complete-after unfinished;
    kept = kept-after;
  }

  pub kept-grown : (grown.id ≡ session.id) × (grown.file_length ≡ session.file_length)
  unfolding grown
  kept-grown = (refl, refl)
