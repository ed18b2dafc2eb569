-- ===== src/Uploads/Resume.antt =====
-- packages/server/src/domain/upload-service.ts: an upload from the first chunk to the last.
use whaloc.Base.{
  String, ℕ, ◌+◌, ◌≤◌, ◌<◌, List, [], ◌∷◌, ◌++◌, Bool, true, ◌||◌, none, some, ◌⊎◌, inl, inr, ◌≡◌,
  refl, sym, ap, ◌∙◌, subst, ◌==◌, if◌then◌else◌, Option-cases, is_some, find_by-append_new, length,
  length-append, append-nil, append_assoc, arith, eq_refl, or_raise, or_raise-returns, require,
  >>=-returns, get, trim,
}
use whaloc.Failure.{Failure}
use whaloc.Storage.{Bytes, Files, get_object}
use whaloc.Uploads.Table.{UploadSession, session_id, find_session, insert_session, new_session}
use whaloc.Uploads.{
  Uploads, Minted, CreateUploadSessionInput, Length, positive_length, named, is_app_id,
  create_session, check_chunk, append, open_upload, status, upload_session_id_of,
}
use whaloc.Uploads.Content.{
  IsStored, Holds, IsUnused, grown, after, stores, kept-grown, Holds-after,
}

-- the offset at which a client carries on
abbrev reported : Failure ⊎ (String × ℕ) → ℕ
reported (inl failure) = 0
reported (inr (id, offset)) = offset

abbrev pub offset_of : String → Uploads → ℕ
offset_of id s = reported (status id s)

-- chunks that are sent one after the other, each at the offset that is reported then
abbrev pub send : (Bytes → String) → String → List (Minted × Bytes) → Uploads → Uploads
send digest id [] s = s
send digest id ((minted, bytes) ∷ chunks) s =
    send digest id chunks (append digest minted id (offset_of id s) bytes s).1

abbrev pub joined : List (Minted × Bytes) → Bytes
joined [] = []
joined ((minted, bytes) ∷ chunks) = bytes ++ joined chunks

-- what is minted is never in use
abbrev pub AllUnused : (Bytes → String) → String → List (Minted × Bytes) → Uploads → Type 0
AllUnused digest id [] s = Unit
AllUnused digest id ((minted, bytes) ∷ chunks) s =
    IsUnused minted s
    × AllUnused digest id chunks (append digest minted id (offset_of id s) bytes s).1

-- the session as it is afterwards
pub record Grown (content : Bytes) (session : UploadSession) (s : Uploads) : Type 0 where
  pub now : UploadSession
  pub holds : Holds content now s
  pub same : now.id ≡ session.id
  pub promised : now.file_length ≡ session.file_length

nothing : (bytes : Bytes) → length bytes ≡ 0 → bytes ≡ []
nothing [] h = refl
nothing (b ∷ bytes) h = absurd (omega (arith, h))

offset_lem :
    (content : Bytes) (session : UploadSession) (s : Uploads)
    → Holds content session s
    → offset_of session.id s ≡ length content
unfolding status upload_session_id_of
offset_lem content session s h = rw h.found h.received

checks :
    (content bytes : Bytes) (session : UploadSession) (s : Uploads)
    → Holds content session s
    → length content + length bytes ≤ session.file_length
    → check_chunk (length content) bytes session ≡ inr tt
unfolding check_chunk
checks content bytes session s h room = ground (arith, h.received, room)

module _ (digest : Bytes → String) (minted : Minted) (content bytes : Bytes)
    (session : UploadSession) (s : Uploads) (h : Holds content session s)
    (unused : IsUnused minted s) (room : length content + length bytes ≤ session.file_length) where
  append-unfinished :
      session.handle ≡ none
      → append digest minted session.id (length content) bytes s ≡ (
        inr (grown digest minted content bytes session s h unused room),
        after digest minted content bytes session s h unused room,
      )
  unfolding append check_chunk
  append-unfinished unfinished =
      rw (append, h.found, unfinished, checks content bytes session s h room)
        (stores digest minted content bytes session s h unused room)

  append-finished :
      (handle : String)
      → session.handle ≡ some handle
      → append digest minted session.id (length content) bytes s ≡ (inr session, s)
  unfolding append
  append-finished handle finished = rw (append, h.found, finished) refl

  -- a finished session has room for nothing
  no_room : (handle : String) → session.handle ≡ some handle → content ++ bytes ≡ content
  no_room handle finished =
      let over : session.file_length ≤ length content = ground (arith, h.complete, finished) in
      ap (λ b. content ++ b) (nothing bytes (omega (arith, over, room))) ∙ append-nil content

  append-Grown :
      Grown (content ++ bytes) session (append digest minted session.id (length content) bytes s).1
  append-Grown = elim (Option-cases session.handle) [
    | inl unfinished ↦ rw (append-unfinished unfinished) (record {
      now = grown digest minted content bytes session s h unused room;
      holds = Holds-after digest minted content bytes session s h unused room unfinished;
      same = (kept-grown digest minted content bytes session s h unused room).0;
      promised = (kept-grown digest minted content bytes session s h unused room).1;
    })
    | inr (handle, finished) ↦
        rw (append-finished handle finished, no_room handle finished)
          (record { now = session; holds = h; same = refl; promised = refl })
  ]

pub send-Grown :
    (digest : Bytes → String) (chunks : List (Minted × Bytes)) (content : Bytes)
    (session : UploadSession) (s : Uploads)
    → Holds content session s
    → AllUnused digest session.id chunks s
    → length content + length (joined chunks) ≤ session.file_length
    → Grown (content ++ joined chunks) session (send digest session.id chunks s)
send-Grown digest [] content session s h unused room =
    rw (append-nil content) (record { now = session; holds = h; same = refl; promised = refl })
send-Grown digest ((minted, bytes) ∷ chunks) content session s h (unused, later) room =
    let offset = offset_lem content session s h in
    let split = length-append bytes (joined chunks) in
    let split' = length-append content bytes in
    let g =
      append-Grown digest minted content bytes session s h unused (omega (arith, room, split)) in
    let t = (append digest minted session.id (length content) bytes s).1 in
    let rest =
      send-Grown digest chunks (content ++ bytes) g.now t g.holds (rw (g.same, ← offset) later)
        (rw g.promised (omega (arith, room, split, split'))) in
    rw (← append_assoc content bytes (joined chunks), offset)
      (record {
        now = rest.now;
        holds =
            subst (λ k. Holds (content ++ bytes ++ joined chunks) rest.now (send digest k chunks t))
              g.same rest.holds;
        same = rest.same ∙ g.same;
        promised = rest.promised ∙ g.promised;
      })

module _ (own_app_id : String) (max_bytes : ℕ) (now fresh : String)
    (input : CreateUploadSessionInput) (s : Uploads) (o : Uploads × UploadSession)
    (e : create_session own_app_id max_bytes now fresh input s ≡ inr o) where
  -- the row of a session that is opened, with the length that was asked for
  row_of : ℕ → UploadSession
  row_of n = new_session now (record {
    id = fresh;
    app_id = input.app_id;
    file_name = named input.file_name;
    file_type = trim input.file_type;
    file_length = n;
    created_at = some now;
  })

  opened :
      (n : ℕ) × (0 < n)
      × (find_session fresh s.sessions ≡ none)
      × (o ≡ (record s { sessions = s.sessions ++ row_of n ∷ [] }, row_of n))
  unfolding create_session insert_session row_of
  opened =
      let (_, _, e1) =
        >>=-returns (require (input.app_id == own_app_id || is_app_id input.app_id) _) _ e in
      let (n, positive, e2) = >>=-returns (or_raise (positive_length input.file_length) _) _ e1 in
      (
        n,
        positive_lem input.file_length n (or_raise-returns _ _ positive),
        ground (arith, e2),
        ground (arith, e2),
      )
    where
      positive_lem : (l : Length) (n : ℕ) → positive_length l ≡ some n → 0 < n
      positive_lem (Length.whole m) n h = ground (arith, h)
      positive_lem Length.other n h = absurd (ground (arith, h))

  new-Holds :
      (n : ℕ)
      → 0 < n
      → find_session fresh s.sessions ≡ none
      → Holds [] (row_of n) (record s { sessions = s.sessions ++ row_of n ∷ [] })
  unfolding row_of new_session
  new-Holds n positive new = record {
    found =
        find_by-append_new session_id fresh s.sessions (row_of n) new
        ∙ ap (λ (b : Bool). if b then some (row_of n) else find_session fresh s.sessions)
            (eq_refl fresh);
    received = refl;
    fits = omega arith;
    complete = ground (arith, positive);
    kept = refl;
  }

  opened-Holds : Holds [] o.1 o.0 × (0 < o.1.file_length)
  unfolding row_of new_session
  opened-Holds =
      let (n, positive, new, same) = opened in
      subst (λ (p : Uploads × UploadSession). Holds [] p.1 p.0 × (0 < p.1.file_length)) (sym same)
        (new-Holds n positive new, positive)

  opens :
      (content : Bytes) (session : UploadSession) (files : Files)
      → 0 < length content
      → IsStored content session.storage_key files
      → open_upload session none files ≡ some content
  unfolding open_upload get_object
  opens content session files some_bytes kept = elim (Option-cases session.storage_key) [
    | inl keyless ↦
        let empty : content ≡ [] = rw keyless at kept in
        absurd (omega (arith, some_bytes, ap length empty))
    | inr (key, keyed) ↦
        let file : get key files ≡ some content = rw keyed at kept in rw (keyed, file) refl
  ]

  -- After a session is opened and chunks that make up the promised length are sent one after the
  -- other, each at the offset that is reported then, and where nothing that is minted is in use, the
  -- session has a handle and opening it gives the chunks joined in order.
  pub open_upload-send :
      (digest : Bytes → String) (chunks : List (Minted × Bytes))
      → AllUnused digest o.1.id chunks o.0
      → length (joined chunks) ≡ o.1.file_length
      → (done : UploadSession) × (find_session o.1.id (send digest o.1.id chunks o.0).sessions
          ≡ some done)
        × (is_some done.handle ≡ true)
        × (open_upload done none (send digest o.1.id chunks o.0).files ≡ some (joined chunks))
  open_upload-send digest chunks unused all =
      let (h, positive) = opened-Holds in
      let g = send-Grown digest chunks [] o.1 o.0 h unused (omega (arith, all)) in
      let t = send digest o.1.id chunks o.0 in
      (
        g.now,
        subst (λ k. find_session k t.sessions ≡ some g.now) g.same g.holds.found,
        ground (arith, g.holds.complete, g.promised, all),
        opens (joined chunks) g.now t.files (omega (arith, positive, all)) g.holds.kept,
      )
