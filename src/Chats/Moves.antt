-- ===== src/Chats/Moves.antt =====
-- packages/server/src/domain/contact-service.ts: a contact moves to a new number.
use whaloc.Base.{
  String, List, [], ◌∷◌, ◌++◌, false, not, none, some, inr, ℕ, ◌≡◌, arith, ◌==◌, is_some, map,
  require, or_raise, >>=-returns, require-returns, or_raise-returns, inr_injective, refl, subst,
}
use whaloc.Shared.Entities.{Contact}
use whaloc.Database.PhoneNumbers.{PhoneNumberRecord}
use whaloc.Contacts.{find_contact, others_of, moved_contact, move_message, change_wa_id}
use whaloc.Chats.{
  Chats, Notice, number_changes, NumberChange, targets_of, write_move, change_number,
}

-- what a number change that is not refused has written
pub record Moves (now w : String) (request : NumberChange) (c c' : Chats) (moved : Contact)
    : Type 0 where
  pub before : Contact
  pub found : find_contact w c.contacts ≡ some before
  pub other : (request.wa_id == w) ≡ false
  pub free : find_contact request.wa_id c.contacts ≡ none
  pub announced :
      (rest : List Notice) × (c'.notices
        ≡ c.notices ++ Notice.contact_changed moved (some w) ∷ rest)
  pub row : moved ≡ moved_contact now request.wa_id before
  pub contacts : c'.contacts ≡ others_of w c.contacts ++ moved ∷ []
  pub messages : c'.ladder.messages ≡ map (move_message w request.wa_id) c.ladder.messages

module _ (iso : ℕ → String) (wamid : ℕ → String → String) where
  write_move-Moves :
      (now : ℕ) (w : String) (request : NumberChange) (targets : List PhoneNumberRecord)
      (c c' : Chats) (moved before : Contact)
      → find_contact w c.contacts ≡ some before
      → (request.wa_id == w) ≡ false
      → find_contact request.wa_id c.contacts ≡ none
      → write_move iso wamid now w request.wa_id targets c ≡ inr (c', moved)
      → Moves (iso now) w request c c' moved
  unfolding write_move change_wa_id
  write_move-Moves now w request targets c c' moved before found other free h =
      let out = rw (write_move, change_wa_id, found, free) at h in
      record {
        before = before;
        found = found;
        other = other;
        free = free;
        announced =
            subst
              (λ o.
                (rest : List Notice) × (o.0.notices
                  ≡ c.notices ++ Notice.contact_changed o.1 (some w) ∷ rest))
              (inr_injective out)
              (
                number_changes wamid now 0 (moved_contact (iso now) request.wa_id before) w targets,
                refl,
              );
        row = ground (arith, out);
        contacts = ground (arith, out);
        messages = ground (arith, out);
      }

  pub change_number-Moves :
      (now : ℕ) (w : String) (request : NumberChange) (c c' : Chats) (moved : Contact)
      → change_number iso wamid now w request c ≡ inr (c', moved)
      → Moves (iso now) w request c c' moved
  unfolding change_number
  change_number-Moves now w request c c' moved h =
      let (e, found, h1) = >>=-returns (or_raise (find_contact w c.contacts) _) _ h in
      let (_, other, h2) = >>=-returns (require (not (request.wa_id == w)) _) _ h1 in
      let (_, free, h3) =
        >>=-returns (require (not (is_some (find_contact request.wa_id c.contacts))) _) _ h2 in
      let (targets, _, h4) = >>=-returns (targets_of w request.phone_number_id c) _ h3 in
      write_move-Moves now w request targets c c' moved e (or_raise-returns _ _ found)
        (ground (arith, require-returns _ _ other)) (ground (arith, require-returns _ _ free)) h4
