-- ===== src/MessageTable/Conversations.antt =====
-- packages/server/src/db/repositories/message-repository.ts: the conversations that the table of
-- messages holds. SQL leaves open in what order conversations with one last time come; here the
-- one whose first row is older comes first.
use Prim.Native.Nat.{Ordering}
use Prim.Native.String.{compare}
use whaloc.Base.{
  String, List, [], ◌∷◌, Bool, true, ◌&&◌, Option, none, some, ℕ, ◌+◌, ◌==◌, if◌then◌else◌, filter,
  text_lt, to_sorted,
}
use whaloc.Shared.Entities.{Message}

pub record ConversationSummary : Type 0 where
  pub phone_number_id : String
  pub contact_wa_id : String
  pub message_count : ℕ
  pub last_message_at : String

abbrev pub is_in : String → String → Message → Bool
is_in phone_number_id wa_id m = m.phone_number_id == phone_number_id && m.contact_wa_id == wa_id

-- a row with its group, which has one row less, or is new
unfoldable pub count_row : Message → List ConversationSummary → List ConversationSummary
count_row m [] =
    record {
      phone_number_id = m.phone_number_id;
      contact_wa_id = m.contact_wa_id;
      message_count = 1;
      last_message_at = m.timestamp;
    }
    ∷ []
count_row m (s ∷ ss) =
    let rest = count_row m ss in
    if is_in s.phone_number_id s.contact_wa_id m
    then record s {
      message_count = s.message_count + 1;
      last_message_at =
          if text_lt s.last_message_at m.timestamp then m.timestamp else s.last_message_at;
    }
      ∷ ss
    else s ∷ rest

group_rows : List ConversationSummary → List Message → List ConversationSummary
unfolding count_row
group_rows groups [] = groups
group_rows groups (m ∷ ms) = group_rows (count_row m groups) ms

abbrev by_last_message : ConversationSummary → ConversationSummary → Ordering
by_last_message s t = compare t.last_message_at s.last_message_at

abbrev is_sent_to : Option String → Message → Bool
is_sent_to none m = true
is_sent_to (some phone_number_id) m = m.phone_number_id == phone_number_id

unfoldable pub list_conversations : Option String → List Message → List ConversationSummary
unfolding group_rows
list_conversations phone_number_id table =
    to_sorted by_last_message (group_rows [] (filter (is_sent_to phone_number_id) table))
