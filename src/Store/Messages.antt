-- ===== src/Store/Messages.antt =====
-- packages/web/src/store/reducer.ts: merging messages into a conversation.
pub mod Merging
use whaloc.Base.{
  String, List, [], ◌∷◌, ◌++◌, Option, none, some, ℕ, Ordering, ◌==◌, if◌then◌else◌, ltb,
  find_index?, find_by, has_key, place, to_sorted, text_lt,
}
use whaloc.Shared.Common.{MessageStatus, accepted, sent, delivered, read, failed}
use whaloc.Shared.Entities.{Message}

-- `MESSAGE_STATUSES.indexOf(status)`
unfoldable pub status_rank : MessageStatus → ℕ
status_rank accepted = 0
status_rank sent = 1
status_rank delivered = 2
status_rank read = 3
status_rank failed = 4

unfoldable pub compare_messages : Message → Message → Ordering
compare_messages a b =
    if a.timestamp == b.timestamp
    then (if a.created_at == b.created_at
        then (if text_lt a.id b.id
            then Ordering.lt
            else if text_lt b.id a.id
            then Ordering.gt
            else Ordering.eq)
        else if text_lt a.created_at b.created_at
        then Ordering.lt
        else Ordering.gt)
    else if text_lt a.timestamp b.timestamp
    then Ordering.lt
    else Ordering.gt

abbrev pub message_id : Message → String
message_id m = m.id

unfoldable pub insert_message : List Message → Message → List Message
insert_message messages message =
    place (find_index? (has_key message_id message.id) messages) message messages
      (to_sorted compare_messages (messages ++ message ∷ []))

unfoldable pub merge_status : Message → Message → Message
unfolding status_rank
merge_status current incoming =
    if ltb (status_rank incoming.status) (status_rank current.status) then current else incoming

unfoldable pub merge_into : List Message → Message → Message
merge_into messages message = elim (find_by message_id message.id messages) [
  | none ↦ message
  | some current ↦ merge_status current message
]

-- the loop of `messages/loaded`
unfoldable pub merge_page : List Message → List Message → List Message
merge_page merged [] = merged
merge_page merged (message ∷ rest) =
    merge_page (insert_message merged (merge_into merged message)) rest
