-- ===== src/Shared/Conversation/Tests.antt =====
-- Conversation ids of one number and one contact.
use text.Mathlib.TextEquality.{eq_iff}
use whaloc.Base.{some, ◌≡◌, arith}
use whaloc.Shared.Conversation.{conversation_id, parse_conversation_id}
use whaloc.Shared.Conversation.Laws.{parse_conversation_id-conversation_id}

parse_conversation_id-conversation_id_example :
    parse_conversation_id (conversation_id "12" "5.5") ≡ some ("12", "5.5")
parse_conversation_id-conversation_id_example =
    parse_conversation_id-conversation_id "12" "5.5" (omega arith, (omega arith, tt))
      (λ e. cc ((eq_iff "12" "").1 e)) (λ e. cc ((eq_iff "5.5" "").1 e))
