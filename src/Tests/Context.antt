-- ===== src/Tests/Context.antt =====
-- Excerpts of conversations.
use north.Common.{◌≡◌, ◌≤◌, refl, String, [], ◌∷◌, ◌++◌, false, ok, err, is_blank, arith, u64_max}
use north.Server.Context.{
  ConversationRole, ConversationMessageSnapshot, select_conversation_excerpt,
  start_message_not_found,
}
use north.Server.Context.Excerpt.{Messages, bytes_of, IsExcerpt}
use north.Server.Context.Excerpt.Start.{select_conversation_excerpt-IsExcerpt}

abbrev message : String → ConversationMessageSnapshot
message id = record { message_id = id; role = ConversationRole.requester; content = "text" }

abbrev ten : Messages
ten =
    message "a"
    ∷ message "b"
    ∷ message "c"
    ∷ message "d"
    ∷ message "e"
    ∷ message "f"
    ∷ message "g"
    ∷ message "h"
    ∷ message "i"
    ∷ message "j"
    ∷ []

abbrev fifty : Messages
fifty = ten ++ (ten ++ (ten ++ (ten ++ ten)))

-- Of 52 messages, the two oldest behind the start message are dropped.
drops_oldest :
    select_conversation_excerpt (message "s" ∷ message "x" ∷ fifty) "s"
    ≡ ok (
        message "s"
          ∷ (message "b"
              ∷ message "c"
              ∷ message "d"
              ∷ message "e"
              ∷ message "f"
              ∷ message "g"
              ∷ message "h"
              ∷ message "i"
              ∷ message "j"
              ∷ [])
        ++ (ten ++ (ten ++ (ten ++ ten))))
unfolding select_conversation_excerpt north.Common.byte_len is_blank
drops_oldest = refl

no_start : select_conversation_excerpt ten "s" ≡ err start_message_not_found
unfolding select_conversation_excerpt is_blank
no_start = refl

named : is_blank "s" ≡ false
unfolding is_blank
named = refl

abbrev early : Messages
early = message "x" ∷ message "y" ∷ []

few_bytes : bytes_of (early ++ (message "s" ∷ fifty)) ≤ u64_max
unfolding north.Common.byte_len
few_bytes = omega arith

select_conversation_excerpt-IsExcerpt_example :
    (excerpt : Messages) × (select_conversation_excerpt (early ++ (message "s" ∷ fifty)) "s"
      ≡ ok excerpt)
    × IsExcerpt early (message "s") fifty excerpt
select_conversation_excerpt-IsExcerpt_example =
    select_conversation_excerpt-IsExcerpt early (message "s") fifty named (refl, (refl, tt))
      few_bytes
