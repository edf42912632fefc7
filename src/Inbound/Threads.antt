-- ===== src/Inbound/Threads.antt =====
-- `findOrCreateConversation` of apps/api/src/channels/channels.service.ts. `none` is a violated unique
-- constraint.
use autonomous_csa.Base.{
  ℕ, ◌+◌, Bool, true, false, ◌&&◌, List, [], ◌∷◌, ◌++◌, Option, none, some, Text, codes, ◌==◌, any,
  find_first, if◌then◌else◌,
}
use autonomous_csa.Inbound.Defs.{Conversation, open_conversation, InboundDb, truthy, same_key}

pub record ConversationInput : Type 0 where
  pub org_id : ℕ
  pub channel_connection_id : ℕ
  pub customer_id : ℕ
  pub provider_thread_id : Option Text
  pub provider_message_id : Option Text
  pub in_reply_to : Option Text
  pub references : List Text
  pub subject : Option Text

-- The conversation, and whether it was created.
pub record FoundConversation : Type 0 where
  pub conversation : Conversation
  pub created : Bool

abbrev pub is_thread : ℕ → ℕ → Option Text → Conversation → Bool
is_thread org_id channel_connection_id thread c =
    c.organization_id == org_id
    && c.channel_connection_id == channel_connection_id
    && same_key c.external_thread_id thread

abbrev pub new_conversation : ConversationInput → Option Text → ℕ → Conversation
new_conversation input thread id = record {
  id = id;
  organization_id = input.org_id;
  channel_connection_id = input.channel_connection_id;
  external_customer_id = some input.customer_id;
  ticket_id = none;
  external_thread_id = thread;
  subject = input.subject;
  status = open_conversation;
  last_message_at = none;
}

-- `conversation.create`: at most one for each thread of a connection.
unfoldable pub create_conversation :
    ConversationInput → Option Text → InboundDb → Option (InboundDb × FoundConversation)
create_conversation input thread db =
    let row = new_conversation input thread db.next_id in
    if any (is_thread input.org_id input.channel_connection_id thread) db.conversations
    then none
    else some (
      record db { next_id = db.next_id + 1; conversations = row ∷ db.conversations },
      record { conversation = row; created = true },
    )

abbrev pub found_conversation : Conversation → FoundConversation
found_conversation c = record { conversation = c; created = false }

-- The conversation of the first message that one of these identifiers names. A foreign key makes the
-- look-up of the conversation total.
unfoldable pub find_referenced : ℕ → List Text → InboundDb → Option Conversation
find_referenced channel_connection_id [] db = none
find_referenced channel_connection_id (id ∷ ids) db =
    let rest = find_referenced channel_connection_id ids db in
    elim (find_first
      (λ m.
        m.channel_connection_id == channel_connection_id
        && same_key m.provider_message_id (some id))
      db.messages) [
        | none ↦ rest
        | some message ↦ find_first (λ c. c.id == message.conversation_id) db.conversations
      ]

-- `.filter(Boolean)`.
unfoldable pub truthy_texts : List (Option Text) → List Text
truthy_texts [] = []
truthy_texts (t ∷ ts) =
    let rest = truthy_texts ts in elim (truthy t) [ none ↦ rest | some s ↦ s ∷ rest ]

unfoldable pub some_texts : List Text → List (Option Text)
some_texts [] = []
some_texts (t ∷ ts) = some t ∷ some_texts ts

abbrev pub message_thread : Option Text → Option Text
message_thread none = none
message_thread (some id) = some (codes "message:" ++ id)

-- The branch of a message that names its thread, and of one that does not.
unfoldable pub find_or_create_thread :
    ConversationInput → Text → InboundDb → Option (InboundDb × FoundConversation)
unfolding create_conversation
find_or_create_thread input thread db =
    elim (find_first (is_thread input.org_id input.channel_connection_id (some thread))
      db.conversations) [
        | some c ↦ some (db, found_conversation c)
        | none ↦ create_conversation input (some thread) db
      ]

unfoldable pub find_or_create_reply :
    ConversationInput → InboundDb → Option (InboundDb × FoundConversation)
unfolding create_conversation find_referenced truthy_texts some_texts
find_or_create_reply input db =
    elim (find_referenced input.channel_connection_id
      (truthy_texts (input.in_reply_to ∷ some_texts input.references)) db) [
        | some c ↦ some (db, found_conversation c)
        | none ↦ create_conversation input (message_thread (truthy input.provider_message_id)) db
      ]

unfoldable pub find_or_create_conversation :
    ConversationInput → InboundDb → Option (InboundDb × FoundConversation)
unfolding find_or_create_thread find_or_create_reply
find_or_create_conversation input db = elim (truthy input.provider_thread_id) [
  | some thread ↦ find_or_create_thread input thread db
  | none ↦ find_or_create_reply input db
]
