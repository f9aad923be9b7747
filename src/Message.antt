-- ===== src/Message.antt =====
-- cardinal/message_manager.go, and SetID of cardinal/message.go: the messages of a world, by full
-- name and by their Go type, which is known by a number here. The manager and its caller share the
-- message object, so that RegisterMessage also returns the object as it is left.
pub mod Registry
pub mod Tests
use world_engine.Base.{
  ℕ, ◌+◌, String, List, [], ◌∷◌, Bool, true, false, Option, none, some, is_some, nat_eq, string_eq,
  ◌==◌, if◌then◌else◌, ◌||◌,
}
use world_engine.Base.GoMap.{GoMap, lookup, insert, values}
use world_engine.Base.Exec.{Result, ok, err}

pub data MessageError : Type 0 where
  message_is_already_registered failed_to_set_id : MessageError

pub record Message : Type 0 where
  pub is_id_set : Bool
  pub id : ℕ
  pub full_name : String

unfoldable pub set_id : ℕ → Message → Result MessageError Message
set_id id t =
    if t.is_id_set
    then (if id == t.id then ok t else err failed_to_set_id)
    else ok (record t { id = id; is_id_set = true })

pub record MessageManager : Type 0 where
  pub registered_messages : GoMap String Message
  pub registered_messages_by_type : GoMap ℕ Message
  pub next_message_id : ℕ

unfoldable pub new_message_manager : MessageManager
new_message_manager = record {
  registered_messages = [];
  registered_messages_by_type = [];
  next_message_id = 1;
}

-- The two checks that errors.Join joins: an error if one of them fails.
abbrev pub is_taken : String → ℕ → MessageManager → Bool
is_taken full_name msg_type m =
    is_some (lookup full_name m.registered_messages)
    || is_some (lookup msg_type m.registered_messages_by_type)

abbrev pub added :
    ℕ → Result MessageError Message → MessageManager → Result MessageError Message × MessageManager
added msg_type (err error) m = (err error, m)
added msg_type (ok msg) m = (
  ok msg,
  record {
    registered_messages = insert msg.full_name msg m.registered_messages;
    registered_messages_by_type = insert msg_type msg m.registered_messages_by_type;
    next_message_id = m.next_message_id + 1;
  },
)

unfoldable pub register_message :
    Message → ℕ → MessageManager → Result MessageError Message × MessageManager
unfolding set_id
register_message msg msg_type m =
    if is_taken msg.full_name msg_type m
    then (err message_is_already_registered, m)
    else added msg_type (set_id m.next_message_id msg) m

unfoldable pub get_registered_messages : MessageManager → List Message
get_registered_messages m = values m.registered_messages

-- The first with this ID, in the order in which the map is gone through.
unfoldable pub find_message : ℕ → GoMap String Message → Option Message
find_message id [] = none
find_message id ((name, msg) ∷ rest) =
    let later = find_message id rest in if id == msg.id then some msg else later

unfoldable pub get_message_by_id : ℕ → MessageManager → Option Message
unfolding find_message
get_message_by_id id m = find_message id m.registered_messages

unfoldable pub get_message_by_full_name : String → MessageManager → Option Message
get_message_by_full_name full_name m = lookup full_name m.registered_messages

unfoldable pub get_message_by_type : ℕ → MessageManager → Option Message
get_message_by_type msg_type m = lookup msg_type m.registered_messages_by_type
