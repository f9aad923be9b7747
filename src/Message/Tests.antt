-- ===== src/Message/Tests.antt =====
-- Tests of the message manager.
use world_engine.Base.{ℕ, String, List, [], ◌∷◌, ◌≡◌, ◌↔◌, some, none, refl, true, false}
use world_engine.Message.{
  Message, new_message_manager, register_message, get_message_by_id, get_message_by_full_name,
}
use world_engine.Base.GoMap.{lookup, insert}
use world_engine.Message.Registry.{register_all, get_message_by_id-get_message_by_full_name}

abbrev message : String → Message
message full_name = record { is_id_set = false; id = 0; full_name = full_name }

abbrev messages : List (Message × ℕ)
messages =
    (message "game.attack", 10) ∷ (message "game.move", 11) ∷ (message "game.attack", 12) ∷ []

abbrev move : Message
move = record { is_id_set = true; id = 2; full_name = "game.move" }

get_message_by_id-get_message_by_full_name_example :
    let m = register_all messages new_message_manager in
    (get_message_by_id 2 m ≡ some move)
    ↔ ((get_message_by_full_name move.full_name m ≡ some move) × (move.id ≡ 2))
get_message_by_id-get_message_by_full_name_example =
    get_message_by_id-get_message_by_full_name messages 2 move

no_third : get_message_by_id 3 (register_all messages new_message_manager) ≡ none
unfolding get_message_by_id register_message lookup insert new_message_manager
no_third = refl
