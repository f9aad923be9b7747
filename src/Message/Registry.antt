-- ===== src/Message/Registry.antt =====
-- The IDs that message_manager.go gives to messages.
use world_engine.Base.{
  ℕ, ◌<◌, String, List, [], ◌∷◌, true, some, is_some, nat_eq, string_eq, ◌==◌, ◌≡◌, sym, subst, ◌∙◌,
  arith, count, Bool-cases, Option-cases, contains_iff_count, ◌↔◌, inl, inr,
}
use text.Mathlib.TextEquality.{eq_iff}
use world_engine.Base.GoMap.{GoMap, lookup, lookup-insert, keys, IsMap, insert-IsMap, contains-keys}
use world_engine.Base.Exec.{ok, Result-cases}
use world_engine.Message.{
  Message, MessageManager, set_id, new_message_manager, register_message, find_message, is_taken,
  added, get_message_by_id, get_message_by_full_name,
}

-- Every message is under its own name, the IDs are below the next one and differ.
pub record IsRegistry (m : MessageManager) : Type 0 where
  pub named :
      (name : String) (msg : Message)
      → lookup name m.registered_messages ≡ some msg
      → msg.full_name ≡ name
  pub below :
      (name : String) (msg : Message)
      → lookup name m.registered_messages ≡ some msg
      → msg.id < m.next_message_id
  pub apart :
      (a b : String) (x y : Message)
      → lookup a m.registered_messages ≡ some x
      → lookup b m.registered_messages ≡ some y
      → x.id ≡ y.id
      → a ≡ b
  pub distinct : IsMap m.registered_messages

new-IsRegistry : IsRegistry new_message_manager
unfolding new_message_manager lookup keys count
new-IsRegistry = record {
  named = λ name msg h. cc;
  below = λ name msg h. cc;
  apart = λ a b x y h k e. cc;
  distinct = λ n. omega arith;
}

set_id_id :
    (id : ℕ) (t u : Message) → set_id id t ≡ ok u → (u.id ≡ id) × (u.full_name ≡ t.full_name)
unfolding set_id
set_id_id id t u h = (ground (arith, h), ground (arith, h))

-- The messages after a new one.
added-IsRegistry :
    (msg : Message) (msg_type : ℕ) (m : MessageManager)
    → msg.id ≡ m.next_message_id
    → IsRegistry m
    → IsRegistry (added msg_type (ok msg) m).1
added-IsRegistry msg msg_type m fresh v =
    let put = λ (n : String). lookup-insert msg.full_name n msg m.registered_messages in
    record {
      named = λ name x h. ground (arith, put name, h, v.named name x, eq_iff msg.full_name name);
      below = λ name x h. ground (arith, put name, h, v.below name x, fresh);
      apart = λ a b x y h k e. ground (
        arith,
        put a,
        put b,
        h,
        k,
        e,
        fresh,
        v.below a x,
        v.below b y,
        v.apart a b x y,
        eq_iff msg.full_name a,
        eq_iff msg.full_name b,
      );
      distinct = insert-IsMap msg.full_name msg m.registered_messages v.distinct;
    }

register_message-IsRegistry :
    (msg : Message) (msg_type : ℕ) (m : MessageManager)
    → IsRegistry m
    → IsRegistry (register_message msg msg_type m).1
unfolding register_message
register_message-IsRegistry msg msg_type m v =
    elim (Bool-cases (is_taken msg.full_name msg_type m)) [
      | inl taken ↦ rw (taken, register_message) v
      | inr free ↦ elim (Result-cases (set_id m.next_message_id msg)) [
        | inr (x, e) ↦ rw (free, register_message) (rw e v)
        | inl (u, e) ↦
            rw (free, register_message)
              (rw e (added-IsRegistry u msg_type m (set_id_id m.next_message_id msg u e).0 v))
      ]
    ]

-- Registrations of messages with their types, in order; one that fails changes nothing.
abbrev pub register_all : List (Message × ℕ) → MessageManager → MessageManager
register_all [] m = m
register_all ((msg, msg_type) ∷ rest) m = register_all rest (register_message msg msg_type m).1

register_all-IsRegistry :
    (msgs : List (Message × ℕ)) (m : MessageManager)
    → IsRegistry m
    → IsRegistry (register_all msgs m)
register_all-IsRegistry [] m v = v
register_all-IsRegistry ((msg, msg_type) ∷ rest) m v =
    register_all-IsRegistry rest (register_message msg msg_type m).1
      (register_message-IsRegistry msg msg_type m v)

found_entry :
    (id : ℕ) (entries : GoMap String Message) (msg : Message)
    → IsMap entries
    → find_message id entries ≡ some msg
    → (name : String) × (lookup name entries ≡ some msg) × (msg.id ≡ id)
unfolding find_message lookup keys count
found_entry id [] msg d h = absurd (ground (arith, h))
found_entry id ((name, x) ∷ rest) msg d h = elim (Bool-cases (id == x.id)) [
  | inl here ↦ (name, ground (arith, h, here, eq_iff name name), ground (arith, h, here))
  | inr further ↦
      let (n, e, f) =
        found_entry id rest msg (λ j. ground (arith, d j)) (ground (arith, h, further)) in
      (
        n,
        ground (
          arith,
          e,
          d name,
          contains-keys n rest,
          contains_iff_count n (keys rest),
          eq_iff name n,
          λ (same : name ≡ n). subst (λ (t : String). 0 < count t (keys rest)) (sym same),
        ),
        f,
      )
]

is_found :
    (name : String) (entries : GoMap String Message) (msg : Message)
    → lookup name entries ≡ some msg
    → is_some (find_message msg.id entries) ≡ true
unfolding find_message lookup
is_found name [] msg h = absurd (ground (arith, h))
is_found name ((n, x) ∷ rest) msg h = ground (arith, h, is_found name rest msg)

-- In a manager after any registrations, GetMessageByID returns a message exactly where it is
-- registered under its name and its ID is the one asked for: nothing for an ID that no registered
-- message has, and for every other ID the one message that has it.
pub get_message_by_id-get_message_by_full_name :
    (msgs : List (Message × ℕ)) (id : ℕ) (msg : Message)
    → let m = register_all msgs new_message_manager in
      (get_message_by_id id m ≡ some msg)
      ↔ ((get_message_by_full_name msg.full_name m ≡ some msg) × (msg.id ≡ id))
unfolding get_message_by_id get_message_by_full_name
get_message_by_id-get_message_by_full_name msgs id msg =
    let m = register_all msgs new_message_manager in
    let v = register_all-IsRegistry msgs new_message_manager new-IsRegistry in
    (
      λ h.
          let (name, e, f) = found_entry id m.registered_messages msg v.distinct h in
          (
            subst (λ (t : String). lookup t m.registered_messages ≡ some msg)
                (sym (v.named name msg e)) e,
            f,
          ),
      λ (h, asked).
          subst (λ (n : ℕ). find_message n m.registered_messages ≡ some msg) asked
            (elim (Option-cases (find_message msg.id m.registered_messages)) [
              | inl none_found ↦
                  absurd
                    (ground (arith, is_found msg.full_name m.registered_messages msg h, none_found))
              | inr (other, found) ↦
                  let (name, e, f) =
                    found_entry msg.id m.registered_messages other v.distinct found in
                  let same : name ≡ msg.full_name = v.apart name msg.full_name other msg e h f in
                  let there : lookup name m.registered_messages ≡ some msg =
                    subst (λ (t : String). lookup t m.registered_messages ≡ some msg) (sym same)
                      h in
                  found ∙ sym e ∙ there
            ]),
    )
