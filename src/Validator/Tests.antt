-- ===== src/Validator/Tests.antt =====
-- The validator with a cache in memory, and with signatures that are the signer's address.
use world_engine.Base.{
  ℕ, zero, suc, ◌+◌, ◌*◌, ◌<◌, String, List, [], ◌∷◌, Bool, true, false, ◌&&◌, ◌||◌, Option, none,
  some, ltb, leb, nat_eq, string_eq, ◌==◌, if◌then◌else◌, ◌≡◌, refl, arith,
}
use world_engine.Base.Int.{pos, negsuc}
use world_engine.Base.Exec.{ok, err}
use world_engine.Sign.{
  Transaction, Piece, text, decimal, json, Crypto, check_required_fields, populate_hash, verify,
}
use world_engine.Validator.{HashCache, CacheAnswer, found, not_found, SignatureValidator}
use world_engine.Validator.Handler.{Request, HttpError, http_status, MessageType, post_transaction}
use world_engine.Validator.Replay.{KeepsHashes}
use world_engine.Validator.Serving.{served}
use world_engine.Validator.Once.{post_transaction_once}

abbrev hash_at : ℕ → ℕ → List (ℕ × ℕ) → CacheAnswer
hash_at h now [] = not_found
hash_at h now ((g, x) ∷ l) = if (g == h) && ltb now x then found else hash_at h now l

abbrev memory : HashCache ℕ
memory = record { State = List (ℕ × ℕ); get = hash_at; set = λ h e now l. (true, (h, now + e) ∷ l) }

abbrev held : ℕ → ℕ → List (ℕ × ℕ) → Bool
held h until [] = false
held h until ((g, x) ∷ l) = ((g == h) && leb until x) || held h until l

held-stored : (h x : ℕ) (l : List (ℕ × ℕ)) → held h x ((h, x) ∷ l) ≡ true
held-stored h x l = ground arith

held-still :
    (h g until x : ℕ) (l : List (ℕ × ℕ)) → held h until l ≡ true → held h until ((g, x) ∷ l) ≡ true
held-still h g until x l p = ground (arith, p)

held-found :
    (h until now : ℕ) (l : List (ℕ × ℕ))
    → held h until l ≡ true
    → now < until
    → hash_at h now l ≡ found
held-found h until now [] p less = cc
held-found h until now ((g, x) ∷ l) p less = ground (arith, p, held-found h until now l)

memory-KeepsHashes : KeepsHashes memory
memory-KeepsHashes = record {
  Holds = λ h until l. held h until l ≡ true;
  holds_stored = λ h e now s bound stored. held-stored h (now + e) s;
  holds_still = λ h g until e now s p later bound. held-still h g until (now + e) s p;
  found_until = held-found;
}

abbrev digest : List Piece → ℕ
digest [] = 1
digest (text s ∷ l) = digest l
digest (decimal (pos n) ∷ l) = n + digest l
digest (decimal (negsuc n) ∷ l) = digest l
digest (json b ∷ l) = digest l

abbrev zeros : ℕ → List ℕ
zeros zero = []
zeros (suc n) = 0 ∷ zeros n

abbrev crypto : Crypto
crypto = record {
  Hash = ℕ;
  Address = String;
  Key = String;
  is_zero_hash = λ h. h == 0;
  keccak256 = digest;
  hex_to_address = λ s. s;
  hex_to_bytes = λ s. zeros 65;
  sig_to_pub = λ h sig. some "alice";
  pubkey_to_address = λ k. k;
  same_address = λ a b. a == b;
}

abbrev validator : SignatureValidator
validator = record { is_disabled = false; message_expiration_seconds = 10; namespace = "world" }

abbrev tx_at : ℕ → Transaction ℕ
tx_at n = record {
  persona_tag = "alice";
  namespace = "world";
  timestamp = pos n;
  salt = 0;
  signature = "0x00";
  hash = n + 1;
  body = 123 ∷ 125 ∷ [];
}

abbrev move : MessageType ℕ
move = record { id = 4; name = "move"; decode = λ b. some 5; create_persona = λ m. none }

-- A transaction of `millis`, sent at the second `at`.
abbrev sent : ℕ → ℕ → Request ℕ ℕ
sent millis at = record {
  msg_type = some move;
  decoded = some (tx_at millis);
  forgiving = none;
  ttl_at = at * 1000000000;
  stored_at = at * 1000000000 + 500;
}

abbrev look_up : String → Option String
look_up tag = some tag

abbrev log : ℕ → ℕ → Transaction ℕ → List ℕ → List ℕ
log id msg tx w = tx.hash ∷ w

first_is_accepted :
    post_transaction crypto memory validator look_up log (sent 100000 101) ([], [])
    ≡ (ok tt, (((100001, 121) ∷ []), 100001 ∷ []))
unfolding post_transaction check_required_fields populate_hash verify
first_is_accepted = refl

abbrev then_served : List (ℕ × ℕ) × List ℕ
then_served =
    served crypto memory validator look_up log (sent 103000 105 ∷ [])
      ((100001, 121) ∷ [], 100001 ∷ [])

post_transaction_once_example :
    (e : HttpError) × (post_transaction crypto memory validator look_up log
        (sent 100000 109)
        then_served
      ≡ (err e, then_served))
post_transaction_once_example =
    post_transaction_once validator crypto memory memory-KeepsHashes look_up log refl
      (sent 100000 101) (sent 100000 109) (sent 103000 105 ∷ []) ([], [])
      (((100001, 121) ∷ []), 100001 ∷ []) (omega arith) (omega arith) (omega arith)
      first_is_accepted (omega arith, omega arith, tt) refl

late_is_refused :
    (post_transaction crypto memory validator look_up log (sent 100000 115) ([], [])).0
    ≡ err (http_status 408)
unfolding post_transaction check_required_fields populate_hash verify
late_is_refused = refl

unsigned_is_refused :
    (post_transaction crypto memory
      (record validator { namespace = "other" })
      look_up
      log
      (sent 100000 101)
      ([], [])).0
    ≡ err (http_status 401)
unfolding post_transaction check_required_fields populate_hash verify
unsigned_is_refused = refl
