-- ===== src/Validator/Handler.antt =====
-- PostTransaction of cardinal/server/handler/tx.go: from a request to the pool. The parsing of the
-- body, the decoding of a message and the world are parameters.
use world_engine.Base.{ℕ, String, List, Option, none, some, nat_eq, string_eq, ◌==◌, if◌then◌else◌}
use world_engine.Base.Exec.{Result, ok, err, Exec, lift, ◌>>=◌}
use world_engine.Sign.{Transaction, Crypto, unmarshal_transaction}
use world_engine.Validator.{
  ValidatorError, duplicate_message, message_expired, bad_timestamp, no_persona_tag,
  invalid_signature, HashCache, SignatureValidator, validate_transaction_ttl,
  validate_transaction_signature,
}

abbrev pub create_persona_message_name : String
create_persona_message_name = "create-persona"

-- The status of an answer that is an error.
pub data HttpError : Type 0 where
  unparseable_body : HttpError
  http_status : ℕ → HttpError

abbrev pub http_result_from_error : ValidatorError → HttpError
http_result_from_error duplicate_message = http_status 403
http_result_from_error message_expired = http_status 408
http_result_from_error bad_timestamp = http_status 400
http_result_from_error no_persona_tag = http_status 400
http_result_from_error (invalid_signature e) = http_status 401
http_result_from_error _ = http_status 500

pub record MessageType (Msg : Type 0) : Type 0 where
  pub id : ℕ
  pub name : String
  pub decode : List ℕ → Option Msg
  -- the signer's address, where the message is a CreatePersona
  pub create_persona : Msg → Option String

-- A request as it comes in: the type of the message in its path, what the decoder of a JSON body
-- makes of it, what the more forgiving parser does, and the times at which the handler reads the
-- clock for the expiration and the cache stores the hash.
pub record Request (Hash Msg : Type 0) : Type 0 where
  pub msg_type : Option (MessageType Msg)
  pub decoded : Option (Transaction Hash)
  pub forgiving : Option (Transaction Hash)
  pub ttl_at : ℕ
  pub stored_at : ℕ

module _ {E F A : Type 0} where
  abbrev pub answered_by : (E → F) → Result E A → Result F A
  answered_by f (ok a) = ok a
  answered_by f (err e) = err (f e)

module _ {A : Type 0} where
  abbrev pub or_error : HttpError → Option A → Result HttpError A
  or_error e none = err e
  or_error e (some a) = ok a

module _ (c : Crypto) (cache : HashCache c.Hash) (v : SignatureValidator) {Msg W : Type 0}
    (look : String → Option String) (add_transaction : ℕ → Msg → Transaction c.Hash → W → W) where
  abbrev pub extract_tx : Request c.Hash Msg → Result HttpError (Transaction c.Hash)
  extract_tx r =
      if v.is_disabled
      then or_error unparseable_body r.forgiving
      else answered_by (λ e. unparseable_body) (unmarshal_transaction c r.decoded)

  -- The address in a CreatePersona message, and the empty text for the others.
  abbrev pub signer_address : MessageType Msg → Msg → Result HttpError String
  signer_address t msg =
      if t.name == create_persona_message_name
      then or_error (http_status 500) (t.create_persona msg)
      else ok ""

  abbrev pub State : Type 0
  State = cache.State × W

  abbrev pub check_ttl : ℕ → Transaction c.Hash → Exec HttpError State (Unit {0})
  check_ttl now tx s =
      (answered_by http_result_from_error (validate_transaction_ttl c cache v now tx s.0), s)

  abbrev pub check_signature : ℕ → Transaction c.Hash → String → Exec HttpError State (Unit {0})
  check_signature now tx addr s =
      let (r, cached) = validate_transaction_signature c cache v look now tx addr s.0 in
      (answered_by http_result_from_error r, (cached, s.1))

  abbrev pub accept : ℕ → Msg → Transaction c.Hash → Exec HttpError State (Unit {0})
  accept id msg tx s = (ok tt, (s.0, add_transaction id msg tx s.1))

  unfoldable pub post_transaction : Request c.Hash Msg → Exec HttpError State (Unit {0})
  unfolding ◌>>=◌ validate_transaction_ttl validate_transaction_signature
  post_transaction r = do
    t ← lift (or_error (http_status 404) r.msg_type)
    tx ← lift (extract_tx r)
    u ← check_ttl r.ttl_at tx
    msg ← lift (or_error (http_status 400) (t.decode tx.body))
    addr ← lift (signer_address t msg)
    v ← check_signature r.stored_at tx addr
    accept t.id msg tx
