-- ===== src/Sign.antt =====
-- sign/sign.go: transactions with their hash and their signature. What go-ethereum computes is a
-- parameter, and so is JSON; a hash is of what keccak256 is handed, one piece after the other.
pub mod Panic
pub mod Tests
use world_engine.Base.{
  ℕ, ◌+◌, ◌-◌, ◌^◌, String, List, [], ◌∷◌, Bool, true, false, ◌||◌, not, Option, none, some, ltb,
  leb, nat_eq, string_eq, ◌==◌, if◌then◌else◌, length, get_elem?, set,
}
use world_engine.Base.Int.{ℤ, pos, negsuc}
use world_engine.Base.Exec.{Result, ok, err}

pub data Piece : Type 0 where
  text : String → Piece
  decimal : ℤ → Piece
  json : List ℕ → Piece

-- The times are of type int64, in milliseconds.
pub record Transaction (Hash : Type 0) : Type 0 where
  pub persona_tag : String
  pub namespace : String
  pub timestamp : ℤ
  pub salt : ℕ
  pub signature : String
  pub hash : Hash
  pub body : List ℕ

pub data SignError : Type 0 where
  no_persona_tag_field no_signature_field no_timestamp_field no_body_field : SignError
  decoding_failed signature_validation_failed no_public_key index_out_of_range : SignError
  cannot_sign_empty_body invalid_namespace invalid_persona_tag : SignError

pub record Crypto : Type 1 where
  pub Hash : Type 0
  pub Address : Type 0
  pub Key : Type 0
  pub is_zero_hash : Hash → Bool
  pub keccak256 : List Piece → Hash
  pub hex_to_address : String → Address
  pub hex_to_bytes : String → List ℕ
  pub sig_to_pub : Hash → List ℕ → Option Key
  pub pubkey_to_address : Key → Address
  pub same_address : Address → Address → Bool

abbrev pub system_persona_tag : String
system_persona_tag = "SystemPersonaTag"

abbrev pub recovery_id_offset : ℕ
recovery_id_offset = 64

abbrev is_zero : ℤ → Bool
is_zero (pos n) = n == 0
is_zero (negsuc n) = false

module _ (c : Crypto) where
  abbrev Tx : Type 0
  Tx = Transaction c.Hash

  unfoldable pub check_required_fields : Tx → Result SignError (Unit {0})
  check_required_fields s =
      if s.persona_tag == ""
      then err no_persona_tag_field
      else if s.signature == ""
      then err no_signature_field
      else if is_zero s.timestamp
      then err no_timestamp_field
      else if length s.body == 0
      then err no_body_field
      else ok tt

  unfoldable pub populate_hash : Tx → Tx
  populate_hash s =
      if not (s.salt == 0)
      then record s {
        hash = c.keccak256 (
            text s.persona_tag
            ∷ text s.namespace
            ∷ decimal s.timestamp
            ∷ decimal (pos s.salt)
            ∷ json s.body
            ∷ []);
      }
      else record s {
        hash =
            c.keccak256
              (text s.persona_tag ∷ text s.namespace ∷ decimal s.timestamp ∷ json s.body ∷ []);
      }

  abbrev pub with_fields : Tx → Result SignError (Unit {0}) → Result SignError Tx
  with_fields s (ok u) = ok (populate_hash s)
  with_fields s (err e) = err e

  -- `dec.Decode(s)` gives the decoded transaction, or none for an error.
  abbrev pub unmarshal_transaction : Option Tx → Result SignError Tx
  unmarshal_transaction none = err decoding_failed
  unmarshal_transaction (some s) = with_fields s (check_required_fields s)

  -- HashHex and Verify make a hash where there is none.
  unfoldable pub hashed : Tx → Tx
  unfolding populate_hash
  hashed s = if c.is_zero_hash s.hash then populate_hash s else s

  -- `sig[64] -= 27`, for a byte of 27 or 28
  abbrev pub from_yellow_paper : List ℕ → ℕ → List ℕ
  from_yellow_paper sig v =
      if (v == 27) || (v == 28) then set sig recovery_id_offset (v - 27) else sig

  abbrev pub signed_by : Option c.Key → c.Address → Result SignError (Unit {0})
  signed_by none addr = err no_public_key
  signed_by (some key) addr =
      if not (c.same_address (c.pubkey_to_address key) addr)
      then err signature_validation_failed
      else ok tt

  -- The byte at the offset, which may be out of range.
  abbrev pub verify_from : List ℕ → Option ℕ → c.Hash → c.Address → Result SignError (Unit {0})
  verify_from sig none hash addr = err index_out_of_range
  verify_from sig (some v) hash addr = signed_by (c.sig_to_pub hash (from_yellow_paper sig v)) addr

  -- The hash of the transaction is then that of `hashed`.
  unfoldable pub verify : Tx → String → Result SignError (Unit {0})
  unfolding hashed
  verify s hex_address =
      let addr = c.hex_to_address hex_address in
      let sig = c.hex_to_bytes s.signature in
      if ltb (length sig) recovery_id_offset
      then err signature_validation_failed
      else verify_from sig (get_elem? sig recovery_id_offset) (hashed s).hash addr

  unfoldable pub is_system_transaction : Tx → Bool
  is_system_transaction s = s.persona_tag == system_persona_tag
