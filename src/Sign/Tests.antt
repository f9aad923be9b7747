-- ===== src/Sign/Tests.antt =====
-- Signatures that are one byte too short.
use world_engine.Base.{ℕ, zero, suc, String, List, [], ◌∷◌, none, nat_eq, string_eq, ◌==◌}
use world_engine.Base.Int.{pos}
use world_engine.Sign.{Transaction, Crypto, verify, hashed}
use world_engine.Sign.Panic.{Verdict, verify-Verdict}

abbrev zero_bytes : ℕ → List ℕ
zero_bytes zero = []
zero_bytes (suc n) = 0 ∷ zero_bytes n

abbrev pub no_keys : Crypto
no_keys = record {
  Hash = ℕ;
  Address = String;
  Key = String;
  is_zero_hash = λ h. h == 0;
  keccak256 = λ l. 1;
  hex_to_address = λ s. s;
  hex_to_bytes = λ s. zero_bytes 64;
  sig_to_pub = λ h sig. none;
  pubkey_to_address = λ k. k;
  same_address = λ a b. a == b;
}

abbrev pub short : Transaction ℕ
short = record {
  persona_tag = "alice";
  namespace = "world";
  timestamp = pos 1;
  salt = 0;
  signature = "00";
  hash = 1;
  body = 1 ∷ [];
}

verify-Verdict_example :
    Verdict no_keys (zero_bytes 64) (hashed no_keys short).hash "bob" (verify no_keys short "bob")
verify-Verdict_example = verify-Verdict no_keys short "bob"
