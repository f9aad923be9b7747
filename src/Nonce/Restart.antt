-- ===== src/Nonce/Restart.antt =====
-- The restart of NonceStorage of nonce.go: what getMaxNonceForKey reads from redis.
use world_engine.Base.{
  ℕ, ◌+◌, ◌≤◌, String, [], true, false, some, ◌≡◌, ◌≢◌, arith, string_eq, nat_eq,
}
use world_engine.Base.GoMap.{lookup}
use world_engine.Base.Exec.{ok, err, ◌>>=◌, fail}
use world_engine.Nonce.{
  SortedSets, NonceStorage, nonce_is_too_old, nonce_set_key, use_nonce, use_nonce_for_key,
  get_max_nonce_for_key, unless_too_old, max_valid_nonce, new_nonce_storage,
}
use world_engine.Nonce.Invariant.{Documented}

-- ZRANGE with the indices -1 and 0 of a set of two or more members: the start, the last one, is
-- after the stop, the first one, and the answer is empty.
abbrev pub IsEmptyRange : {z : SortedSets} → Documented z → Type 0
IsEmptyRange {z} d =
    (db : z.Db) (k : String) (a b : ℕ)
    → a ≢ b
    → d.member db k a ≡ true
    → d.member db k b ≡ true
    → z.zrange_last_to_first db k ≡ ok []

-- A nonce that is not in redis, below a nonce b there by the window or more, and so too old for a
-- NonceStorage whose maximum is b, is accepted by a new NonceStorage on the same database, if
-- redis has another nonce too and the ZADD of the nonce succeeds.
pub restart_accepts_old :
    {z : SortedSets} (d : Documented z)
    → IsEmptyRange d
    → (signer : String) (nonce a b added : ℕ) (r : NonceStorage z) (db : z.Db) → a ≢ b
    → d.member r.client (nonce_set_key signer) a ≡ true
    → d.member r.client (nonce_set_key signer) b ≡ true
    → d.member r.client (nonce_set_key signer) nonce ≡ false
    → nonce + 1000 ≤ b
    → nonce ≤ max_valid_nonce
    → lookup (nonce_set_key signer) r.max_nonce ≡ some b
    → z.zadd r.client (nonce_set_key signer) nonce ≡ ok (added, db)
    → ((use_nonce signer nonce r).0 ≡ err nonce_is_too_old)
      × ((use_nonce signer nonce (new_nonce_storage {z = z} r.client)).0 ≡ ok tt)
unfolding use_nonce use_nonce_for_key get_max_nonce_for_key unless_too_old ◌>>=◌ new_nonce_storage
    fail lookup
restart_accepts_old {z = z} d empty signer nonce a b added r db ne at_a at_b free old valid there
      e =
    let range = empty r.client (nonce_set_key signer) a b ne at_a at_b in
    let new = d.zadd_answer r.client db (nonce_set_key signer) nonce added e in
    (ground (arith, there, old, valid), ground (arith, range, new, free, valid, e))
