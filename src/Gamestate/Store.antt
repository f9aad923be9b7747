-- ===== src/Gamestate/Store.antt =====
-- A redis in memory and a codec, which show that what is assumed of redis can hold.
use world_engine.Base.{
  ℕ, ◌+◌, List, [], ◌∷◌, ◌≡◌, refl, ap, sym, arith, Option, none, some, if◌then◌else◌, nat_eq,
}
use world_engine.Base.Exec.{Result, ok, err}
use world_engine.Gamestate.Types.{
  Error, redis_nil, storage, codec, Env, Command, set_num, set_bytes, del, incr, StorageKey,
}
use world_engine.Gamestate.Redis.{
  key_eq, key_beq, Effect, combine, effect, effect_of, NumAfter, BytesAfter, Lawful,
}

pub data Stored : Type 0 where
  number json : ℕ → Stored
  ids_text : List ℕ → Stored
  archs_text : List (ℕ × List ℕ) → Stored

abbrev pub Memory : Type 0
Memory = StorageKey → Option Stored

abbrev pub as_num : Option Stored → Result Error ℕ
as_num none = err redis_nil
as_num (some (number n)) = ok n
as_num (some _) = err storage

abbrev pub as_bytes : Option Stored → Result Error Stored
as_bytes none = err redis_nil
as_bytes (some b) = ok b

abbrev pub write : StorageKey → Option Stored → Memory → Memory
write k v db = λ j. if key_beq k j then v else db j

abbrev pub incremented : StorageKey → Result Error ℕ → Memory → Result Error Memory
incremented k (ok n) db = ok (write k (some (number (n + 1))) db)
incremented k (err redis_nil) db = ok (write k (some (number 1)) db)
incremented k (err error) db = err error

abbrev pub execute : Command Stored → Memory → Result Error Memory
execute (set_num k n) db = ok (write k (some (number n)) db)
execute (set_bytes k b) db = ok (write k (some b) db)
execute (del k) db = ok (write k none db)
execute (incr k) db = incremented k (as_num (db k)) db

abbrev pub and_execute : Result Error Memory → (Memory → Result Error Memory) → Result Error Memory
and_execute (ok db) f = f db
and_execute (err error) f = err error

unfoldable pub execute_all : Memory → List (Command Stored) → Result Error Memory
execute_all db [] = ok db
execute_all db (c ∷ cs) = and_execute (execute c db) (λ after. execute_all after cs)

abbrev pub read_ids : Stored → Result Error (List ℕ)
read_ids (ids_text ids) = ok ids
read_ids _ = err codec

abbrev pub read_archs : Stored → Result Error (List (ℕ × List ℕ))
read_archs (archs_text archs) = ok archs
read_archs _ = err codec

abbrev pub memory : Env
memory = record {
  Any = ℕ;
  Bytes = Stored;
  Db = Memory;
  get_num = λ db k. as_num (db k);
  get_bytes = λ db k. as_bytes (db k);
  exec = execute_all;
  encode_ids = λ ids. ok (ids_text ids);
  decode_ids = read_ids;
  encode_archs = λ archs. ok (archs_text archs);
  decode_archs = read_archs;
  grow = λ cap. cap + cap + 1;
}

num_compose :
    (a b : Effect Stored) (x y z : Result Error ℕ)
    → NumAfter a x y
    → NumAfter b y z
    → NumAfter (combine a b) x z
num_compose a b x y z h k = ground arith

bytes_compose :
    (a b : Effect Stored) (x y z : Result Error Stored)
    → BytesAfter a x y
    → BytesAfter b y z
    → BytesAfter (combine a b) x z
bytes_compose a b x y z h k = ground arith

num_step :
    (c : Command Stored) (db after : Memory) (k : StorageKey)
    → execute c db ≡ ok after
    → NumAfter (effect_of k c) (as_num (db k)) (as_num (after k))
num_step c db after k h = ground arith

bytes_step :
    (c : Command Stored) (db after : Memory) (k : StorageKey)
    → execute c db ≡ ok after
    → BytesAfter (effect_of k c) (as_bytes (db k)) (as_bytes (after k))
bytes_step c db after k h = ground arith

-- The database of a transaction that succeeded.
abbrev or_db : Memory → Result Error Memory → Memory
or_db other (ok db) = db
or_db other (err error) = other

num_all :
    (cs : List (Command Stored)) (db after : Memory) (k : StorageKey)
    → execute_all db cs ≡ ok after
    → NumAfter (effect k cs) (as_num (db k)) (as_num (after k))
unfolding execute_all effect
num_all [] db after k h = ap (λ (r : Result Error Memory). as_num (or_db after r k)) (sym h)
num_all (c ∷ cs) db after k h = go (execute c db) refl h (λ next. num_all cs next after k)
  where
    go :
        (r : Result Error Memory)
        → execute c db ≡ r
        → and_execute r (λ next. execute_all next cs) ≡ ok after
        → ((next : Memory)
            → execute_all next cs ≡ ok after
            → NumAfter (effect k cs) (as_num (next k)) (as_num (after k)))
        → NumAfter (combine (effect_of k c) (effect k cs)) (as_num (db k)) (as_num (after k))
    go (ok next) e rest ih =
        num_compose (effect_of k c) (effect k cs) (as_num (db k)) (as_num (next k))
          (as_num (after k)) (num_step c db next k e) (ih next rest)
    go (err error) e rest ih = cc

bytes_all :
    (cs : List (Command Stored)) (db after : Memory) (k : StorageKey)
    → execute_all db cs ≡ ok after
    → BytesAfter (effect k cs) (as_bytes (db k)) (as_bytes (after k))
unfolding execute_all effect
bytes_all [] db after k h = ap (λ (r : Result Error Memory). as_bytes (or_db after r k)) (sym h)
bytes_all (c ∷ cs) db after k h = go (execute c db) refl h (λ next. bytes_all cs next after k)
  where
    go :
        (r : Result Error Memory)
        → execute c db ≡ r
        → and_execute r (λ next. execute_all next cs) ≡ ok after
        → ((next : Memory)
            → execute_all next cs ≡ ok after
            → BytesAfter (effect k cs) (as_bytes (next k)) (as_bytes (after k)))
        → BytesAfter (combine (effect_of k c) (effect k cs)) (as_bytes (db k)) (as_bytes (after k))
    go (ok next) e rest ih =
        bytes_compose (effect_of k c) (effect k cs) (as_bytes (db k)) (as_bytes (next k))
          (as_bytes (after k)) (bytes_step c db next k e) (ih next rest)
    go (err error) e rest ih = cc

pub memory-Lawful : Lawful memory
memory-Lawful = record {
  exec_num = λ db after pipe k h. num_all pipe db after k h;
  exec_bytes = λ db after pipe k h. bytes_all pipe db after k h;
  ids_codec = λ ids b h. ground (arith, h);
}
