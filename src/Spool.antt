-- ===== src/Spool.antt =====
-- node/internal/spool/spool.go: the write-ahead log of pending envelopes. The database (bbolt) and
-- the marshalling of envelopes are the fields of `Bolt`; a transaction that fails is rolled back.
mod Keys
mod Queue
mod Append
mod Delivery
mod Eviction
mod Tests
use honeynet.Base.{
  ℕ, zero, suc, ◌+◌, ◌*◌, ◌/◌, ◌%◌, ◌^◌, ◌<◌, ◌≡◌, Bool, true, false, Option, none, some, List, [],
  ◌∷◌, ◌++◌, ltb, ◌==◌, if◌then◌else◌, ◌>>=◌, length, Bytes,
}

-- A transaction sees a database: the value under "seq" (empty if there is none), the records of
-- the bucket "events" as a cursor gives them, and its size. A call that fails returns `none`.
pub record Bolt : Type 1 where
  pub Db : Type 0
  pub seq_value : Db → Bytes
  pub entries : Db → List (Bytes × Bytes)
  pub size : Db → ℕ
  pub put_seq : Bytes → Db → Option Db
  pub put : Bytes → Bytes → Db → Option Db
  pub delete : Bytes → Db → Option Db
  pub commit : Db → Option Db
  pub Envelope : Type 0
  pub marshal : ℕ → Envelope → Option Bytes

-- `binary.BigEndian.PutUint64` for `count` = 8, and `Uint64`.
pub put_uint : ℕ → ℕ → Bytes
put_uint zero n = []
put_uint (suc count) n = put_uint count (n / 256) ++ n % 256 ∷ []

pub uint_from : ℕ → Bytes → ℕ
uint_from n [] = n
uint_from n (b ∷ s) = uint_from (n * 256 + b) s

abbrev pub put_uint64 : ℕ → Bytes
put_uint64 n = put_uint 8 n

module _ (bolt : Bolt) where
  pub record Spool : Type 0 where
    pub db : bolt.Db
    pub max_bytes : ℕ
    -- unbounded, where the source has 64 bits
    pub dropped : ℕ

  -- The counter in the database: 0 unless the value has eight bytes.
  pub current : bolt.Db → ℕ
  current db = if length (bolt.seq_value db) == 8 then uint_from 0 (bolt.seq_value db) else 0

  pub next_seq : bolt.Db → Option (ℕ × bolt.Db)
  next_seq db = do
    let cur = (current db + 1) % 2 ^ 64
    counted ← bolt.put_seq (put_uint64 cur) db
    stored ← bolt.commit counted
    some (cur, stored)

  -- How a transaction ended; the last one is a loop that is out of fuel.
  pub data Outcome : Type 0 where
    done : bolt.Db → Outcome
    failed : Outcome
    no_fuel : Outcome

  -- The eviction loop over a record of `room` bytes, with the number of records evicted before.
  pub evict : ℕ → ℕ → ℕ → ℕ → bolt.Db → ℕ × Outcome
  evict zero max_bytes room count db = (count, no_fuel)
  evict (suc fuel) max_bytes room count db =
      if ltb max_bytes (bolt.size db + room)
      then elim (bolt.entries db) [
        | [] ↦ (count, done db)
        | (k, _) ∷ _ ↦ elim (bolt.delete k db) [
          | some rest ↦ evict fuel max_bytes room (count + 1) rest
          | none ↦ (count, failed)
        ]
      ]
      else (count, done db)

  abbrev pub evict_fuel : bolt.Db → ℕ
  evict_fuel db = length (bolt.entries db) + 1

  pub finish : Bytes → Bytes → Outcome → Outcome
  finish key blob (done db) = elim (bolt.put key blob db >>= bolt.commit) [
    | some stored ↦ done stored
    | none ↦ failed
  ]
  finish key blob failed = failed
  finish key blob no_fuel = no_fuel

  -- What becomes of the database: a transaction that does not end leaves it as it was.
  pub kept : bolt.Db → Outcome → bolt.Db
  kept db (done stored) = stored
  kept db failed = db
  kept db no_fuel = db

  -- The second transaction of `Append`; the counter of dropped records is not rolled back.
  pub store : Bytes → Bytes → Spool → Outcome × Spool
  store key blob s =
      let evicted = evict (evict_fuel s.db) s.max_bytes (length blob) 0 s.db in
      let end = finish key blob evicted.1 in
      (end, record s { db = kept s.db end; dropped = s.dropped + evicted.0 })

  pub append : bolt.Envelope → Spool → Outcome × Spool
  append env s = elim (next_seq s.db) [
    | none ↦ (failed, s)
    | some (seq, counted) ↦ elim (bolt.marshal seq env) [
      | none ↦ (failed, record s { db = counted })
      | some blob ↦ store (put_uint64 seq) blob (record s { db = counted })
    ]
  ]

  -- `Peek`: the records that the cursor passes before `n` are taken. The error of `db.View`, whose
  -- function returns none itself, is left out.
  pub peek_loop : ℕ → List (Bytes × Bytes) → List (Bytes × Bytes)
  peek_loop zero es = []
  peek_loop (suc n) [] = []
  peek_loop (suc n) (e ∷ es) = e ∷ peek_loop n es

  pub peek : ℕ → Spool → List (Bytes × Bytes)
  peek n s = peek_loop n (bolt.entries s.db)

  pub delete_all : List Bytes → bolt.Db → Option bolt.Db
  delete_all [] db = some db
  delete_all (k ∷ keys) db = bolt.delete k db >>= delete_all keys

  pub ack : List Bytes → Spool → Bool × Spool
  ack keys s = elim (delete_all keys s.db >>= bolt.commit) [
    | some db ↦ (true, record s { db = db })
    | none ↦ (false, s)
  ]

  pub depth : Spool → ℕ
  depth s = length (bolt.entries s.db)
