-- ===== src/Spool/Tests.antt =====
-- Runs of the spool on a database in memory that keeps the promises, and the theorems on it.
use honeynet.Base.{
  before, ℕ, ◌≡◌, refl, sym, ap, Option, none, some, List, [], ◌∷◌, arith, Bytes, codes, map, take,
  equal,
}
use honeynet.Spool.{
  Bolt, put_uint64, put_uint, uint_from, Spool, current, next_seq, evict, evict_fuel, finish, kept,
  store, append, peek, ack, depth,
}
use honeynet.Spool.Queue.{insert, remove, IsBolt, Queue, entry, Holds}
use honeynet.Spool.Append.{IsAppended, append-IsAppended}
use honeynet.Spool.Eviction.{IsAllOrNone, evict-IsAllOrNone}
use honeynet.Spool.Delivery.{keys_of, IsAcked, ack-peek}

record Memory : Type 0 where
  seq : Bytes
  es : List (Bytes × Bytes)
  size : ℕ

-- A database of a fixed size on disk whose calls never fail.
abbrev memory_bolt : Bolt
memory_bolt = record {
  Db = Memory;
  seq_value = λ db. db.seq;
  entries = λ db. db.es;
  size = λ db. db.size;
  put_seq = λ v db. some (record db { seq = v });
  put = λ k v db. some (record db { es = insert k v db.es });
  delete = λ k db. some (record db { es = remove k db.es });
  commit = λ db. some db;
  Envelope = Bytes;
  marshal = λ seq env. some env;
}

content : Option Memory → Bytes × List (Bytes × Bytes)
content none = ([], [])
content (some db) = (db.seq, db.es)

size_of : Option Memory → ℕ
size_of none = 0
size_of (some db) = db.size

memory_laws : IsBolt memory_bolt
unfolding content
memory_laws = record {
  put_seq_value = λ e. ap (λ o. (content o).0) (sym e);
  put_seq_entries = λ e. ap (λ o. (content o).1) (sym e);
  put_value = λ e. ap (λ o. (content o).0) (sym e);
  put_entries = λ e. ap (λ o. (content o).1) (sym e);
  delete_value = λ e. ap (λ o. (content o).0) (sym e);
  delete_entries = λ e. ap (λ o. (content o).1) (sym e);
  commit_value = λ e. ap (λ o. (content o).0) (sym e);
  commit_entries = λ e. ap (λ o. (content o).1) (sym e);
}

-- Numbers 1 and 2 are given out, both records are pending, and the file has 40 bytes.
abbrev two_pending : Spool memory_bolt
two_pending = record {
  db = record {
    seq = put_uint64 2;
    es = (put_uint64 1, codes "a") ∷ (put_uint64 2, codes "b") ∷ [];
    size = 40;
  };
  max_bytes = 50;
  dropped = 0;
}

abbrev two_records : Queue
two_records = (1, codes "a") ∷ (2, codes "b") ∷ []

two_pending-Holds : Holds memory_bolt two_pending.db 2 two_records
unfolding current put_uint uint_from
two_pending-Holds = record {
  counter = refl;
  fits = omega arith;
  records = refl;
  up_to = omega arith;
  ascends = omega arith;
}

append-IsAppended_example :
    IsAppended memory_bolt memory_laws 2 two_records 0
      (codes "event")
      (append memory_bolt (codes "event") two_pending)
append-IsAppended_example =
    append-IsAppended memory_bolt memory_laws (codes "event") two_pending 2 two_records
      two_pending-Holds (omega arith)

ack-peek_example :
    (peek memory_bolt 1 two_pending ≡ map entry (take 1 two_records))
    × IsAcked memory_bolt memory_laws 2 1 two_records two_pending (
        ack memory_bolt
          (keys_of memory_bolt memory_laws (peek memory_bolt 1 two_pending))
          two_pending)
ack-peek_example = ack-peek memory_bolt memory_laws 1 two_pending 2 two_records two_pending-Holds

-- A record that does not fit beside the file drops every pending record: the file does not shrink.
append_drops_all : (append memory_bolt (codes "a long event") two_pending).1.dropped ≡ 2
unfolding append store finish kept evict next_seq current put_uint uint_from insert remove before
    equal
append_drops_all = refl

append_one : depth memory_bolt (append memory_bolt (codes "event") two_pending).1 ≡ 3
unfolding depth append store finish kept evict next_seq current put_uint uint_from insert remove
    before equal
append_one = refl

memory_steady :
    (k : Bytes) (db db' : Memory)
    → memory_bolt.delete k db ≡ some db'
    → memory_bolt.size db' ≡ memory_bolt.size db
unfolding size_of
memory_steady k db db' e = ap size_of (sym e)

evict-IsAllOrNone_example :
    IsAllOrNone memory_bolt memory_laws memory_steady 50 11 two_pending.db two_records
      (evict memory_bolt (evict_fuel memory_bolt two_pending.db) 50 11 0 two_pending.db)
evict-IsAllOrNone_example =
    evict-IsAllOrNone memory_bolt memory_laws memory_steady 50 11 two_pending.db 2 two_records
      two_pending-Holds
