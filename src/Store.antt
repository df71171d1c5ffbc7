-- ===== src/Store.antt =====
-- store/store.go: the ring buffer of the last 1000 verification results. Each method holds the
-- mutex for all of its body, so calls are atomic and a history of calls is a sequence of them.
pub mod History
use stateless_executor.Prelude.{
  ℕ, zero, suc, ◌+◌, ◌-◌, ◌%◌, Bool, false, List, [], ◌∷◌, length, set, get_or, replicate, ltb,
  if◌then◌else◌,
}
use stateless_executor.Prelude.Text.{Text}

pub record Result : Type 0 where
  pub block : ℕ
  pub guest : Text
  pub witness_from : Text
  pub valid : Bool
  pub error : Text
  pub log : Text
  pub tx_count : ℕ
  pub gas_used : ℕ
  pub duration_ms : ℕ

-- The zero value of a Result.
abbrev pub no_result : Result
no_result = record {
  block = 0;
  guest = [];
  witness_from = [];
  valid = false;
  error = [];
  log = [];
  tx_count = 0;
  gas_used = 0;
  duration_ms = 0;
}

abbrev pub capacity : ℕ
capacity = 1000

pub record RingBuffer : Type 0 where
  pub items : List Result
  pub head : ℕ
  pub count : ℕ

-- &store.RingBuffer{}
unfoldable pub empty : RingBuffer
empty = record { items = replicate capacity no_result; head = 0; count = 0 }

unfoldable pub add : RingBuffer → Result → RingBuffer
add r res = record {
  items = set r.items r.head res;
  head = (r.head + 1) % capacity;
  count = if ltb r.count capacity then r.count + 1 else r.count;
}

-- (head - count + i + capacity) % capacity, on ints: with count ≤ capacity nothing is negative.
abbrev pub index_at : RingBuffer → ℕ → ℕ
index_at r i = (r.head + i + capacity - r.count) % capacity

-- The loop of All with n rounds left, at round i.
unfoldable pub all_from : RingBuffer → ℕ → ℕ → List Result
all_from r i zero = []
all_from r i (suc n) = get_or r.items (index_at r i) no_result ∷ all_from r (i + 1) n

unfoldable pub all : RingBuffer → List Result
unfolding all_from
all r = all_from r 0 r.count
