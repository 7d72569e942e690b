-- ===== src/Logs.antt =====
-- crates/open-functions-core/src/logs/ring.rs: the last lines that each function logged. The channel
-- of the followers is not modelled; a buffer that somebody still holds after `remove` is his alone.
pub mod Tail
use open_functions.Prelude.{
  ℕ, ◌-◌, max, Bytes, List, [], ◌∷◌, ◌++◌, length, drop, leb, if◌then◌else◌, Dict, lookup, insert,
  remove, list_Eq, ℕ_Eq, Option, none, some,
}

pub record LogRingBuffer (A : Type 0) : Type 0 where
  pub capacity : ℕ
  pub lines : List A

unfoldable pub new : {A : Type 0} → ℕ → LogRingBuffer A
new capacity = record { capacity = max capacity 1; lines = [] }

unfoldable pub push : {A : Type 0} → A → LogRingBuffer A → LogRingBuffer A
push line r = record r {
  lines = (if leb r.capacity (length r.lines) then drop 1 r.lines else r.lines) ++ line ∷ [];
}

unfoldable pub tail : {A : Type 0} → ℕ → LogRingBuffer A → List A
tail n r = drop (length r.lines - n) r.lines

pub record LogStore (A : Type 0) : Type 0 where
  pub capacity : ℕ
  pub buffers : Dict Bytes (LogRingBuffer A)

buffer_or : {A : Type 0} → ℕ → Option (LogRingBuffer A) → LogRingBuffer A
buffer_or capacity none = new capacity
buffer_or capacity (some buffer) = buffer

-- With the buffer, which the store has from now on.
unfoldable pub buffer_for : {A : Type 0} → Bytes → LogStore A → LogStore A × LogRingBuffer A
unfolding buffer_or
buffer_for function_name s =
    let buffer = buffer_or s.capacity (lookup function_name s.buffers) in
    (record s { buffers = insert function_name buffer s.buffers }, buffer)

unfoldable pub forget : {A : Type 0} → Bytes → LogStore A → LogStore A
forget function_name s = record s { buffers = remove function_name s.buffers }
