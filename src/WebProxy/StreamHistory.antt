-- ===== src/WebProxy/StreamHistory.antt =====
-- webproxy/stream_history.go: the stream numbers that a session has seen, a bitset of 24 bits' space
-- in chunks that are allocated when they are first needed. A uint64 word is the list of its 64 bits,
-- the lowest first.
pub mod Bits
pub mod Exact
use tel_ego_openwrt.Base.{
  ℕ, ◌+◌, ◌*◌, ◌/◌, ◌%◌, ◌^◌, List, Bool, true, false, Option, none, some, if◌then◌else◌, get_or,
  set, replicate,
}

abbrev pub chunk_bits : ℕ
chunk_bits = 2 ^ 16

abbrev pub word_bits : ℕ
word_bits = 2 ^ 6

abbrev pub chunk_count : ℕ
chunk_count = 256

abbrev pub word_count : ℕ
word_count = 1024

abbrev pub Word : Type 0
Word = List Bool

abbrev pub Chunk : Type 0
Chunk = List Word

pub record StreamIdHistory : Type 0 where
  pub chunks : List (Option Chunk)
  pub allocated : ℕ

-- `new(streamIDChunk)`
unfoldable pub new_chunk : Chunk
new_chunk = replicate word_count (replicate word_bits false)

unfoldable pub new_stream_id_history : StreamIdHistory
new_stream_id_history = record { chunks = replicate chunk_count none; allocated = 0 }

-- The word and the bit of a number within its chunk.
unfoldable pub word_of : ℕ → ℕ
word_of id = id % chunk_bits / word_bits

unfoldable pub bit_of : ℕ → ℕ
bit_of id = id % chunk_bits % word_bits

unfoldable pub get_bit : Chunk → ℕ → Bool
unfolding word_of bit_of
get_bit chunk id = get_or (get_or chunk (word_of id) (replicate 0 false)) (bit_of id) false

unfoldable pub set_bit : Chunk → ℕ → Chunk
unfolding word_of bit_of
set_bit chunk id =
    set chunk (word_of id) (set (get_or chunk (word_of id) (replicate 0 false)) (bit_of id) true)

unfoldable pub contains : StreamIdHistory → ℕ → Bool
contains h id = elim (get_or h.chunks (id / chunk_bits) none) [
  | none ↦ false
  | some chunk ↦ get_bit chunk id
]

-- The test and the write of Add, on the chunk of the number.
unfoldable pub add_to : StreamIdHistory → Chunk → ℕ → StreamIdHistory × Bool
add_to h chunk id =
    if get_bit chunk id
    then (record h { chunks = set h.chunks (id / chunk_bits) (some chunk) }, false)
    else (record h { chunks = set h.chunks (id / chunk_bits) (some (set_bit chunk id)) }, true)

-- streamIDHistory.Add: the history, and whether the number was new.
unfoldable pub add : StreamIdHistory → ℕ → StreamIdHistory × Bool
unfolding new_chunk
add h id = elim (get_or h.chunks (id / chunk_bits) none) [
  | none ↦ add_to (record h { allocated = h.allocated + 1 }) new_chunk id
  | some chunk ↦ add_to h chunk id
]

unfoldable pub allocated_bytes : StreamIdHistory → ℕ
allocated_bytes h = h.allocated * word_count * 8
