-- ===== src/TaskLib/Actions.antt =====
-- common/taskLib/Action.hpp and Action.cpp: an action is a 64-bit word with bit fields in it.
use syncd_sim.Base.{ℕ, ◌+◌, ◌*◌, ◌/◌, ◌%◌, ◌^◌, ◌<◌, ◌≡◌, Bool, ◌||◌, not, ◌==◌, arith}
use syncd_sim.Types.{
  ActionType, action_null, mem_read, mem_write, free, malloc, size, basic_block, memcpy,
}

-- The `w` bits of a word from bit `lo` on, and the word with these bits set to those of `v`.
abbrev pub get_field : ℕ → ℕ → ℕ → ℕ
get_field lo w word = word / 2 ^ lo % 2 ^ w

abbrev pub set_field : ℕ → ℕ → ℕ → ℕ → ℕ
set_field lo w v word = word % 2 ^ lo + v % 2 ^ w * 2 ^ lo + word / 2 ^ (lo + w) * 2 ^ (lo + w)

-- The numbers of `enum action_type`.
abbrev pub type_code : ActionType → ℕ
type_code action_null = 0
type_code mem_read = 1
type_code mem_write = 2
type_code free = 3
type_code malloc = 4
type_code size = 5
type_code basic_block = 6
type_code memcpy = 7

-- `uint64_t type : 3`, the last three bits of every action.
abbrev pub get_type : ℕ → ℕ
get_type a = get_field 61 3 a

abbrev pub set_type : ActionType → ℕ → ℕ
set_type t = set_field 61 3 (type_code t)

-- The fields of a `MemoryAction`.
abbrev pub get_addr : ℕ → ℕ
get_addr a = get_field 0 48 a

abbrev pub set_addr : ℕ → ℕ → ℕ
set_addr = set_field 0 48

abbrev pub get_rank : ℕ → ℕ
get_rank a = get_field 50 8 a

abbrev pub get_pow_size : ℕ → ℕ
get_pow_size a = get_field 58 3 a

abbrev pub set_pow_size : ℕ → ℕ → ℕ
set_pow_size = set_field 58 3

-- The field of a `BasicBlockAction`.
abbrev pub get_basic_block_id : ℕ → ℕ
get_basic_block_id a = get_field 0 32 a

abbrev pub set_basic_block_id : ℕ → ℕ → ℕ
set_basic_block_id = set_field 0 32

unfoldable pub is_mem_op : ℕ → Bool
is_mem_op a = get_type a == type_code mem_read || get_type a == type_code mem_write

unfoldable pub is_memory_action : ℕ → Bool
is_memory_action a = not (get_type a == type_code basic_block)

unfoldable pub is_basic_block_action : ℕ → Bool
is_basic_block_action a = get_type a == type_code basic_block

abbrev pub IsWord : ℕ → Type 0
IsWord a = a < 2 ^ 64

-- A word put together from fields is a word, and gives its fields back.
pub memory_word :
    (junk a : ℕ) (t : ActionType)
    → IsWord junk
    → IsWord (set_addr a (set_type t junk))
      × (get_addr (set_addr a (set_type t junk)) ≡ a % 2 ^ 48)
      × (get_type (set_addr a (set_type t junk)) ≡ type_code t % 8)
memory_word junk a t h = omega arith

pub sized_word :
    (junk a p : ℕ) (t : ActionType)
    → IsWord junk
    → IsWord (set_addr a (set_pow_size p (set_type t junk)))
      × (get_addr (set_addr a (set_pow_size p (set_type t junk))) ≡ a % 2 ^ 48)
      × (get_pow_size (set_addr a (set_pow_size p (set_type t junk))) ≡ p % 8)
      × (get_type (set_addr a (set_pow_size p (set_type t junk))) ≡ type_code t % 8)
sized_word junk a p t h = omega arith

pub block_word :
    (junk id : ℕ)
    → IsWord junk
    → IsWord (set_basic_block_id id (set_type basic_block junk))
      × (get_basic_block_id (set_basic_block_id id (set_type basic_block junk)) ≡ id % 2 ^ 32)
      × (get_type (set_basic_block_id id (set_type basic_block junk)) ≡ 6)
block_word junk id h = omega arith
