-- ===== src/Cache.antt =====
-- backend/Simulator/cache.hpp and cache.cpp: the lines of one context's cache and the operations on
-- them. The message loop `Cache::run` is in Node.antt.
pub mod Geometry
pub mod Search
pub mod Writes
pub mod Rows
pub mod Lookup
pub mod Eviction
pub mod Copies
use syncd_sim.Base.{
  ℕ, suc, ◌+◌, ◌-◌, ◌*◌, ◌/◌, ◌%◌, ◌^◌, bit_or, Bool, true, false, ◌&&◌, List, [], ◌∷◌, Option,
  none, some, ltb, ◌==◌, if◌then◌else◌, get_elem?, set,
}
use syncd_sim.Types.{int_max}

pub record CacheLine : Type 0 where
  pub valid : Bool
  pub dirty : Bool
  pub tag : ℕ
  pub lru_counter : ℕ

-- Row `k` of `cache` is `sets k`, for `k` below `S`. The hit, miss and eviction counters of the
-- class are never written, and left out. `int` counters do not wrap here.
pub record Cache : Type 0 where
  pub sets : ℕ → List CacheLine
  pub s : ℕ
  pub e : ℕ
  pub b : ℕ
  pub t : ℕ
  pub global_counter : ℕ

-- `Cache(Context*)`. The rows come from `malloc` and are not cleared: `memory` is what stood there.
unfoldable pub new_cache : (ℕ → List CacheLine) → Cache
new_cache memory = record { sets = memory; s = 2; e = 4; b = 9; t = 64 - 2 - 9; global_counter = 0 }

-- `Cache(int, int, int, Context*)`
unfoldable pub new_cache_of : ℕ → ℕ → ℕ → (ℕ → List CacheLine) → Cache
new_cache_of s e b memory = record {
  sets = memory;
  s = s;
  e = e;
  b = b;
  t = 64 - s - b;
  global_counter = 0;
}

-- `addr >> (s+b)`
abbrev pub tag_of : Cache → ℕ → ℕ
tag_of c addr = addr / 2 ^ (c.s + c.b)

-- `(addr << t) >> (t+b)`, on 64 bits
abbrev pub set_idx : Cache → ℕ → ℕ
set_idx c addr = addr * 2 ^ c.t % 2 ^ 64 / 2 ^ (c.t + c.b)

-- The row of an address, the lines before it and after it untouched.
abbrev pub put_set : (ℕ → List CacheLine) → ℕ → List CacheLine → ℕ → List CacheLine
put_set sets k row j = if k == j then row else sets j

abbrev pub is_hit : ℕ → CacheLine → Bool
is_hit tag l = l.tag == tag && l.valid

-- The loop of `getLine`: the first valid line with the tag.
unfoldable pub find_line : ℕ → List CacheLine → Option CacheLine
find_line tag [] = none
find_line tag (l ∷ ls) = if is_hit tag l then some l else find_line tag ls

-- `getLine`; `none` is `exit(-1)`.
unfoldable pub get_line : Cache → ℕ → Option CacheLine
unfolding find_line
get_line c addr = find_line (tag_of c addr) (c.sets (set_idx c addr))

-- `cache_line line = getLine(addr)` copies the line, and what is written to the copy is lost.
-- Only the counter moves.
unfoldable pub read_line : Cache → ℕ → Option Cache
unfolding get_line
read_line c addr = elim (get_line c addr) [
  | none ↦ none
  | some line ↦ some (record c { global_counter = c.global_counter + 1 })
]

-- `line.valid = false` is written to a copy.
unfoldable pub invalidate_line : Cache → ℕ → Option Cache
unfolding get_line
invalidate_line c addr = elim (get_line c addr) [ none ↦ none | some line ↦ some c ]

-- `line.dirty = false` is written to a copy.
unfoldable pub fetch_line : Cache → ℕ → Option Cache
unfolding get_line
fetch_line c addr = elim (get_line c addr) [
  | none ↦ none
  | some line ↦ some (record c { global_counter = c.global_counter + 1 })
]

-- What the loop of `updateLine` finds: a hit, or `write_idx` and `eviction_idx` (`none` for -1).
pub data Scan : Type 0 where
  hit : ℕ → Scan
  miss : Option ℕ → Option ℕ → Scan

-- `if (write_idx == -1) write_idx = i;`
abbrev pub first_free : Option ℕ → ℕ → Option ℕ
first_free none i = some i
first_free (some k) i = some k

-- The loop of `updateLine` from index `i` on, with its variables.
unfoldable pub scan : ℕ → List CacheLine → ℕ → Option ℕ → ℕ → Option ℕ → Scan
scan tag [] i write_idx min_lru eviction_idx = miss write_idx eviction_idx
scan tag (l ∷ ls) i write_idx min_lru eviction_idx = elim (is_hit tag l) [
  | true ↦ hit i
  | false ↦ elim l.valid [
    | false ↦ scan tag ls (suc i) (first_free write_idx i) min_lru eviction_idx
    | true ↦ elim (ltb l.lru_counter min_lru) [
      | true ↦ scan tag ls (suc i) write_idx l.lru_counter (some i)
      | false ↦ scan tag ls (suc i) write_idx min_lru eviction_idx
    ]
  ]
]

abbrev pub written : ℕ → ℕ → CacheLine
written tag counter = record { valid = true; dirty = true; tag = tag; lru_counter = counter }

-- What `updateLine` does to its row after the loop: the new row, and the tag that it evicts. `none`
-- is an access at index -1.
abbrev pub write_row : ℕ → ℕ → List CacheLine → Scan → Option (List CacheLine × Option ℕ)
write_row tag counter ls (hit i) = elim (get_elem? ls i) [
  | none ↦ none
  | some l ↦ some (set ls i (record l { dirty = true; lru_counter = counter }), none)
]
write_row tag counter ls (miss (some i) eviction_idx) = some (set ls i (written tag counter), none)
write_row tag counter ls (miss none (some i)) = elim (get_elem? ls i) [
  | none ↦ none
  | some victim ↦ some (set ls i (written tag counter), some victim.tag)
]
write_row tag counter ls (miss none none) = none

unfoldable pub update_set : ℕ → ℕ → List CacheLine → Option (List CacheLine × Option ℕ)
unfolding scan
update_set tag counter ls = write_row tag counter ls (scan tag ls 0 none int_max none)

-- `((addr << t) >> t) | (evicted_tag << (b + s))`, on 64 bits
abbrev pub eviction_addr : Cache → ℕ → ℕ → ℕ
eviction_addr c addr evicted_tag =
    bit_or (addr * 2 ^ c.t % 2 ^ 64 / 2 ^ c.t) (evicted_tag * 2 ^ (c.b + c.s) % 2 ^ 64)

-- What `updateLine` makes of the row that it wrote: the new cache, and `*evictionAddr` if it returns
-- true.
abbrev pub updated : Cache → ℕ → List CacheLine × Option ℕ → Cache × Option ℕ
updated c addr (row, evicted) = (
  record c { sets = put_set c.sets (set_idx c addr) row; global_counter = c.global_counter + 1 },
  elim evicted [ none ↦ none | some v ↦ some (eviction_addr c addr v) ],
)

unfoldable pub update_line : Cache → ℕ → Option (Cache × Option ℕ)
unfolding update_set
update_line c addr = elim (update_set (tag_of c addr) c.global_counter (c.sets (set_idx c addr))) [
  | none ↦ none
  | some written_row ↦ some (updated c addr written_row)
]
