-- ===== src/TaskLib/Info.antt =====
-- common/taskLib/TaskGraphInfo.hpp and TaskGraphInfo.cpp: what is kept of the basic blocks of the
-- traced program, and how it is written to and read from a task graph.
use syncd_sim.Base.{
  ◌-◌, ℕ, zero, suc, ◌%◌, ◌^◌, List, [], ◌∷◌, ◌++◌, ◌==◌, ltb, length, if◌then◌else◌,
}
use syncd_sim.Base.Effects.{Exec, pure, require, ◌>>=◌, ◌>>◌, stray_memory}
use syncd_sim.TaskLib.Bytes.{to_bytes, of_bytes}
use syncd_sim.TaskLib.Codec.{ct_read}

-- `BasicBlockInfo`; a text is the list of its bytes.
pub record BasicBlockInfo : Type 0 where
  pub flags : ℕ
  pub line_number : ℕ
  pub num_of_mem_ops : ℕ
  pub num_of_ops : ℕ
  pub crit_path_len : ℕ
  pub function_name : List ℕ
  pub file_name : List ℕ
  pub calls_function : List ℕ

-- `map<uint, BasicBlockInfo>`, in the order of its keys.
abbrev pub BlockMap : Type 0
BlockMap = List (ℕ × BasicBlockInfo)

-- `bbInfo[bbid] = bbi`
unfoldable pub put_block : ℕ → BasicBlockInfo → BlockMap → BlockMap
put_block id bbi [] = (id, bbi) ∷ []
put_block id bbi ((k, old) ∷ rest) =
    if id == k
    then (id, bbi) ∷ rest
    else if ltb id k
    then (id, bbi) ∷ ((k, old) ∷ rest)
    else (k, old) ∷ put_block id bbi rest

-- A variable that `ct_read` fills, whose initial value is 0, or is not defined: then a short read
-- leaves memory that nothing has written.
unfoldable pub read_zeroed : ℕ → Exec (List ℕ) ℕ
read_zeroed w = do bs ← ct_read w; pure (of_bytes bs)

unfoldable pub read_word : ℕ → Exec (List ℕ) ℕ
read_word w = do bs ← ct_read w; require (length bs == w) stray_memory; pure (of_bytes bs)

-- `text.assign(f)` for a C string: up to the first byte that is 0.
unfoldable pub c_string : List ℕ → List ℕ
c_string [] = []
c_string (b ∷ bs) = if b == 0 then [] else b ∷ c_string bs

-- The bytes of a text, if there are any.
unfoldable pub read_chars : ℕ → Exec (List ℕ) (List ℕ)
read_chars zero = pure []
read_chars (suc n) = do
  f ← ct_read (suc n)
  require (length f == suc n) stray_memory
  pure (c_string f)

-- One of the three texts of a block.
unfoldable pub read_text : Exec (List ℕ) (List ℕ)
read_text = do len ← read_word 4; read_chars len

unfoldable pub read_block : Exec (List ℕ) (ℕ × BasicBlockInfo)
read_block = do
  bbid ← read_zeroed 4
  flags ← read_zeroed 4
  line_number ← read_word 4
  num_of_mem_ops ← read_word 4
  num_of_ops ← read_word 4
  crit_path_len ← read_word 4
  function_name ← read_text
  file_name ← read_text
  calls_function ← read_text
  pure (
    bbid,
    record {
      flags = flags;
      line_number = line_number;
      num_of_mem_ops = num_of_mem_ops;
      num_of_ops = num_of_ops;
      crit_path_len = crit_path_len;
      function_name = function_name;
      file_name = file_name;
      calls_function = calls_function;
    },
  )

-- The loop of `initTaskGraphInfo`.
unfoldable pub read_blocks : ℕ → BlockMap → Exec (List ℕ) BlockMap
read_blocks zero info = pure info
read_blocks (suc n) info = do (bbid, bbi) ← read_block; read_blocks n (put_block bbid bbi info)

-- `initTaskGraphInfo` of a new `TaskGraphInfo`. The number of blocks is an `int`, and the loop is
-- not entered if it is negative.
unfoldable pub init_task_graph_info : Exec (List ℕ) BlockMap
init_task_graph_info = do n ← read_zeroed 4; if ltb n (2 ^ 31) then read_blocks n [] else pure []

unfoldable pub put_text : List ℕ → List ℕ
put_text s = to_bytes 4 (length s % 2 ^ 32) ++ s

unfoldable pub put_block_info : ℕ × BasicBlockInfo → List ℕ
put_block_info (bbid, bbi) =
    to_bytes 4 bbid
    ++ (to_bytes 4 bbi.flags
        ++ (to_bytes 4 bbi.line_number
            ++ (to_bytes 4 bbi.num_of_mem_ops
                ++ (to_bytes 4 bbi.num_of_ops
                    ++ (to_bytes 4 bbi.crit_path_len
                        ++ (put_text bbi.function_name
                            ++ (put_text bbi.file_name ++ put_text bbi.calls_function)))))))

unfoldable pub put_blocks : BlockMap → List ℕ
put_blocks [] = []
put_blocks (b ∷ bs) = put_block_info b ++ put_blocks bs

-- The bytes that `writeTaskGraphInfo` adds to the file.
unfoldable pub write_task_graph_info : BlockMap → List ℕ
write_task_graph_info info = to_bytes 4 (length info % 2 ^ 32) ++ put_blocks info

-- The static `bbi` of `getBasicBlockInfo`, in which only the line number is ever set.
abbrev unknown_block : BasicBlockInfo
unknown_block = record {
  flags = 0;
  line_number = 2 ^ 32 - 1;
  num_of_mem_ops = 0;
  num_of_ops = 0;
  crit_path_len = 0;
  function_name = [];
  file_name = [];
  calls_function = [];
}

-- `getBasicBlockInfo`, as long as no caller writes through what it returns.
unfoldable pub get_basic_block_info : ℕ → BlockMap → BasicBlockInfo
get_basic_block_info id [] = unknown_block
get_basic_block_info id ((k, bbi) ∷ rest) = if id == k then bbi else get_basic_block_info id rest
