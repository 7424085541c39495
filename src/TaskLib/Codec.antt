-- ===== src/TaskLib/Codec.antt =====
-- common/taskLib/Task.cpp, writeContechTask and readContechTaskUnlock, and the file functions of
-- common/taskLib/ct_file.c. The record of a task is compressed by zlib, which is a parameter.
use syncd_sim.Base.{
  ℕ, zero, suc, ◌+◌, ◌-◌, ◌*◌, ◌%◌, ◌^◌, List, [], ◌∷◌, ◌++◌, ◌==◌, ltb, not, ◌||◌, length,
  if◌then◌else◌, Option, none, some, ◌≡◌, drop, take,
}
use syncd_sim.Base.Effects.{
  Exec, Result, pure, fail, require, ok, err, ◌>>=◌, ◌>>◌, assertion, stray_memory, out_of_fuel,
}
use syncd_sim.TaskLib.Bytes.{to_bytes, of_bytes, get_word}
use syncd_sim.TaskLib.Actions.{is_basic_block_action}
use syncd_sim.TaskLib.Record.{Task, task_type_create, task_type_join}

-- zlib: `compress` makes these bytes if they fit, and `uncompress` gives `none` on an error.
pub record Zlib : Type 0 where
  pub deflate : List ℕ → List ℕ
  pub inflate : List ℕ → Option (List ℕ)

-- What zlib promises: a compressed buffer is restored.
pub record Restores (z : Zlib) : Type 0 where
  pub restores : (bytes : List ℕ) → z.inflate (z.deflate bytes) ≡ some bytes

-- `fread(ptr, 1, n, handle)` on a file with these bytes left: what it reads, and what is left.
unfoldable pub fread : ℕ → List ℕ → List ℕ × List ℕ
fread n file = (take n file, drop n file)

-- The loop of `ct_read`, which ends on a round that reads nothing at the end of the file.
unfoldable pub ct_read_loop : ℕ → ℕ → List ℕ → Exec (List ℕ) (List ℕ)
ct_read_loop zero size read file = err out_of_fuel
ct_read_loop (suc fuel) size read file =
    let (r, file') = fread (size - length read) file in
    let all = read ++ r in
    let more = ct_read_loop fuel size all file' in
    if length r == 0
    then ok (all, file')
    else if ltb (length all) size
    then more
    else ok (all, file')

-- Every round but the last reads a byte.
unfoldable pub ct_read : ℕ → Exec (List ℕ) (List ℕ)
ct_read size file = ct_read_loop (suc (suc (length file))) size [] file

-- The loops over the three vectors.
unfoldable pub get_words : ℕ → Exec (List ℕ) (List ℕ)
get_words zero = pure []
get_words (suc n) = do x ← get_word 8; xs ← get_words n; pure (x ∷ xs)

unfoldable pub get_vector : Exec (List ℕ) (List ℕ)
get_vector = do n ← get_word 4; get_words n

unfoldable pub count_blocks : List ℕ → ℕ
count_blocks [] = 0
count_blocks (a ∷ rest) = (if is_basic_block_action a then 1 else 0) + count_blocks rest

-- The reads from the uncompressed record.
unfoldable pub get_task : Exec (List ℕ) Task
get_task = do
  task_id ← get_word 8
  start_time ← get_word 8
  end_time ← get_word 8
  actions ← get_vector
  successors ← get_vector
  predecessors ← get_vector
  type ← get_word 4
  sync_type ← get_word 4
  pure (record {
    task_id = task_id;
    start_time = start_time;
    end_time = end_time;
    actions = actions;
    successors = successors;
    predecessors = predecessors;
    type = type;
    sync_type = sync_type;
    bb_count = count_blocks actions;
  })

-- The reads from the record, whose bytes behind the last one are not looked at.
unfoldable pub first_result : Result (Task × List ℕ) → Result Task
first_result (ok (t, rest)) = ok t
first_result (err e) = err e

-- `uncompress` into a buffer of `record_length` bytes, and the reads from it. Where it fails it
-- leaves a buffer that nothing has written.
unfoldable pub unpack : ℕ → Option (List ℕ) → Result Task
unpack record_length none = err stray_memory
unpack record_length (some bytes) = first_result (get_task (take record_length bytes))

unfoldable pub return_task : Result Task → Exec (List ℕ) (Option Task)
return_task (ok t) = pure (some t)
return_task (err e) = fail e

module _ (z : Zlib) where
  -- `readContechTaskUnlock`. A short read of a length sets the end-of-file flag, and the second
  -- read is short if the first one is; a null pointer is returned then.
  unfoldable pub read_contech_task : Exec (List ℕ) (Option Task)
  read_contech_task = do
    record_length ← ct_read 8
    comp_length ← ct_read 8
    if ltb (length comp_length) 8 then pure none else do
      comp ← ct_read (of_bytes comp_length)
      require (length comp == of_bytes comp_length) stray_memory
      return_task (unpack (of_bytes record_length) (z.inflate comp))

unfoldable pub put_words : List ℕ → List ℕ
put_words [] = []
put_words (x ∷ xs) = to_bytes 8 x ++ put_words xs

-- `uint size = v.size();` is written before the elements.
unfoldable pub put_vector : List ℕ → List ℕ
put_vector xs = to_bytes 4 (length xs % 2 ^ 32) ++ put_words xs

unfoldable pub put_task : Task → List ℕ
put_task t =
    to_bytes 8 t.task_id
    ++ (to_bytes 8 t.start_time
        ++ (to_bytes 8 t.end_time
            ++ (put_vector t.actions
                ++ (put_vector t.successors
                    ++ (put_vector t.predecessors
                        ++ (to_bytes 4 t.type ++ to_bytes 4 t.sync_type))))))

-- `recordLength`
unfoldable pub record_length_of : Task → ℕ
record_length_of t =
    8
    + 8
    + 8
    + (4 + length t.actions % 2 ^ 32 * 8)
    + (4 + length t.successors % 2 ^ 32 * 8)
    + (4 + length t.predecessors % 2 ^ 32 * 8)
    + 4
    + 4

-- `ct_write` of a buffer to a file that takes every byte.
abbrev pub ct_write : List ℕ → Exec (List ℕ) ℕ
ct_write bytes file = ok (length bytes, file ++ bytes)

module _ (z : Zlib) where
  -- `compress` into a buffer of `recordLength + 12` bytes, whose result is not looked at: where the
  -- output does not fit, the buffer has the first part of it.
  unfoldable pub compressed : Task → List ℕ
  compressed t = take (record_length_of t + 12) (z.deflate (put_task t))

  -- `writeContechTask`; what it returns counts the bytes before compression.
  unfoldable pub write_contech_task : Task → Exec (List ℕ) ℕ
  write_contech_task t = do
    require (ltb (record_length_of t) (2 ^ 31)) assertion
    require (not (t.type == task_type_join) || ltb (length t.successors) (length t.predecessors))
        assertion
    require (not (t.type == task_type_create) || ltb (length t.predecessors) (length t.successors))
        assertion
    _ ← ct_write (to_bytes 8 (record_length_of t))
    _ ← ct_write (to_bytes 8 (length (compressed t)))
    _ ← ct_write (compressed t)
    pure (record_length_of t + 8 + 8)
