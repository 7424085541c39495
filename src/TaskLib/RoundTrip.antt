-- ===== src/TaskLib/RoundTrip.antt =====
-- A task that writeContechTask has written is read back by readContechTaskUnlock
-- (common/taskLib/Task.cpp).
use syncd_sim.Base.{
  ℕ, suc, ◌+◌, ◌-◌, ◌*◌, ◌%◌, ◌^◌, ◌≤◌, ◌<◌, false, List, [], ◌∷◌, ◌++◌, ◌==◌, ltb, length, some,
  ◌≡◌, refl, ap, sym, ◌∙◌, drop, take, take_all, take-append, drop-append, All, arith, append_nil,
  append_assoc, length-append, Bool-cases, inl, inr, ==_refl,
}
use syncd_sim.Base.Effects.{ok, ◌>>=◌, stray_memory}
use syncd_sim.Base.Effects.Steps.{Runs, Runs-bind, Runs-pure, Runs-require}
use syncd_sim.TaskLib.Bytes.{to_bytes, get_word, Runs-get_word, length-to_bytes, of_bytes-to_bytes}
use syncd_sim.TaskLib.Actions.{IsWord}
use syncd_sim.TaskLib.Record.{Task}
use syncd_sim.TaskLib.Codec.{
  Zlib, Restores, get_words, get_vector, get_task, put_words, put_vector, put_task, compressed,
  count_blocks, read_contech_task, write_contech_task, ct_read, ct_read_loop, fread, unpack,
  first_result, return_task, record_length_of,
}

-- The fields hold what their C++ types hold, and the count of blocks is right.
pub record IsTask (t : Task) : Type 0 where
  pub id : IsWord t.task_id
  pub start : IsWord t.start_time
  pub end : IsWord t.end_time
  pub actions : All IsWord t.actions
  pub successors : All IsWord t.successors
  pub predecessors : All IsWord t.predecessors
  pub type : t.type < 2 ^ 32
  pub sync : t.sync_type < 2 ^ 32
  pub blocks : t.bb_count ≡ count_blocks t.actions

-- The vectors' sizes fit the 32-bit numbers that are written for them.
pub record IsShort (t : Task) : Type 0 where
  pub actions : length t.actions < 2 ^ 32
  pub successors : length t.successors < 2 ^ 32
  pub predecessors : length t.predecessors < 2 ^ 32

Runs-get_words :
    (xs rest : List ℕ) → All IsWord xs → Runs (get_words (length xs)) (put_words xs ++ rest) xs rest
unfolding get_words put_words
Runs-get_words [] rest h = Runs-pure [] rest
Runs-get_words (x ∷ xs) rest h = rw (append_assoc (to_bytes 8 x) (put_words xs) rest) (
    Runs-bind _ (Runs-get_word 8 x _ h.0)
      (Runs-bind _ (Runs-get_words xs rest h.1) (Runs-pure (x ∷ xs) rest)))

Runs-get_vector :
    (xs rest : List ℕ)
    → All IsWord xs
    → length xs < 2 ^ 32
    → Runs get_vector (put_vector xs ++ rest) xs rest
unfolding get_vector put_vector
Runs-get_vector xs rest h small =
    rw (append_assoc (to_bytes 4 (length xs % 2 ^ 32)) (put_words xs) rest) (
      Runs-bind _ (Runs-get_word 4 (length xs % 2 ^ 32) _ (omega arith))
        (rw (exact) (Runs-get_words xs rest h)))
  where
    exact : length xs % 2 ^ 32 ≡ length xs
    exact = omega arith

Runs-get_task : (t : Task) → IsTask t → IsShort t → Runs get_task (put_task t) t []
unfolding get_task put_task
Runs-get_task t h k = Runs-bind _ (Runs-get_word 8 t.task_id _ h.id) (
    Runs-bind _ (Runs-get_word 8 t.start_time _ h.start) (
      Runs-bind _ (Runs-get_word 8 t.end_time _ h.end) (
        Runs-bind _ (Runs-get_vector t.actions _ h.actions k.actions) (
          Runs-bind _ (Runs-get_vector t.successors _ h.successors k.successors) (
            Runs-bind _ (Runs-get_vector t.predecessors _ h.predecessors k.predecessors) (
              Runs-bind _ (Runs-get_word 4 t.type _ h.type) (
                Runs-bind _ last record {
                  result = ap (λ n. ok (record t { bb_count = n }, [])) (sym h.blocks);
                })))))))
  where
    last : Runs (get_word 4) (to_bytes 4 t.sync_type) t.sync_type []
    last = rw append_nil at (Runs-get_word 4 t.sync_type [] h.sync)

-- A round that reads all that was asked for is the last.
full_round :
    (fuel size : ℕ) (file r file' : List ℕ)
    → fread (size - 0) file ≡ (r, file')
    → length r ≡ size
    → ct_read_loop (suc fuel) size [] file ≡ ok (r, file')
unfolding ct_read_loop
full_round fuel size file r file' e h = rw e (elim (Bool-cases (length r == 0)) [
  | inl none_read ↦ rw none_read
  | inr some_read ↦ rw some_read (rw enough)
])
  where
    enough : ltb (length r) size ≡ false
    enough = ground arith

pub Runs-ct_read : (bs rest : List ℕ) → Runs (ct_read (length bs)) (bs ++ rest) bs rest
unfolding ct_read fread
Runs-ct_read bs rest = record { result = full_round _ (length bs) (bs ++ rest) bs rest all refl }
  where
    all : fread (length bs - 0) (bs ++ rest) ≡ (bs, rest)
    all =
        let e : length bs - 0 ≡ length bs = omega arith in
        rw (e, take-append bs rest, drop-append bs rest)

pub Runs-ct_read_word :
    (w n : ℕ) (rest : List ℕ) → Runs (ct_read w) (to_bytes w n ++ rest) (to_bytes w n) rest
Runs-ct_read_word w n rest = rw (length-to_bytes w n) at (Runs-ct_read (to_bytes w n) rest)

length-put_words : (xs : List ℕ) → length (put_words xs) ≡ length xs * 8
unfolding put_words
length-put_words [] = refl
length-put_words (x ∷ xs) =
    omega
      (arith, length-append (to_bytes 8 x) (put_words xs), length-to_bytes 8 x, length-put_words xs)

length-put_vector :
    (xs : List ℕ) → length xs < 2 ^ 32 → length (put_vector xs) ≡ 4 + length xs % 2 ^ 32 * 8
unfolding put_vector
length-put_vector xs h = omega (
  arith,
  length-append (to_bytes 4 (length xs % 2 ^ 32)) (put_words xs),
  length-to_bytes 4 (length xs % 2 ^ 32),
  length-put_words xs,
)

-- The buffer that is compressed has the length that is computed for it.
length-put_task : (t : Task) → IsShort t → length (put_task t) ≡ record_length_of t
unfolding put_task record_length_of
length-put_task t k =
    simp (length-append, length-to_bytes)
      (omega (
        arith,
        length-put_vector t.actions k.actions,
        length-put_vector t.successors k.successors,
        length-put_vector t.predecessors k.predecessors,
      ))

-- The compressed record fits the buffer that `writeContechTask` gives to `compress`.
pub record IsRoomy (z : Zlib) (t : Task) : Type 0 where
  pub room : length (z.deflate (put_task t)) ≤ record_length_of t + 12

module _ (z : Zlib) (zlib : Restores z) (t : Task) (h : IsTask t) (k : IsShort t)
    (r : IsRoomy z t) where
  abbrev pub comp : List ℕ
  comp = z.deflate (put_task t)

  -- What is appended to the file.
  abbrev pub task_record : List ℕ
  task_record = to_bytes 8 (record_length_of t) ++ (to_bytes 8 (length comp) ++ comp)

  unpack-comp : unpack (record_length_of t) (z.inflate comp) ≡ ok t
  unfolding unpack first_result
  unpack-comp =
      ap (unpack (record_length_of t)) (zlib.restores (put_task t))
      ∙ ap (λ bytes. first_result (get_task bytes)) exact
      ∙ ap first_result ((Runs-get_task t h k).result)
    where
      exact : take (record_length_of t) (put_task t) ≡ put_task t
      exact = rw (← length-put_task t k) (rw append_nil at (take-append (put_task t) []))

  Runs-read_contech_task :
      (rest : List ℕ)
      → length comp < 2 ^ 64
      → record_length_of t < 2 ^ 31
      → Runs (read_contech_task z) (task_record ++ rest) (some t) rest
  unfolding read_contech_task return_task
  Runs-read_contech_task rest small bounded =
      rw (append_assoc (to_bytes 8 (record_length_of t)) (to_bytes 8 (length comp) ++ comp) rest) (
        rw (append_assoc (to_bytes 8 (length comp)) comp rest) (
          Runs-bind _ (Runs-ct_read_word 8 (record_length_of t) _) (
            Runs-bind _ (Runs-ct_read_word 8 (length comp) _) (
              rw
                (
                  length-to_bytes 8 (length comp),
                  of_bytes-to_bytes 8 (length comp) small,
                  of_bytes-to_bytes 8 (record_length_of t) (omega arith),
                )
                (Runs-bind _ (Runs-ct_read comp rest) (
                  Runs-require _ stray_memory (==_refl (length comp))
                    (rw unpack-comp (Runs-pure (some t) rest))))))))

  whole : compressed z t ≡ comp
  unfolding compressed
  whole = take_all (record_length_of t + 12) comp r.room

  -- What a write that does not stop leaves.
  pub write_contech_task_appends :
      (out out' : List ℕ) (n : ℕ)
      → write_contech_task z t out ≡ ok (n, out')
      → (out' ≡ out ++ task_record) × (record_length_of t < 2 ^ 31)
  unfolding write_contech_task ◌>>=◌
  write_contech_task_appends out out' n e = (appended, ground arith)
    where
      first : List ℕ
      first = to_bytes 8 (record_length_of t)

      second : List ℕ
      second = to_bytes 8 (length comp)

      appended : out' ≡ out ++ task_record
      appended = ground (
        arith,
        whole,
        append_assoc (out ++ first) second comp,
        append_assoc out first (second ++ comp),
      )

  pub write_contech_task_grows :
      (out out' : List ℕ) (n : ℕ)
      → write_contech_task z t out ≡ ok (n, out')
      → length out < length out'
  write_contech_task_grows out out' n e =
      let (appended, _) = write_contech_task_appends out out' n e in
      omega (
        arith,
        ap length appended,
        length-append out task_record,
        length-append (to_bytes 8 (record_length_of t)) (to_bytes 8 (length comp) ++ comp),
        length-to_bytes 8 (record_length_of t),
      )

  -- Let zlib restore what it compresses, and a task hold what its C++ types hold, with a right
  -- count of basic blocks and vectors of fewer than 2 ^ 32 elements, and let the compressed record
  -- fit its buffer of 12 bytes more than the record has. If `writeContechTask` returns, then
  -- reading at the position where it wrote gives the same task, and leaves what follows in the
  -- file.
  pub read_contech_task-write_contech_task :
      (out out' rest : List ℕ) (n : ℕ)
      → write_contech_task z t out ≡ ok (n, out')
      → read_contech_task z (drop (length out) (out' ++ rest)) ≡ ok (some t, rest)
  read_contech_task-write_contech_task out out' rest n e =
      let room = r.room in
      let (appended, bounded) = write_contech_task_appends out out' n e in
      rw (appended, append_assoc out task_record rest, drop-append out (task_record ++ rest))
        ((Runs-read_contech_task rest (omega arith) bounded).result)
