-- ===== src/TaskLib/InfoTrip.antt =====
-- What writeTaskGraphInfo writes, initTaskGraphInfo reads back (common/taskLib/TaskGraphInfo.cpp).
use syncd_sim.Base.{
  ℕ, suc, ◌%◌, ◌^◌, ◌<◌, ◌≤◌, ◌≡◌, refl, ap, sym, false, List, [], ◌∷◌, ◌++◌, ◌==◌, ltb, lt→ltb,
  length, All, All-append, append_assoc, append_nil, arith, ==_refl,
}
use syncd_sim.Base.Effects.{ok, stray_memory}
use syncd_sim.Base.Effects.Steps.{Runs, Runs-bind, Runs-pure, Runs-require, Runs-if_true}
use syncd_sim.TaskLib.Bytes.{to_bytes, of_bytes-to_bytes, length-to_bytes}
use syncd_sim.TaskLib.RoundTrip.{Runs-ct_read, Runs-ct_read_word}
use syncd_sim.TaskLib.Info.{
  BasicBlockInfo, BlockMap, put_block, read_zeroed, read_word, c_string, read_chars, read_text,
  read_block, read_blocks, init_task_graph_info, put_text, put_block_info, put_blocks,
  write_task_graph_info,
}

abbrev IsUint : ℕ → Type 0
IsUint n = n < 2 ^ 32

-- A text that a C string can hold.
pub record IsText (s : List ℕ) : Type 0 where
  pub short : length s < 2 ^ 32
  pub chars : All (λ b. (b == 0) ≡ false) s

pub record IsBlock (bbi : BasicBlockInfo) : Type 0 where
  pub flags : IsUint bbi.flags
  pub line : IsUint bbi.line_number
  pub mem_ops : IsUint bbi.num_of_mem_ops
  pub ops : IsUint bbi.num_of_ops
  pub path : IsUint bbi.crit_path_len
  pub function : IsText bbi.function_name
  pub file : IsText bbi.file_name
  pub calls : IsText bbi.calls_function

-- The keys are 32-bit numbers above `low`, in ascending order.
abbrev pub Ascends : ℕ → BlockMap → Type 0
Ascends low [] = Unit
Ascends low ((id, bbi) ∷ rest) = low ≤ id × IsUint id × IsBlock bbi × Ascends (suc id) rest

pub Runs-read_zeroed :
    (w n : ℕ) (rest : List ℕ) → n < 256 ^ w → Runs (read_zeroed w) (to_bytes w n ++ rest) n rest
unfolding read_zeroed
Runs-read_zeroed w n rest h =
    Runs-bind _ (Runs-ct_read_word w n rest)
      (record { result = ap (λ m. ok (m, rest)) (of_bytes-to_bytes w n h) })

pub Runs-read_word :
    (w n : ℕ) (rest : List ℕ) → n < 256 ^ w → Runs (read_word w) (to_bytes w n ++ rest) n rest
unfolding read_word
Runs-read_word w n rest h = Runs-bind _ (Runs-ct_read_word w n rest) (
    Runs-require _ stray_memory (rw (length-to_bytes w n) (==_refl w))
      (record { result = ap (λ m. ok (m, rest)) (of_bytes-to_bytes w n h) }))

c_string_whole : (s : List ℕ) → All (λ b. (b == 0) ≡ false) s → c_string s ≡ s
unfolding c_string
c_string_whole [] h = refl
c_string_whole (b ∷ bs) h = rw (h.0) (ap (λ cs. b ∷ cs) (c_string_whole bs h.1))

Runs-read_chars : (s rest : List ℕ) → IsText s → Runs (read_chars (length s)) (s ++ rest) s rest
unfolding read_chars
Runs-read_chars [] rest h = Runs-pure [] rest
Runs-read_chars (b ∷ bs) rest h = Runs-bind _ (Runs-ct_read (b ∷ bs) rest) (
    Runs-require _ stray_memory (==_refl (suc (length bs)))
      (record { result = ap (λ s. ok (s, rest)) (c_string_whole (b ∷ bs) h.chars) }))

Runs-read_text : (s rest : List ℕ) → IsText s → Runs read_text (put_text s ++ rest) s rest
unfolding read_text put_text
Runs-read_text s rest h = rw (append_assoc (to_bytes 4 (length s % 2 ^ 32)) s rest) (
    Runs-bind _ (Runs-read_word 4 (length s % 2 ^ 32) _ (omega arith))
      (rw (exact) (Runs-read_chars s rest h)))
  where
    exact : length s % 2 ^ 32 ≡ length s
    exact = let short = h.short in omega arith

Runs-read_block :
    (id : ℕ) (bbi : BasicBlockInfo) (rest : List ℕ)
    → IsUint id
    → IsBlock bbi
    → Runs read_block (put_block_info (id, bbi) ++ rest) (id, bbi) rest
unfolding read_block put_block_info
Runs-read_block id bbi rest k h = simp append_assoc (
    Runs-bind _ (Runs-read_zeroed 4 id _ k) (
      Runs-bind _ (Runs-read_zeroed 4 bbi.flags _ h.flags) (
        Runs-bind _ (Runs-read_word 4 bbi.line_number _ h.line) (
          Runs-bind _ (Runs-read_word 4 bbi.num_of_mem_ops _ h.mem_ops) (
            Runs-bind _ (Runs-read_word 4 bbi.num_of_ops _ h.ops) (
              Runs-bind _ (Runs-read_word 4 bbi.crit_path_len _ h.path) (
                Runs-bind _ (Runs-read_text bbi.function_name _ h.function) (
                  Runs-bind _ (Runs-read_text bbi.file_name _ h.file) (
                    Runs-bind _ (Runs-read_text bbi.calls_function rest h.calls)
                      (Runs-pure (id, bbi) rest))))))))))

abbrev Below : ℕ → BlockMap → Type 0
Below id = All (λ (p : ℕ × BasicBlockInfo). p.0 < id)

put_block-last :
    (id : ℕ) (bbi : BasicBlockInfo) (info : BlockMap)
    → Below id info
    → put_block id bbi info ≡ info ++ ((id, bbi) ∷ [])
unfolding put_block
put_block-last id bbi [] h = refl
put_block-last id bbi ((k, old) ∷ rest) h =
    rw (other, after) (ap (λ more. (k, old) ∷ more) (put_block-last id bbi rest h.1))
  where
    other : (id == k) ≡ false
    other = let less : k < id = h.0 in ground arith

    after : ltb id k ≡ false
    after = let less : k < id = h.0 in ground arith

Below-weaken : (a b : ℕ) (info : BlockMap) → a ≤ b → Below a info → Below b info
Below-weaken a b [] h k = tt
Below-weaken a b ((id, _) ∷ rest) h k =
    let less : id < a = k.0 in (omega arith, Below-weaken a b rest h k.1)

Below-next :
    (id : ℕ) (bbi : BasicBlockInfo) (info : BlockMap)
    → Below id info
    → Below (suc id) (info ++ ((id, bbi) ∷ []))
Below-next id bbi info h =
    All-append _ info _ (Below-weaken id (suc id) info (omega arith) h) (omega arith, tt)

Runs-read_blocks :
    (low : ℕ) (info seen : BlockMap) (rest : List ℕ)
    → Ascends low info
    → Below low seen
    → Runs (read_blocks (length info) seen) (put_blocks info ++ rest) (seen ++ info) rest
unfolding read_blocks put_blocks
Runs-read_blocks low [] seen rest h k = record {
  result = ap (λ m. ok (m, rest)) (sym (append_nil seen));
}
Runs-read_blocks low ((id, bbi) ∷ info) seen rest h k =
    let (above, small, good, more) = h in
    let seen' = Below-weaken low id seen above k in
    rw (append_assoc (put_block_info (id, bbi)) (put_blocks info) rest) (
      Runs-bind _ (Runs-read_block id bbi _ small good) (
        rw (put_block-last id bbi seen seen', ← append_assoc seen ((id, bbi) ∷ []) info)
          (Runs-read_blocks (suc id) info (seen ++ ((id, bbi) ∷ [])) rest more
            (Below-next id bbi seen seen'))))

pub Runs-init_task_graph_info :
    (info : BlockMap) (rest : List ℕ)
    → Ascends 0 info
    → length info < 2 ^ 31
    → Runs init_task_graph_info (write_task_graph_info info ++ rest) info rest
unfolding init_task_graph_info write_task_graph_info
Runs-init_task_graph_info info rest h small =
    rw (append_assoc (to_bytes 4 (length info % 2 ^ 32)) (put_blocks info) rest) (
      Runs-bind _ (Runs-read_zeroed 4 (length info % 2 ^ 32) _ (omega arith))
        (rw (exact) (Runs-if_true _ _ (lt→ltb _ _ small) (Runs-read_blocks 0 info [] rest h tt))))
  where
    exact : length info % 2 ^ 32 ≡ length info
    exact = omega arith
