-- ===== src/Middle/Layout.antt =====
-- The parts of the file that middle/taskWrite.cpp completes, and the reading of its header.
use syncd_sim.Base.{
  ℕ, zero, suc, ◌+◌, ◌^◌, ◌<◌, ◌≤◌, List, [], ◌∷◌, ◌++◌, length, length-append, append_assoc, drop,
  take, take-append, drop-append, ◌≡◌, refl, arith, subst,
}
use syncd_sim.Base.Effects.Steps.{Runs, Runs-bind, Runs-pure}
use syncd_sim.TaskLib.Bytes.{to_bytes, of_bytes, length-to_bytes}
use syncd_sim.TaskLib.Info.{BlockMap, read_zeroed, write_task_graph_info}
use syncd_sim.TaskLib.InfoTrip.{
  Ascends, Runs-read_zeroed, Runs-read_word, Runs-init_task_graph_info,
}
use syncd_sim.TaskLib.RoundTrip.{Runs-ct_read_word}
use syncd_sim.TaskLib.Graph.{read_header, task_graph_version}
use syncd_sim.Middle.Writer.{patch}

-- Two fronts of the same length: a look past them sees the same.
pub drop_past :
    (xs ys rest : List ℕ) (p : ℕ)
    → length xs ≡ length ys
    → length xs ≤ p
    → drop p (xs ++ rest) ≡ drop p (ys ++ rest)
drop_past [] [] rest p e h = refl
drop_past [] (y ∷ ys) rest p e h = absurd (omega arith)
drop_past (x ∷ xs) [] rest p e h = absurd (omega arith)
drop_past (x ∷ xs) (y ∷ ys) rest zero e h = absurd (omega arith)
drop_past (x ∷ xs) (y ∷ ys) rest (suc p) e h = drop_past xs ys rest p (omega arith) (omega arith)

pub patch_lem :
    (front room rest bytes : List ℕ)
    → length front ≡ 4
    → length room ≡ length bytes
    → patch bytes (front ++ (room ++ rest)) ≡ front ++ (bytes ++ rest)
unfolding patch
patch_lem front room rest bytes four same = rw (left, right)
  where
    left : take 4 (front ++ (room ++ rest)) ≡ front
    left = subst (λ n. take n (front ++ (room ++ rest)) ≡ front) four (take-append front _)

    right : drop (4 + length bytes) (front ++ (room ++ rest)) ≡ rest
    right =
        let size : length (front ++ room) ≡ 4 + length bytes =
          omega (arith, length-append front room) in
        subst (λ n. drop n (front ++ (room ++ rest)) ≡ rest) size
          (rw (append_assoc front room rest) at (drop-append (front ++ room) rest))

pub Runs-read_any :
    (w n : ℕ) (rest : List ℕ)
    → Runs (read_zeroed w) (to_bytes w n ++ rest) (of_bytes (to_bytes w n)) rest
unfolding read_zeroed
Runs-read_any w n rest = Runs-bind _ (Runs-ct_read_word w n rest) (Runs-pure _ rest)

abbrev pub version : List ℕ
version = to_bytes 4 task_graph_version

abbrev pub numbers : ℕ → ℕ → ℕ → List ℕ
numbers x y z = to_bytes 8 x ++ (to_bytes 8 y ++ to_bytes 8 z)

pub length-numbers : (x y z : ℕ) → length (numbers x y z) ≡ 24
length-numbers x y z = simp (length-append, length-to_bytes)

pub length_framed :
    (ns rest : List ℕ) → length (version ++ (ns ++ rest)) ≡ 4 + length ns + length rest
length_framed ns rest = omega (
  arith,
  length-append version (ns ++ rest),
  length-append ns rest,
  length-to_bytes 4 task_graph_version,
)

-- The parts of the file: the version, three numbers, the basic blocks, the tasks, the index.
module _ (x roi_start roi_end : ℕ) (info : BlockMap) (tail : List ℕ) where
  abbrev pub graph_file : List ℕ
  graph_file = version ++ (numbers x roi_start roi_end ++ (write_task_graph_info info ++ tail))

  pub Runs-read_header :
      Ascends 0 info
      → length info < 2 ^ 31
      → x < 2 ^ 64
      → Runs read_header graph_file
          (record {
            index_offset = x;
            roi_start = of_bytes (to_bytes 8 roi_start);
            roi_end = of_bytes (to_bytes 8 roi_end);
            tgi = info;
          })
          tail
  unfolding read_header
  Runs-read_header ascends few small =
      Runs-bind _ (Runs-read_word 4 task_graph_version _ (omega arith)) (
        simp append_assoc (
          Runs-bind _ (Runs-read_zeroed 8 x _ small) (
            Runs-bind _ (Runs-read_any 8 roi_start _) (
              Runs-bind _ (Runs-read_any 8 roi_end _) (
                Runs-bind _ (Runs-init_task_graph_info info tail ascends few)
                  (Runs-pure _ tail))))))
