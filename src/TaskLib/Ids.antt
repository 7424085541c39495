-- ===== src/TaskLib/Ids.antt =====
-- common/taskLib/TaskId.hpp: a task's number is that of its context and its place in it.
use syncd_sim.Base.{ℕ, ◌+◌, ◌*◌, ◌/◌, ◌%◌, ◌^◌, ◌<◌, ◌≡◌, bit_or, arith}
use syncd_sim.Base.Bits.{bit_or_disjoint}

-- `TaskId(ContextId cid, SeqId sid)`
unfoldable pub new_task_id : ℕ → ℕ → ℕ
new_task_id cid sid = bit_or sid (cid * 2 ^ 32)

abbrev pub get_context_id : ℕ → ℕ
get_context_id id = id / 2 ^ 32 % 2 ^ 32

abbrev pub get_seq_id : ℕ → ℕ
get_seq_id id = id % 2 ^ 32

-- `TaskId::getNext`
abbrev pub get_next : ℕ → ℕ
get_next id = (id + 1) % 2 ^ 64

pub new_task_id_sum : (cid sid : ℕ) → sid < 2 ^ 32 → new_task_id cid sid ≡ sid + cid * 2 ^ 32
unfolding new_task_id
new_task_id_sum cid sid h = bit_or_disjoint 32 sid cid h

-- The parts of a number, and the number of the task after it in its context.
pub new_task_id_parts :
    (cid sid : ℕ)
    → cid < 2 ^ 32
    → sid + 1 < 2 ^ 32
    → (get_context_id (new_task_id cid sid) ≡ cid)
      × (get_seq_id (new_task_id cid sid) ≡ sid)
      × (get_next (new_task_id cid sid) ≡ new_task_id cid (sid + 1))
new_task_id_parts cid sid hc hs =
    rw (new_task_id_sum cid sid (omega arith), new_task_id_sum cid (sid + 1) hs) (omega arith)
