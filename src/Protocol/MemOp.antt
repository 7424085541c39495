-- ===== src/Protocol/MemOp.antt =====
-- `handleMemOpRequest` of the two protocols, compared.
use syncd_sim.Base.{ℕ, ◌≡◌, refl, ap, Bool, true, false, not, ◌||◌, if◌then◌else◌}
use syncd_sim.Base.Effects.{Exec, ◌>>=◌}
use syncd_sim.Types.{is_mem_write}
use syncd_sim.Context.{Config, Context, World}
use syncd_sim.Msi.{is_s}
use syncd_sim.Msi.Cases.{is_m, is_cached, line_status}
use syncd_sim.Msi
use syncd_sim.Mesi

-- The operation reads, or its line is not cached, or is in state M or S.
abbrev pub is_shareable : Context → Bool
is_shareable c =
    not (is_mem_write c.current_mem_op.action_type)
    || not (is_cached c c.current_mem_op.addr)
    || is_m (line_status c c.current_mem_op.addr)
    || is_s (line_status c c.current_mem_op.addr)

agree :
    {A : Type 0} (write miss in_m in_s : Bool) (a b c d x : A)
    → (not write || miss || in_m || in_s) ≡ true
    → (if write then (if miss then a else if in_s then b else if in_m then c else x) else d)
      ≡ (if write then (if miss then a else if in_s then b else c) else d)
agree false miss in_m in_s a b c d x h = refl
agree true true in_m in_s a b c d x h = refl
agree true false in_m true a b c d x h = refl
agree true false true false a b c d x h = refl
agree true false false false a b c d x h = cc

-- On a read, and on a write to a line that is not cached or in state M or S, the two handlers do
-- the same with a memory operation.
pub handle_mem_op_request-mesi :
    (cfg : Config) (me : ℕ) (w : World)
    → is_shareable (w me) ≡ true
    → Mesi.handle_mem_op_request cfg me w ≡ Msi.handle_mem_op_request cfg me w
unfolding Mesi.handle_mem_op_request Msi.handle_mem_op_request ◌>>=◌
handle_mem_op_request-mesi cfg me w h =
    ap (λ (r : Exec World (Unit {0})). r w)
      (agree (is_mem_write (w me).current_mem_op.action_type)
        (not (is_cached (w me) (w me).current_mem_op.addr))
        (is_m (line_status (w me) (w me).current_mem_op.addr))
        (is_s (line_status (w me) (w me).current_mem_op.addr)) _ _ _ _ _ h)
