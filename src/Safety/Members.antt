-- ===== src/Safety/Members.antt =====
-- The invariant and changes of the members of a context.
use syncd_sim.Base.{ℕ, ◌≡◌, Bool, List, [], ◌∷◌, some, All, All-append, ◌==◌, Bool-cases, inl, inr}
use syncd_sim.Base.Effects.Ensures.{Ensures-modify, Ensures-gets}
use syncd_sim.Types.{Message, Task}
use syncd_sim.Context.{
  Config, Context, World, Handler, Processor, Stats, put_context, get_context, update_context,
  count, update_handler, add_to_cache_msg_queue, add_to_incoming_msg_queue, set_successful,
  re_add_curr_mem_op,
}
use syncd_sim.Safety.{IsMessage, IsContext, IsWorld, InBounds, IsSafe}

-- The invariant says nothing of these members.
pub IsContext-unread :
    {n : ℕ} {c : Context} {processor : Processor} {task_queue completed_tasks : List Task}
    {successful : Bool} {stats : Stats}
    → IsContext n c
    → IsContext n (record c {
      processor = processor;
      task_queue = task_queue;
      completed_tasks = completed_tasks;
      successful = successful;
      stats = stats;
    })
IsContext-unread v = record {
  directory = v.directory;
  incoming = v.incoming;
  to_cache = v.to_cache;
  blocked = v.blocked;
  operation = v.operation;
  geometry = v.geometry;
  tags = v.tags;
}

module _ (cfg : Config) (me : ℕ) where
  pub put_context-IsWorld :
      (w : World) (c : Context)
      → IsWorld cfg w
      → IsContext cfg.num_contexts c
      → IsWorld cfg (put_context w me c)
  put_context-IsWorld w c i v = record {
    each = λ id. elim (Bool-cases (me == id)) [ inl e ↦ rw e v | inr e ↦ rw e (i.each id) ];
  }

  pub update_context-IsSafe :
      (f : Context → Context)
      → ((c : Context) → IsContext cfg.num_contexts c → IsContext cfg.num_contexts (f c))
      → IsSafe cfg {A = Unit} (λ _. Unit) (update_context me f)
  unfolding update_context
  update_context-IsSafe f h =
      Ensures-modify (IsWorld cfg) InBounds _
        (λ w i. put_context-IsWorld w (f (w me)) i (h (w me) (i.each me)))

  pub get_context-IsSafe : IsSafe cfg (IsContext cfg.num_contexts) (get_context me)
  get_context-IsSafe = Ensures-gets (IsWorld cfg) InBounds _ _ (λ w i. i.each me)

  pub count-IsSafe : (f : Stats → Stats) → IsSafe cfg {A = Unit} (λ _. Unit) (count me f)
  unfolding count
  count-IsSafe f = update_context-IsSafe _ (λ c v. IsContext-unread v)

  -- A change of the handler that leaves its queues of messages well formed.
  pub update_handler-IsSafe :
      (f : Handler → Handler)
      → ((h : Handler)
          → ((addr : ℕ) (q : List Message)
              → h.blocked_msg_map addr ≡ some q
              → All (IsMessage cfg.num_contexts) q)
          → (addr : ℕ) (q : List Message) → (f h).blocked_msg_map addr ≡ some q
          → All (IsMessage cfg.num_contexts) q)
      → IsSafe cfg {A = Unit} (λ _. Unit) (update_handler me f)
  unfolding update_handler
  update_handler-IsSafe f k = update_context-IsSafe _ (λ c v. record {
    directory = v.directory;
    incoming = v.incoming;
    to_cache = v.to_cache;
    blocked = k c.handler v.blocked;
    operation = v.operation;
    geometry = v.geometry;
    tags = v.tags;
  })

  pub add_to_cache_msg_queue-IsSafe :
      (msg : Message)
      → IsMessage cfg.num_contexts msg
      → IsSafe cfg {A = Unit} (λ _. Unit) (add_to_cache_msg_queue me msg)
  unfolding add_to_cache_msg_queue
  add_to_cache_msg_queue-IsSafe msg m = update_context-IsSafe _ (λ c v. record {
    directory = v.directory;
    incoming = v.incoming;
    to_cache =
        All-append (IsMessage cfg.num_contexts) c.cache_msg_queue (msg ∷ []) v.to_cache (m, tt);
    blocked = v.blocked;
    operation = v.operation;
    geometry = v.geometry;
    tags = v.tags;
  })

  pub add_to_incoming_msg_queue-IsSafe :
      (msg : Message)
      → IsMessage cfg.num_contexts msg
      → IsSafe cfg {A = Unit} (λ _. Unit) (add_to_incoming_msg_queue me msg)
  unfolding add_to_incoming_msg_queue
  add_to_incoming_msg_queue-IsSafe msg m = update_context-IsSafe _ (λ c v. record {
    directory = v.directory;
    incoming =
        All-append (IsMessage cfg.num_contexts) c.incoming_msg_queue (msg ∷ []) v.incoming (m, tt);
    to_cache = v.to_cache;
    blocked = v.blocked;
    operation = v.operation;
    geometry = v.geometry;
    tags = v.tags;
  })

  pub set_successful-IsSafe : (b : Bool) → IsSafe cfg {A = Unit} (λ _. Unit) (set_successful me b)
  unfolding set_successful
  set_successful-IsSafe b = update_context-IsSafe _ (λ c v. IsContext-unread v)

  pub re_add_curr_mem_op-IsSafe : IsSafe cfg {A = Unit} (λ _. Unit) (re_add_curr_mem_op me)
  unfolding re_add_curr_mem_op
  re_add_curr_mem_op-IsSafe = update_context-IsSafe _ (λ c v. IsContext-unread v)
