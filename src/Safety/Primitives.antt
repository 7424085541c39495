-- ===== src/Safety/Primitives.antt =====
-- The invariant and messages, look-ups and updates of the directory, and queues of blocked
-- messages.
use syncd_sim.Base.{
  ℕ, suc, pos, ◌+◌, ◌≤◌, ◌^◌, ◌<◌, length, Table, subst, sym, some_injective, ◌≡◌, refl, Bool, ◌&&◌,
  List, [], ◌∷◌, Option, none, some, arith, All, ◌==◌, lt→ltb, Bool-cases, inl, inr, get_or,
}
use syncd_sim.Base.Effects.{ok, err, pure, fail, ◌>>◌, Result, no_message}
use syncd_sim.Base.Effects.Ensures.{Holds, Ensures-bind, Ensures-pure, Ensures-if, Ensures-fail}
use syncd_sim.Types.{Message, MessageType, DirectoryEntry, DirectoryEntryStatus}
use syncd_sim.Directory.Entries.{
  IsDirectory, IsEntry, Kept, update_entry-Kept, look_up_entry-IsDirectory,
}
use syncd_sim.Context.{
  Config, Context, World, Handler, put_context, deliver, update_handler, lookup_directory_entry,
  update_directory_entry,
}
use syncd_sim.Handler.{
  send_msg_to_node, send_msg_to_cache, invalidate_sharers, pop_blocked, blocked_queue,
  put_blocked_queue,
}
use syncd_sim.Safety.{IsMessage, IsContext, IsWorld, InBounds, IsSafe}
use syncd_sim.Safety.Members.{
  put_context-IsWorld, get_context-IsSafe, count-IsSafe, update_handler-IsSafe,
  add_to_cache_msg_queue-IsSafe, add_to_incoming_msg_queue-IsSafe,
}

IsContext-directory :
    {n : ℕ} {c : Context} {directory : Table DirectoryEntry}
    → IsContext n c
    → IsDirectory n directory
    → IsContext n (record c { directory = directory })
IsContext-directory v d = record {
  directory = d;
  incoming = v.incoming;
  to_cache = v.to_cache;
  blocked = v.blocked;
  operation = v.operation;
  geometry = v.geometry;
  tags = v.tags;
}

pub blocked_queue-All :
    {n : ℕ} (c : Context) (addr : ℕ) → IsContext n c → All (IsMessage n) (blocked_queue c addr)
blocked_queue-All {n} c addr v = go (c.handler.blocked_msg_map addr) (v.blocked addr)
  where
    go :
        (o : Option (List Message))
        → ((q : List Message) → o ≡ some q → All (IsMessage n) q)
        → All (IsMessage n) (get_or o [])
    go none h = tt
    go (some q) h = h q refl

pub put_blocked_queue-All :
    {n : ℕ} (addr : ℕ) (q : List Message)
    → All (IsMessage n) q
    → (h : Handler)
    → ((a : ℕ) (r : List Message) → h.blocked_msg_map a ≡ some r → All (IsMessage n) r)
    → (a : ℕ) (r : List Message) → (put_blocked_queue addr q h).blocked_msg_map a ≡ some r
    → All (IsMessage n) r
put_blocked_queue-All {n} addr q new h old a r e = elim (Bool-cases (addr == a)) [
  | inl same ↦ subst (All (IsMessage n)) (some_injective (rw same at e)) new
  | inr other ↦ old a r (rw other at e)
]

module _ (cfg : Config) (me : ℕ) where
  pub deliver-IsSafe :
      (id : ℕ) (msg : Message)
      → id < cfg.num_contexts
      → IsMessage cfg.num_contexts msg
      → IsSafe cfg {A = Unit} (λ _. Unit) (deliver cfg id msg)
  unfolding deliver
  deliver-IsSafe id msg h m =
      rw (lt→ltb id cfg.num_contexts h) (add_to_incoming_msg_queue-IsSafe cfg id msg m)

  module _ (here : me < cfg.num_contexts) where
    pub send_msg_to_node-IsSafe :
        (dst addr : ℕ) (type : MessageType)
        → dst < cfg.num_contexts
        → addr < 2 ^ 48
        → IsSafe cfg {A = Unit} (λ _. Unit) (send_msg_to_node cfg me dst addr type)
    unfolding send_msg_to_node
    send_msg_to_node-IsSafe dst addr type h a =
        Ensures-bind (IsWorld cfg) InBounds (count-IsSafe cfg me _)
          (λ _ _. deliver-IsSafe dst _ h (record { sender = here; address = a }))

    pub send_msg_to_cache-IsSafe :
        (addr : ℕ) (type : MessageType)
        → addr < 2 ^ 48
        → IsSafe cfg {A = Unit} (λ _. Unit) (send_msg_to_cache cfg me addr type)
    unfolding send_msg_to_cache
    send_msg_to_cache-IsSafe addr type a =
        Ensures-bind (IsWorld cfg) InBounds (count-IsSafe cfg me _)
          (λ _ _. add_to_cache_msg_queue-IsSafe cfg me _ (record { sender = here; address = a }))

    -- The loop that sends INVALIDATE speaks to contexts that have a bit in the mask.
    pub invalidate_sharers-IsSafe :
        (addr : ℕ) (wanted : ℕ → Bool) (id n : ℕ) (mask : List Bool)
        → addr < 2 ^ 48
        → id + length mask ≤ cfg.num_contexts
        → IsSafe cfg {A = ℕ} (λ _. Unit) (invalidate_sharers cfg me addr wanted id n mask)
    unfolding invalidate_sharers
    invalidate_sharers-IsSafe addr wanted id n [] a h = Ensures-pure (IsWorld cfg) InBounds _ n tt
    invalidate_sharers-IsSafe addr wanted id n (b ∷ mask) a h =
        Ensures-bind (IsWorld cfg) InBounds {Q = λ _. Unit}
          (Ensures-if (IsWorld cfg) InBounds _ (b && wanted id)
            (λ _.
              Ensures-bind (IsWorld cfg) InBounds
                (send_msg_to_node-IsSafe id addr _ (omega arith) a)
                (λ _ _. Ensures-pure (IsWorld cfg) InBounds _ (suc n) tt))
            (λ _. Ensures-pure (IsWorld cfg) InBounds _ n tt))
          (λ k _. invalidate_sharers-IsSafe addr wanted (suc id) k mask a (omega arith))

  pub lookup_directory_entry-IsSafe :
      (addr : ℕ) → IsSafe cfg (IsEntry cfg.num_contexts) (lookup_directory_entry cfg me addr)
  unfolding lookup_directory_entry
  lookup_directory_entry-IsSafe addr = record {
    apply = λ w i.
        let (d, e) =
          look_up_entry-IsDirectory cfg.num_contexts (w me).directory addr (i.each me).directory in
        (e, put_context-IsWorld cfg me w _ i (IsContext-directory (i.each me) d));
  }

  pub update_directory_entry-IsSafe :
      (addr p : ℕ) (status : DirectoryEntryStatus)
      → p < cfg.num_contexts
      → IsSafe cfg {A = Unit} (λ _. Unit) (update_directory_entry cfg me addr status (pos p))
  unfolding update_directory_entry
  update_directory_entry-IsSafe addr p status h = record {
    apply = λ w i. stored w i _ (
        update_entry-Kept cfg.protocol cfg.num_contexts (w me).directory addr p
          (i.each me).directory h status);
  }
    where
      stored :
          (w : World)
          → IsWorld cfg w
          → (r : Result (Table DirectoryEntry)) → Kept cfg.num_contexts r
          → Holds
              (IsWorld cfg)
              InBounds
              {A = Unit {0}}
              (λ _. Unit)
              (elim r [
                | ok directory ↦ ok (tt, put_context w me (record (w me) { directory = directory }))
                | err e ↦ err e
              ])
      stored w i (ok d) k =
          (tt, put_context-IsWorld cfg me w _ i (IsContext-directory (i.each me) k))
      stored w i (err e) k = subst InBounds (sym k) tt

  pub pop_blocked-IsSafe :
      (addr : ℕ) → IsSafe cfg (IsMessage cfg.num_contexts) (pop_blocked me addr)
  unfolding pop_blocked
  pop_blocked-IsSafe addr =
      Ensures-bind (IsWorld cfg) InBounds (get_context-IsSafe cfg me)
        (λ c v. front (blocked_queue c addr) (blocked_queue-All c addr v))
    where
      front :
          (q : List Message)
          → All (IsMessage cfg.num_contexts) q
          → IsSafe cfg (IsMessage cfg.num_contexts) (elim q [
            | [] ↦ fail no_message
            | m ∷ rest ↦ (do update_handler me (put_blocked_queue addr rest); pure m)
          ])
      front [] a = Ensures-fail (IsWorld cfg) InBounds _ no_message tt
      front (m ∷ rest) a =
          Ensures-bind (IsWorld cfg) InBounds
            (update_handler-IsSafe cfg me _ (put_blocked_queue-All addr rest a.1))
            (λ _ _. Ensures-pure (IsWorld cfg) InBounds _ m a.0)
