-- ===== src/Safety/Serve.antt =====
-- The invariant and `Cache::run`.
use syncd_sim.Base.{
  ℕ, ◌^◌, ◌<◌, ◌≡◌, refl, List, [], ◌∷◌, Option, none, some, arith, All, map, is_zero_ℤ,
}
use syncd_sim.Base.Effects.{no_line, no_victim, unknown_type}
use syncd_sim.Types.{
  Message, MessageType, cache_read, cache_read_reply, cache_update, cache_update_ack,
  cache_invalidate, cache_invalidate_ack, cache_fetch, cache_fetch_ack, cache_eviction_alert,
  write_miss, read_miss, invalidate, invalidate_ack, invalidate_other, invalidate_other_ack, fetch,
  fetch_invalidate, data_value_reply, data_value_reply_e, data_write_back, rollback,
}
use syncd_sim.Cache.{Cache}
use syncd_sim.Context.{Config, Context}
use syncd_sim.Handler.{tick}
use syncd_sim.Node.{put_cache, line_found, line_written, serve, serve_queue, run_cache}
use syncd_sim.Safety.{IsMessage, IsContext, IsSafe}
use syncd_sim.Safety.Rules.{
  Any, IsSafe-bind, IsSafe-then, IsSafe-pure, IsSafe-fail, IsSafe-return, IsSafe-match,
}
use syncd_sim.Safety.Members.{
  get_context-IsSafe, update_context-IsSafe, add_to_incoming_msg_queue-IsSafe,
}
use syncd_sim.Safety.Lines.{
  IsCacheOf48, read_line-IsCacheOf48, fetch_line-IsCacheOf48, invalidate_line-IsCacheOf48,
  update_line-IsCacheOf48, update_line-evicted_lt,
}
use syncd_sim.Safety.Loops.{ticked-All}

module _ (cfg : Config) (me : ℕ) (here : me < cfg.num_contexts) where
  put_cache-IsSafe :
      (cache : Cache) → IsCacheOf48 cache → IsSafe cfg {A = Unit} Any (put_cache cfg me cache)
  unfolding put_cache
  put_cache-IsSafe cache i = update_context-IsSafe cfg me _ λ c v. record {
    directory = v.directory;
    incoming = v.incoming;
    to_cache = v.to_cache;
    blocked = v.blocked;
    operation = v.operation;
    geometry = i.geometry;
    tags = i.tags;
  }

  line_found-IsSafe :
      (o : Option Cache) (type : MessageType)
      → ((c : Cache) → o ≡ some c → IsCacheOf48 c)
      → IsSafe cfg Any (line_found cfg me o type)
  unfolding line_found
  line_found-IsSafe none type k = IsSafe-fail no_line tt
  line_found-IsSafe (some cache) type k =
      IsSafe-then (put_cache-IsSafe cache (k cache refl)) (IsSafe-pure _)

  line_written-IsSafe :
      (o : Option (Cache × Option ℕ))
      → ((c : Cache) (ev : Option ℕ) → o ≡ some (c, ev) → IsCacheOf48 c)
      → ((c : Cache) (a : ℕ) → o ≡ some (c, some a) → a < 2 ^ 48)
      → IsSafe cfg Any (line_written cfg me o)
  unfolding line_written
  line_written-IsSafe none k l = IsSafe-fail no_victim tt
  line_written-IsSafe (some (cache, none)) k l =
      IsSafe-then (put_cache-IsSafe cache (k cache none refl)) (IsSafe-pure _)
  line_written-IsSafe (some (cache, some a)) k l =
      IsSafe-then (put_cache-IsSafe cache (k cache (some a) refl)) (
        IsSafe-then
          (add_to_incoming_msg_queue-IsSafe cfg me _
            (record { sender = omega arith; address = l cache a refl }))
          (IsSafe-pure _))

  cache_of : {c : Context} → IsContext cfg.num_contexts c → IsCacheOf48 c.cache
  cache_of v = record { geometry = v.geometry; tags = v.tags }

  serve-IsSafe :
      (type : MessageType) (addr : ℕ) → addr < 2 ^ 48 → IsSafe cfg Any (serve cfg me type addr)
  unfolding serve
  serve-IsSafe cache_read addr h =
      IsSafe-bind (get_context-IsSafe cfg me)
        λ c v. line_found-IsSafe _ _ (λ c' e. read_line-IsCacheOf48 c.cache c' addr (cache_of v) e)
  serve-IsSafe cache_invalidate addr h = IsSafe-bind (get_context-IsSafe cfg me) λ c v.
      line_found-IsSafe _ _ (λ c' e. invalidate_line-IsCacheOf48 c.cache c' addr (cache_of v) e)
  serve-IsSafe cache_fetch addr h =
      IsSafe-bind (get_context-IsSafe cfg me)
        λ c v. line_found-IsSafe _ _ (λ c' e. fetch_line-IsCacheOf48 c.cache c' addr (cache_of v) e)
  serve-IsSafe cache_update addr h = IsSafe-bind (get_context-IsSafe cfg me) λ c v.
      line_written-IsSafe _ (λ c' ev e. update_line-IsCacheOf48 c.cache c' addr (cache_of v) ev h e)
        (λ c' a e. update_line-evicted_lt c.cache c' addr (cache_of v) a h e)
  serve-IsSafe cache_read_reply addr h = IsSafe-fail unknown_type tt
  serve-IsSafe cache_update_ack addr h = IsSafe-fail unknown_type tt
  serve-IsSafe cache_invalidate_ack addr h = IsSafe-fail unknown_type tt
  serve-IsSafe cache_fetch_ack addr h = IsSafe-fail unknown_type tt
  serve-IsSafe cache_eviction_alert addr h = IsSafe-fail unknown_type tt
  serve-IsSafe write_miss addr h = IsSafe-fail unknown_type tt
  serve-IsSafe read_miss addr h = IsSafe-fail unknown_type tt
  serve-IsSafe invalidate addr h = IsSafe-fail unknown_type tt
  serve-IsSafe invalidate_ack addr h = IsSafe-fail unknown_type tt
  serve-IsSafe invalidate_other addr h = IsSafe-fail unknown_type tt
  serve-IsSafe invalidate_other_ack addr h = IsSafe-fail unknown_type tt
  serve-IsSafe fetch addr h = IsSafe-fail unknown_type tt
  serve-IsSafe fetch_invalidate addr h = IsSafe-fail unknown_type tt
  serve-IsSafe data_value_reply addr h = IsSafe-fail unknown_type tt
  serve-IsSafe data_value_reply_e addr h = IsSafe-fail unknown_type tt
  serve-IsSafe data_write_back addr h = IsSafe-fail unknown_type tt
  serve-IsSafe rollback addr h = IsSafe-fail unknown_type tt

  serve_queue-IsSafe :
      (msgs : List Message)
      → All (IsMessage cfg.num_contexts) msgs
      → IsSafe cfg (All (IsMessage cfg.num_contexts)) (serve_queue cfg me msgs)
  unfolding serve_queue
  serve_queue-IsSafe [] a = IsSafe-return [] a
  serve_queue-IsSafe (msg ∷ msgs) a =
      IsSafe-match (is_zero_ℤ msg.latency)
        (λ _. IsSafe-bind (serve-IsSafe msg.msg_type msg.addr a.0.address) λ reply _.
          IsSafe-then
            (add_to_incoming_msg_queue-IsSafe cfg me _
              (record { sender = a.0.sender; address = a.0.address }))
            (serve_queue-IsSafe msgs a.1))
        (λ _. IsSafe-return (msg ∷ msgs) a)

  pub run_cache-IsSafe : IsSafe cfg {A = Unit} Any (run_cache cfg me)
  unfolding run_cache
  run_cache-IsSafe = IsSafe-bind (get_context-IsSafe cfg me) λ c v.
      IsSafe-bind
        (serve_queue-IsSafe (map tick c.cache_msg_queue)
          (ticked-All cfg.num_contexts c.cache_msg_queue v.to_cache))
        λ left a. update_context-IsSafe cfg me _ λ d u. record {
          directory = u.directory;
          incoming = u.incoming;
          to_cache = a;
          blocked = u.blocked;
          operation = u.operation;
          geometry = u.geometry;
          tags = u.tags;
        }
