-- ===== src/Protocol/Held.antt =====
-- Misses on a line that contexts hold, at its home node.
use syncd_sim.Base.{
  ℕ, pos, ◌+◌, ◌<◌, ◌≡◌, refl, ap, sym, ◌∙◌, subst, Bool, true, false, List, [], ◌∷◌, ◌++◌, arith,
  length, some, ==_refl, ltb, lt→ltb,
}
use native.Mathlib.Nat.{zero-add}
use syncd_sim.Base.Effects.{ok}
use syncd_sim.Types.{
  Message, MessageType, new_message, invalidate, fetch_invalidate, DirectoryEntry,
  DirectoryEntryStatus, uncached, shared, modified, exclusive,
}
use syncd_sim.Directory.{is_shared, is_uncached}
use syncd_sim.Directory.Masks.{holders}
use syncd_sim.Directory.Entries.{IsDirectory, Held}
use syncd_sim.Context.{Config, World, Handler, put_context, update_context, update_handler}
use syncd_sim.Handler.{in_service, has_to_wait, find_owner, insert_pending}
use syncd_sim.Handler.Cases.{handle_write_miss}
use syncd_sim.Safety.Rules.{find_owner-holders, find_owner-lt}
use syncd_sim.Base.Effects.Steps.{
  Runs, Runs-bind, Runs-pure, Runs-if_true, Runs-if_false, Runs-require,
}
use syncd_sim.Protocol.Send.{
  sent, put_context-same, wanted_of, send_msg_to_node-Sent, invalidate_sharers-SendsTo,
}
use syncd_sim.Protocol.Look.{lookup_directory_entry-Runs}
use syncd_sim.Protocol.Misses.{Runs-get_context}

wanted_of_all : (xs : List ℕ) → wanted_of (λ _. true) xs ≡ xs
wanted_of_all [] = refl
wanted_of_all (x ∷ xs) = ap (λ ys. x ∷ ys) (wanted_of_all xs)

pub update_handler-Runs :
    (me : ℕ) (f : Handler → Handler) (w : World)
    → (w' : World) × Runs (update_handler me f) w tt w'
      × ((j : ℕ) → (w' j).incoming_msg_queue ≡ (w j).incoming_msg_queue)
      × ((w' me).handler ≡ f (w me).handler)
unfolding update_handler update_context
update_handler-Runs me f w = (
  put_context w me (record (w me) { handler = f (w me).handler }),
  record { result = refl },
  (λ j. put_context-same (λ c. c.incoming_msg_queue) w me j _ refl),
  rw (==_refl me, put_context) refl,
)

-- A line that is neither uncached nor shared has one holder.
owner_of :
    (entry : DirectoryEntry)
    → Held entry.status (holders 0 entry.processor_mask)
    → is_uncached entry.status ≡ false
    → is_shared entry.status ≡ false
    → (p : ℕ) × (holders 0 entry.processor_mask ≡ p ∷ [])
owner_of entry h u s = go entry.status h u s
  where
    go :
        (st : DirectoryEntryStatus)
        → Held st (holders 0 entry.processor_mask)
        → is_uncached st ≡ false
        → is_shared st ≡ false
        → (p : ℕ) × (holders 0 entry.processor_mask ≡ p ∷ [])
    go uncached h u s = cc
    go shared h u s = cc
    go modified h u s = h
    go exclusive h u s = h

module _ (cfg : Config) (me : ℕ) (msg : Message) (again : Bool) (w : World) (entry : DirectoryEntry)
    (i : IsDirectory cfg.num_contexts (w me).directory)
    (free : has_to_wait (w me) msg.addr again ≡ false)
    (there : (w me).directory msg.addr ≡ some entry) where
  -- From `w` to `w'` every one of the contexts gets a message of the type, at the end of its queue.
  abbrev pub SentFrom : MessageType → List ℕ → World → Type 0
  SentFrom type targets w' =
      (j : ℕ)
      → (w' j).incoming_msg_queue
        ≡ (w j).incoming_msg_queue ++ sent j (new_message me msg.addr type cfg.node_latency) targets

  -- A WRITE_MISS for a shared line that no request blocks is in service: with a consistent
  -- directory, every holder of the line gets one INVALIDATE at the end of its queue, no other
  -- context gets a message, and the number of holders is inserted as the count of pending
  -- acknowledgements, the rest of the handler being as before.
  pub handle_write_miss-shared :
      entry.status ≡ shared
      → (w' : World) × (handle_write_miss cfg me msg again w ≡ ok (in_service, w'))
        × SentFrom invalidate (holders 0 entry.processor_mask) w'
        × ((w' me).handler
            ≡ insert_pending msg.addr
                (pos (length (holders 0 entry.processor_mask)))
                (w me).handler)
  unfolding handle_write_miss
  handle_write_miss-shared st =
      let (w1, found, r1, l, q) = lookup_directory_entry-Runs cfg me msg.addr w i in
      let same = l.same entry there in
      let (w2, r2, s) =
        invalidate_sharers-SendsTo cfg me msg.addr (λ _. true) 0 0 found.processor_mask w1
          (omega (arith, (l.consistent msg.addr found l.there).width)) in
      let hs =
        wanted_of_all (holders 0 found.processor_mask)
        ∙ ap (λ (r : DirectoryEntry). holders 0 r.processor_mask) same in
      let n = 0 + length (wanted_of (λ _. true) (holders 0 found.processor_mask)) in
      let (w3, r3, quiet, e) = update_handler-Runs me (insert_pending msg.addr (pos n)) w2 in
      (
        w3,
        (Runs-bind _ (Runs-get_context me w) (
            Runs-if_false (has_to_wait (w me) msg.addr again) _ free (
              Runs-bind _ r1 (
                Runs-if_false (is_uncached found.status) _
                  (ap (λ (r : DirectoryEntry). is_uncached r.status) same ∙ ap is_uncached st)
                  (Runs-if_true (is_shared found.status) _
                    (ap (λ (r : DirectoryEntry). is_shared r.status) same ∙ ap is_shared st)
                    (Runs-bind _ r2 (Runs-bind _ r3 (Runs-pure in_service w3)))))))).result,
        (λ j.
            quiet j
            ∙ s.incoming j
            ∙ ap
                (λ m.
                  m
                  ++ sent j (new_message me msg.addr invalidate cfg.node_latency)
                      (wanted_of (λ _. true) (holders 0 found.processor_mask)))
                (q.incoming j)
            ∙ ap
                (λ ts.
                  (w j).incoming_msg_queue
                  ++ sent j (new_message me msg.addr invalidate cfg.node_latency) ts)
                hs),
        e
            ∙ ap (λ hd. insert_pending msg.addr (pos n) hd) (s.handler me ∙ q.handler me)
            ∙ ap (λ k. insert_pending msg.addr (pos k) (w me).handler)
                (zero-add (length (wanted_of (λ _. true) (holders 0 found.processor_mask))))
            ∙ ap (λ ts. insert_pending msg.addr (pos (length ts)) (w me).handler) hs,
      )

  -- A WRITE_MISS for a line that is neither uncached nor shared, and that no request blocks, is in
  -- service: with a consistent directory the line has exactly one holder, which gets one
  -- FETCH_INVALIDATE, and no other context gets a message.
  pub handle_write_miss-owned :
      is_uncached entry.status ≡ false
      → is_shared entry.status ≡ false
      → (p : ℕ) × (holders 0 entry.processor_mask ≡ p ∷ [])
        × (w' : World) × (handle_write_miss cfg me msg again w ≡ ok (in_service, w'))
        × SentFrom fetch_invalidate (p ∷ []) w'
  unfolding handle_write_miss
  handle_write_miss-owned u s =
      let (w1, found, r1, l, q) = lookup_directory_entry-Runs cfg me msg.addr w i in
      let same = sym (l.same entry there) in
      let v = i msg.addr entry there in
      let (p, one) = owner_of entry v.held u s in
      let own = find_owner-holders 0 p entry.processor_mask [] one in
      let below = find_owner-lt cfg.num_contexts entry v s u in
      let at = λ (Q : DirectoryEntry → Type 0) (x : Q entry). subst Q same x in
      let (w2, r2, t) =
        send_msg_to_node-Sent cfg me (find_owner 0 found.processor_mask) msg.addr fetch_invalidate
          w1 (at (λ r. find_owner 0 r.processor_mask < cfg.num_contexts) below) in
      (
        p,
        one,
        w2,
        (Runs-bind _ (Runs-get_context me w) (
            Runs-if_false (has_to_wait (w me) msg.addr again) _ free (
              Runs-bind _ r1 (
                Runs-if_false (is_uncached found.status) _
                  (at (λ r. is_uncached r.status ≡ false) u)
                  (Runs-if_false (is_shared found.status) _ (at (λ r. is_shared r.status ≡ false) s)
                    (Runs-require (ltb (find_owner 0 found.processor_mask) cfg.num_contexts) _
                      (lt→ltb _ _
                        (at (λ r. find_owner 0 r.processor_mask < cfg.num_contexts) below))
                      (Runs-bind _ r2 (Runs-pure in_service w2)))))))).result,
        (λ j.
            t.incoming j
            ∙ ap
                (λ m.
                  m
                  ++ sent j (new_message me msg.addr fetch_invalidate cfg.node_latency)
                      (find_owner 0 found.processor_mask ∷ []))
                (q.incoming j)
            ∙ ap
                (λ o.
                  (w j).incoming_msg_queue
                  ++ sent j (new_message me msg.addr fetch_invalidate cfg.node_latency) (o ∷ []))
                (at (λ r. find_owner 0 r.processor_mask ≡ p) own)),
      )
