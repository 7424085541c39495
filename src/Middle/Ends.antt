-- ===== src/Middle/Ends.antt =====
-- backgroundTaskWriter of middle/taskWrite.cpp ends: the loop over its queue of ready tasks does not
-- run on.
use syncd_sim.Base.{ℕ, List, [], ◌∷◌, ◌≡◌, ◌≢◌, refl, arith, All-append, subst}
use syncd_sim.Base.Effects.{ok, err, ok_injective, assertion, out_of_fuel, ◌>>=◌}
use syncd_sim.Base.Effects.Results.{>>=-eq-ok, >>=-ne-err}
use syncd_sim.TaskLib.Record.{Task}
use syncd_sim.TaskLib.Codec.{Zlib, write_contech_task}
use syncd_sim.Middle.Writer.{
  Written, wrap, write_task, write_tasks, write_chunks, finish, background_task_writer,
}
use syncd_sim.Middle.Places.{Keyed}
use syncd_sim.Middle.Sorted.{sort_index_ends, check_ends}

module _ (z : Zlib) where
  write_contech_task_ends : (t : Task) (out : List ℕ) → write_contech_task z t out ≢ err out_of_fuel
  unfolding write_contech_task ◌>>=◌
  write_contech_task_ends t out = λ e. ground arith

  write_task_ends : (t : Task) (w : Written) → write_task z t w ≢ err out_of_fuel
  unfolding write_task
  write_task_ends t w =
      >>=-ne-err out_of_fuel _ _ (check_ends _ assertion (λ p. cc))
        λ u e. >>=-ne-err out_of_fuel _ _ (write_contech_task_ends t w.out) (λ r e' p. cc)

  write_task-Keyed :
      (t : Task) (w w' : Written)
      → Keyed w.write_task_map
      → write_task z t w ≡ ok w'
      → Keyed w'.write_task_map
  unfolding write_task wrap
  write_task-Keyed t w w' h e =
      let (_, checked, e1) = >>=-eq-ok _ _ e in
      let (r, written, made) = >>=-eq-ok _ _ e1 in
      subst (λ (w' : Written). Keyed w'.write_task_map) (ok_injective made)
        (All-append _ w.write_task_map _ h (refl, tt))

  write_tasks_ends : (ts : List Task) (w : Written) → write_tasks z ts w ≢ err out_of_fuel
  unfolding write_tasks
  write_tasks_ends [] w = λ p. cc
  write_tasks_ends (t ∷ ts) w =
      >>=-ne-err out_of_fuel _ _ (write_task_ends t w) (λ w' e. write_tasks_ends ts w')

  write_tasks-Keyed :
      (ts : List Task) (w w' : Written)
      → Keyed w.write_task_map
      → write_tasks z ts w ≡ ok w'
      → Keyed w'.write_task_map
  unfolding write_tasks
  write_tasks-Keyed [] w w' h e =
      subst (λ (w' : Written). Keyed w'.write_task_map) (ok_injective e) h
  write_tasks-Keyed (t ∷ ts) w w' h e =
      let (mid, first, rest) = >>=-eq-ok _ _ e in
      write_tasks-Keyed ts mid w' (write_task-Keyed t w mid h first) rest

  write_chunks_ends : (cs : List (List Task)) (w : Written) → write_chunks z cs w ≢ err out_of_fuel
  unfolding write_chunks
  write_chunks_ends [] w = λ p. cc
  write_chunks_ends (c ∷ cs) w =
      >>=-ne-err out_of_fuel _ _ (write_tasks_ends c w) (λ w' e. write_chunks_ends cs w')

  write_chunks-Keyed :
      (cs : List (List Task)) (w w' : Written)
      → Keyed w.write_task_map
      → write_chunks z cs w ≡ ok w'
      → Keyed w'.write_task_map
  unfolding write_chunks
  write_chunks-Keyed [] w w' h e =
      subst (λ (w' : Written). Keyed w'.write_task_map) (ok_injective e) h
  write_chunks-Keyed (c ∷ cs) w w' h e =
      let (mid, first, rest) = >>=-eq-ok _ _ e in
      write_chunks-Keyed cs mid w' (write_tasks-Keyed c w mid h first) rest

  -- The background writer ends on every sequence of chunks: it does not run out of the rounds that
  -- the model gives to the sorting, whatever edges the tasks have, and returns or stops with a
  -- fault of the program.
  pub background_task_writer_ends :
      (roi_start roi_end : ℕ) (chunks : List (List Task)) (out : List ℕ)
      → background_task_writer roi_start roi_end z chunks out ≢ err out_of_fuel
  unfolding background_task_writer finish
  background_task_writer_ends roi_start roi_end chunks out =
      >>=-ne-err out_of_fuel _ _ (write_chunks_ends chunks _) λ w written.
        >>=-ne-err out_of_fuel _ _
          (sort_index_ends w.write_task_map (write_chunks-Keyed chunks _ w tt written))
          λ es sorted. >>=-ne-err out_of_fuel _ _ (check_ends _ assertion (λ p. cc)) (λ u e p. cc)
