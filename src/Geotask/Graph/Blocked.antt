-- ===== src/Geotask/Graph/Blocked.antt =====
-- geotask/graph.py, `mark_blocked`: a task that the scheduler holds back says why.
use geo_nexus_sdk.Base.{
  ℕ, ◌≡◌, refl, ap, inl, inr, none, some, List, String, if◌then◌else◌, return, Outcome, ◌>>=◌, ◌>>◌,
  pure, modify,
}
use geo_nexus_sdk.Geotask.Model.{GeoTask, created, queued, blocked, same_state}
use geo_nexus_sdk.Geotask.Machine.{Error, can_transition}
use geo_nexus_sdk.Geotask.Machine.Paths.{here}
use geo_nexus_sdk.Geotask.Graph.{
  TaskGraph, node, task, move, set_message, blocked_message, mark_blocked,
}
use geo_nexus_sdk.Geotask.Graph.Effects.{Sets, task-some, move-legal, set_node-Sets}
use geo_nexus_sdk.Geotask.Graph.Marks.{IsWaiting, Sets-trans, at_state}

-- The task `id` is blocked with that message, and no other node changed.
pub record Noted (g : TaskGraph) (id : String) (t : GeoTask) (message : String)
    (out : Outcome Error Unit × TaskGraph) : Type 0 where
  pub returned : out.0 ≡ return tt
  pub new : GeoTask
  pub reached : new.state ≡ blocked
  pub told : new.message ≡ message
  pub sets : Sets g id t new out.1

module _ (now : ℕ) (id message : String) where
  note-Noted :
      (g : TaskGraph) (t : GeoTask)
      → node g id ≡ some t
      → t.state ≡ blocked
      → Noted g id t message (return tt, set_message id message g)
  note-Noted g t found at =
      let new : GeoTask = record t { message = message } in
      rw (found, set_message)
        (record {
          returned = refl;
          new = new;
          reached = at;
          told = refl;
          sets =
              set_node-Sets g id t new found
                (record { run = here; same_id = refl; same_deps = refl });
        })

  Noted-behind :
      {g g' : TaskGraph} {t u : GeoTask} {out : Outcome Error Unit × TaskGraph}
      → Sets g id t u g'
      → Noted g' id u message out
      → Noted g id t message out
  Noted-behind s n = record {
    returned = n.returned;
    new = n.new;
    reached = n.reached;
    told = n.told;
    sets = Sets-trans s n.sets;
  }

  -- From the queue.
  block-Noted :
      (g : TaskGraph) (t : GeoTask)
      → node g id ≡ some t
      → t.state ≡ queued
      → Noted g id t message (
          (task id >>= λ u.
          (if same_state u.state queued then move now id blocked none none message else pure tt)
          >> modify (set_message id message))
            g)
  unfolding can_transition
  block-Noted g t found at =
      let m =
        move-legal now id blocked none none message g t found
          (ap (λ s. can_transition s blocked) at) in
      rw (task-some id g found, ap (at_state queued) at, m.returned)
        (Noted-behind m.sets (note-Noted _ m.new m.sets.at m.reached))

module _ (now : ℕ) (id : String) (g : TaskGraph) (t : GeoTask) (found : node g id ≡ some t) where
  -- A waiting task that is marked as blocked is blocked then and carries the reasons as its
  -- message, from whichever waiting state it came; nothing is raised and no other node changes.
  pub mark_blocked-Noted :
      (reasons : List String) (code : String)
      → IsWaiting t.state
      → Noted g id t (blocked_message code reasons) (mark_blocked now id reasons code g)
  unfolding mark_blocked can_transition
  mark_blocked-Noted reasons code (inr (inr at)) =
      rw (task-some id g found, ap (at_state blocked) at) (note-Noted now id _ g t found at)
  mark_blocked-Noted reasons code (inr (inl at)) =
      rw (task-some id g found, ap (at_state blocked) at, ap (at_state created) at)
        (block-Noted now id _ g t found at)
  mark_blocked-Noted reasons code (inl at) =
      let m =
        move-legal now id queued none none (blocked_message code reasons) g t found
          (ap (λ s. can_transition s queued) at) in
      rw (task-some id g found, ap (at_state blocked) at, ap (at_state created) at, m.returned)
        (Noted-behind now id _ m.sets (block-Noted now id _ _ m.new m.sets.at m.reached))
