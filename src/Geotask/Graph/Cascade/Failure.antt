-- ===== src/Geotask/Graph/Cascade/Failure.antt =====
-- geotask/graph.py, `mark_failed` and `mark_cancelled`: the node itself, and what hangs on it.
use geo_nexus_sdk.Base.{
  ℕ, ◌≡◌, refl, ap, ◌∙◌, true, false, not, arith, ◌⊎◌, inl, inr, none, some, [], ◌∷◌, String,
  return, Outcome, Bool-cases, and_then,
}
use geo_nexus_sdk.Geotask.Model.{
  GeoTask, TaskState, error_of_code, created, queued, blocked, running, failed, cancelled,
  same_state,
}
use geo_nexus_sdk.Geotask.Machine.{Error, in_states, is_terminal, is_terminal_state, can_transition}
use geo_nexus_sdk.Geotask.Machine.Paths.{Run-terminal, can_transition-cancelled}
use geo_nexus_sdk.Geotask.Graph.{
  TaskGraph, node, satisfied_states, cascade, mark_failed, mark_cancelled, ensure_blocked,
}
use geo_nexus_sdk.Geotask.Graph.Effects.{task-some, move-legal, Moves}
use geo_nexus_sdk.Geotask.Graph.Marks.{
  IsWaiting, open_states, ensure_blocked-Moves, ensure_blocked-busy, Moves-behind, at_state,
  can_queue, fail_now-Moves,
}
use geo_nexus_sdk.Geotask.Graph.Cascade.Step.{
  IsClosed, IsClosed-Cascades, Cascades, Sets-Cascades, is_satisfied, dependents_of-Cascades,
  failed-unsatisfied,
}
use geo_nexus_sdk.Geotask.Graph.Cascade.Queue.{Below, direct, through}
use geo_nexus_sdk.Geotask.Graph.Cascade.Loop.{cascade-reaches}

-- A failure or cancellation of one node moves nothing out of the others' reach.
Below-Cascades :
    {g g' : TaskGraph} {source id : String}
    → Cascades g g'
    → IsClosed g
    → Below g source id
    → Below g' source id
Below-Cascades {source = source} c closed (direct h) =
    direct (rw (dependents_of-Cascades source c closed) h)
Below-Cascades c closed (through {mid = mid} t b e open_ h) =
    let (t', e', _, stays) = c.follow mid t e in
    through t' (Below-Cascades c closed b) e' (stays open_)
      (rw (dependents_of-Cascades mid c closed) h)

-- The node `id` ends in `to`, and every unsatisfied task below it as failed or cancelled.
pub record Fails (g : TaskGraph) (id : String) (to : TaskState)
    (out : Outcome Error Unit × TaskGraph) : Type 0 where
  pub returned : out.0 ≡ return tt
  pub new : GeoTask
  pub at : node out.1 id ≡ some new
  pub reached : new.state ≡ to
  pub downstream :
      (k : String) (t : GeoTask)
      → Below g id k
      → node g k ≡ some t
      → is_satisfied t ≡ false
      → (t' : GeoTask) × (node out.1 k ≡ some t') × ((t'.state ≡ failed) ⊎ (t'.state ≡ cancelled))

-- A final state is kept through the cascade that follows it.
cascade-Fails :
    (now : ℕ) (g : TaskGraph) (id : String) (t : GeoTask) (to : TaskState)
    (out : Outcome Error Unit × TaskGraph)
    → IsClosed g
    → node g id ≡ some t
    → is_terminal_state to ≡ true
    → in_states to satisfied_states ≡ false
    → (m : Moves g id t to out) → Fails g id to (and_then out.0 (λ _. cascade now id) out.1)
cascade-Fails now g id t to out closed found final unsatisfied m =
    let c =
      Sets-Cascades found (ap (λ s. in_states s satisfied_states) m.reached ∙ unsatisfied) m.sets in
    let (returned, below, _, after) = cascade-reaches now id out.1 (IsClosed-Cascades c closed) in
    let (t', e', f, _) = after.follow id m.new m.sets.at in
    rw m.returned (record {
      returned = returned;
      new = t';
      at = e';
      reached = Run-terminal f.run (ap is_terminal_state m.reached ∙ final) ∙ m.reached;
      downstream = λ k u b e open_.
          let (u', e'', _, stays) = c.follow k u e in
          below k u' (Below-Cascades c closed b) e'' (stays open_);
    })

waiting_apart : (s : TaskState) → IsWaiting s → same_state s running ≡ false
waiting_apart s w = ground arith

failed-final : is_terminal_state failed ≡ true
unfolding is_terminal_state
failed-final = refl

cancelled-final :
    (is_terminal_state cancelled ≡ true) × (in_states cancelled satisfied_states ≡ false)
unfolding is_terminal_state in_states
cancelled-final = (refl, refl)

early-IsWaiting : (s : TaskState) → in_states s (created ∷ queued ∷ []) ≡ true → IsWaiting s
unfolding in_states
early-IsWaiting s h = ground arith

blocked_open : is_terminal_state blocked ≡ false
unfolding is_terminal_state
blocked_open = refl

module _ (now : ℕ) (id : String) (g : TaskGraph) (t : GeoTask) (closed : IsClosed g)
    (found : node g id ≡ some t) where
  -- In a graph where every listed task has a node, a task that has not ended and is marked as
  -- failed ends as failed, whatever it was doing, and every task below it that had not succeeded
  -- or been skipped ends as failed or cancelled.
  pub mark_failed-Fails :
      (code message : String)
      → is_terminal_state t.state ≡ false
      → Fails g id failed (mark_failed now id code message g)
  unfolding mark_failed can_transition in_states
  mark_failed-Fails code message open_ =
      let e = error_of_code code message none in
      elim (open_states t.state open_) [
        | inl waiting ↦
            let first = ensure_blocked-Moves now id g t found waiting in
            let g' = (ensure_blocked now id g).1 in
            rw (task-some id g found, waiting_apart t.state waiting, first.returned)
              (cascade-Fails now g id t failed _ closed found failed-final failed-unsatisfied (
                Moves-behind first (
                  fail_now-Moves now id e g' first.new first.sets.at
                    (ap (λ s. can_transition s failed) first.reached))))
        | inr (inl at) ↦
            rw
              (
                task-some id g found,
                ap (at_state running) at,
                ensure_blocked-busy now id g t found
                    (ap (at_state blocked) at, ap can_queue at, ap (at_state queued) at),
              )
              (cascade-Fails now g id t failed _ closed found failed-final failed-unsatisfied
                (fail_now-Moves now id e g t found (ap (λ s. can_transition s failed) at)))
        | inr (inr at) ↦
            rw (task-some id g found, ap (at_state running) at)
              (cascade-Fails now g id t failed _ closed found failed-final failed-unsatisfied
                (fail_now-Moves now id e g t found (ap (λ s. can_transition s failed) at)))
      ]

  -- A task that has ended is not cancelled; nothing changes.
  pub mark_cancelled-over : is_terminal t ≡ true → mark_cancelled now id g ≡ (return tt, g)
  unfolding mark_cancelled
  mark_cancelled-over over = rw (task-some id g found, over)

  -- In a graph where every listed task has a node, a task that has not ended and is cancelled ends
  -- as cancelled, whatever it was doing, and every task below it that had not succeeded or been
  -- skipped ends as failed or cancelled.
  pub mark_cancelled-Fails :
      is_terminal_state t.state ≡ false → Fails g id cancelled (mark_cancelled now id g)
  unfolding mark_cancelled is_terminal
  mark_cancelled-Fails open_ = elim (Bool-cases (in_states t.state (created ∷ queued ∷ []))) [
    | inl early ↦
        let first = ensure_blocked-Moves now id g t found (early-IsWaiting t.state early) in
        let g' = (ensure_blocked now id g).1 in
        rw (task-some id g found, open_, early, first.returned)
          (cascade-Fails now g id t cancelled _ closed found cancelled-final.0 cancelled-final.1 (
            Moves-behind first (
              move-legal now id cancelled none none "" g' first.new first.sets.at (
                ap (λ s. can_transition s cancelled) first.reached
                ∙ can_transition-cancelled blocked
                ∙ ap not blocked_open))))
    | inr late ↦
        rw (task-some id g found, open_, late)
          (cascade-Fails now g id t cancelled _ closed found cancelled-final.0 cancelled-final.1 (
            move-legal now id cancelled none none "" g t found
              (can_transition-cancelled t.state ∙ ap not open_)))
  ]
