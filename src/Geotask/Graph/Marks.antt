-- ===== src/Geotask/Graph/Marks.antt =====
-- geotask/graph.py, the `mark_` methods: where each leaves its node, from every state.
use geo_nexus_sdk.Base.{
  ℕ, ◌≡◌, refl, ap, ◌∙◌, true, false, Bool, ◌⊎◌, inl, inr, Option, none, some, [], ◌∷◌, String,
  if◌then◌else◌, arith, return, Outcome, ◌>>=◌, ◌>>◌, pure, modify, and_then,
}
use geo_nexus_sdk.Geotask.Model.{
  GeoTask, TaskState, TaskError, TaskResult, created, queued, blocked, scheduled, running,
  succeeded, failed, skipped, same_state,
}
use geo_nexus_sdk.Geotask.Machine.{Error, can_transition, in_states, is_terminal_state}
use geo_nexus_sdk.Geotask.Graph.{
  TaskGraph, node, task, move, move_plain, ensure_queued, ensure_blocked, mark_running, mark_retry,
  mark_done, mark_skipped, set_error, fail_downstream,
}
use geo_nexus_sdk.Geotask.Graph.Effects.{
  Follows-refl, Follows-trans, Sets, Moves, task-some, move-legal,
}

-- No step, and one set of changes behind another.
pub Sets-refl : (g : TaskGraph) (id : String) (t : GeoTask) → node g id ≡ some t → Sets g id t t g
Sets-refl g id t found = record {
  same_order = refl;
  others = λ j _. refl;
  at = found;
  follows = Follows-refl t;
}

pub Sets-trans :
    {g g' g'' : TaskGraph} {id : String} {t u v : GeoTask}
    → Sets g id t u g'
    → Sets g' id u v g''
    → Sets g id t v g''
Sets-trans a b = record {
  same_order = b.same_order ∙ a.same_order;
  others = λ j other. b.others j other ∙ a.others j other;
  at = b.at;
  follows = Follows-trans a.follows b.follows;
}

pub Moves-refl :
    (g : TaskGraph) (id : String) (t : GeoTask) (to : TaskState)
    → node g id ≡ some t
    → t.state ≡ to
    → Moves g id t to (return tt, g)
Moves-refl g id t to found at = record {
  returned = refl;
  new = t;
  reached = at;
  sets = Sets-refl g id t found;
}

-- An action behind a move.
pub Moves-then :
    {g : TaskGraph} {id : String} {t : GeoTask} {to to' : TaskState}
    (out : Outcome Error Unit × TaskGraph) (next : TaskGraph → Outcome Error Unit × TaskGraph)
    → (m : Moves g id t to out) → Moves out.1 id m.new to' (next out.1)
    → Moves g id t to' (and_then out.0 (λ _. next) out.1)
Moves-then out next m n = rw m.returned (record {
  returned = n.returned;
  new = n.new;
  reached = n.reached;
  sets = Sets-trans m.sets n.sets;
})

-- What a second move leaves, seen from before the first.
pub Moves-behind :
    {g : TaskGraph} {id : String} {t : GeoTask} {to to' : TaskState}
    {out out' : Outcome Error Unit × TaskGraph}
    → (m : Moves g id t to out) → Moves out.1 id m.new to' out'
    → Moves g id t to' out'
Moves-behind m n = record {
  returned = n.returned;
  new = n.new;
  reached = n.reached;
  sets = Sets-trans m.sets n.sets;
}

-- The states of a task that nobody executes yet.
abbrev pub IsWaiting : TaskState → Type 0
IsWaiting s = (s ≡ created) ⊎ (s ≡ queued) ⊎ (s ≡ blocked)

-- The test of `_ensure_queued`, and that of `_ensure_blocked`.
abbrev pub can_queue : TaskState → Bool
can_queue s = in_states s (created ∷ blocked ∷ [])

abbrev pub at_state : TaskState → TaskState → Bool
at_state to s = same_state s to

module _ (now : ℕ) (id : String) (g : TaskGraph) (t : GeoTask) (found : node g id ≡ some t) where
  -- One legal move to `to` from the state that the node is in.
  pub plain-Moves :
      (from to : TaskState)
      → t.state ≡ from
      → can_transition from to ≡ true
      → Moves g id t to (move_plain now id to g)
  plain-Moves from to at legal = move-legal now id to none none "" g t found (rw at legal)

  pub ensure_queued-Moves : IsWaiting t.state → Moves g id t queued (ensure_queued now id g)
  unfolding ensure_queued in_states can_transition
  ensure_queued-Moves (inl at) =
      rw (task-some id g found, ap can_queue at) (plain-Moves created queued at refl)
  ensure_queued-Moves (inr (inl at)) =
      rw (task-some id g found, ap can_queue at) (Moves-refl g id t queued found at)
  ensure_queued-Moves (inr (inr at)) =
      rw (task-some id g found, ap can_queue at) (plain-Moves blocked queued at refl)

module _ (now : ℕ) (id : String) (g : TaskGraph) (t : GeoTask) (found : node g id ≡ some t) where
  -- Behind the queue: from there to `blocked`.
  queue_block-Moves :
      (m : Moves g id t queued (ensure_queued now id g))
      → Moves g id t blocked (
          (ensure_queued now id
              >> (task id >>= λ u.
                  if same_state u.state queued then move_plain now id blocked else pure tt))
            g)
  unfolding can_transition
  queue_block-Moves m =
      let g' = (ensure_queued now id g).1 in
      Moves-then (ensure_queued now id g)
        (task id >>= λ u. if same_state u.state queued then move_plain now id blocked else pure tt)
        m
        (rw (task-some id g' m.sets.at, ap (at_state queued) m.reached)
          (plain-Moves now id g' m.new m.sets.at queued blocked m.reached refl))

  pub ensure_blocked-Moves : IsWaiting t.state → Moves g id t blocked (ensure_blocked now id g)
  unfolding ensure_blocked
  ensure_blocked-Moves (inl at) =
      rw (task-some id g found, ap (at_state blocked) at)
        (queue_block-Moves (ensure_queued-Moves now id g t found (inl at)))
  ensure_blocked-Moves (inr (inl at)) =
      rw (task-some id g found, ap (at_state blocked) at)
        (queue_block-Moves (ensure_queued-Moves now id g t found (inr (inl at))))
  ensure_blocked-Moves (inr (inr at)) =
      rw (task-some id g found, ap (at_state blocked) at) (Moves-refl g id t blocked found at)

  -- A task that is scheduled or running is left where it is.
  pub ensure_blocked-busy :
      (same_state t.state blocked ≡ false)
        × (can_queue t.state ≡ false)
        × (same_state t.state queued ≡ false)
      → ensure_blocked now id g ≡ (return tt, g)
  unfolding ensure_blocked ensure_queued
  ensure_blocked-busy (open_, unqueued, apart) =
      rw (task-some id g found, open_, task-some id g found, unqueued, task-some id g found, apart)

  -- A waiting task is taken into running, along the table, and no other node changes.
  pub mark_running-Moves : IsWaiting t.state → Moves g id t running (mark_running now id g)
  unfolding mark_running can_transition
  mark_running-Moves waiting =
      let first = ensure_queued-Moves now id g t found waiting in
      let g' = (ensure_queued now id g).1 in
      let second =
        plain-Moves now id g' first.new first.sets.at queued scheduled first.reached refl in
      let g'' = (move_plain now id scheduled g').1 in
      Moves-then (ensure_queued now id g) (move_plain now id scheduled >> move_plain now id running)
        first
        (Moves-then (move_plain now id scheduled g') (move_plain now id running) second
          (plain-Moves now id g'' second.new second.sets.at scheduled running second.reached refl))

-- A task that has not ended waits for an executor or is in the hands of one.
pub open_states :
    (s : TaskState) → is_terminal_state s ≡ false → IsWaiting s ⊎ (s ≡ scheduled) ⊎ (s ≡ running)
unfolding is_terminal_state
open_states s h = ground arith

-- Noting an error changes no node.
pub set_error-Moves :
    {g : TaskGraph} {id : String} {t : GeoTask} {to : TaskState} (e : TaskError)
    {out : Outcome Error Unit × TaskGraph}
    → Moves (set_error id e g) id t to out
    → Moves g id t to out
unfolding node
set_error-Moves e m = record {
  returned = m.returned;
  new = m.new;
  reached = m.reached;
  sets = record {
    same_order = m.sets.same_order;
    others = m.sets.others;
    at = m.sets.at;
    follows = m.sets.follows;
  };
}

pub node-set_error :
    (g : TaskGraph) (id j : String) (e : TaskError) → node (set_error id e g) j ≡ node g j
unfolding node
node-set_error g id j e = refl

module _ (now : ℕ) (id : String) (e : TaskError) where
  -- From a state that can fail.
  pub fail_now-Moves :
      (g : TaskGraph) (t : GeoTask)
      → node g id ≡ some t
      → can_transition t.state failed ≡ true
      → Moves g id t failed ((modify (set_error id e) >> move now id failed (some e) none "") g)
  fail_now-Moves g t found legal = set_error-Moves e (
      move-legal now id failed (some e) none "" (set_error id e g) t
        (node-set_error g id id e ∙ found) legal)

  -- A task that has not ended is brought to a place from where it may fail, and fails.
  pub fail_downstream-Moves :
      (g : TaskGraph) (t : GeoTask)
      → node g id ≡ some t
      → is_terminal_state t.state ≡ false
      → Moves g id t failed (fail_downstream now e id g)
  unfolding fail_downstream can_transition in_states
  fail_downstream-Moves g t found open_ = elim (open_states t.state open_) [
    | inl waiting ↦
        let first = ensure_blocked-Moves now id g t found waiting in
        let g' = (ensure_blocked now id g).1 in
        Moves-then (ensure_blocked now id g)
          (modify (set_error id e) >> move now id failed (some e) none "") first
          (fail_now-Moves g' first.new first.sets.at
            (ap (λ s. can_transition s failed) first.reached))
    | inr (inl at) ↦
        rw
          (ensure_blocked-busy now id g t found
            (ap (at_state blocked) at, ap can_queue at, ap (at_state queued) at))
          (fail_now-Moves g t found (ap (λ s. can_transition s failed) at))
    | inr (inr at) ↦
        rw
          (ensure_blocked-busy now id g t found
            (ap (at_state blocked) at, ap can_queue at, ap (at_state queued) at))
          (fail_now-Moves g t found (ap (λ s. can_transition s failed) at))
  ]

waiting_not_running : (s : TaskState) → IsWaiting s → same_state s running ≡ false
waiting_not_running s w = ground arith

module _ (now : ℕ) (id : String) (g : TaskGraph) (t : GeoTask) (found : node g id ≡ some t) where
  -- A result for a task that runs, or that nobody has taken up, ends it as succeeded, along the
  -- table, and changes no other node.
  pub mark_done-Moves :
      (result : Option TaskResult)
      → IsWaiting t.state ⊎ (t.state ≡ running)
      → Moves g id t succeeded (mark_done now id result g)
  unfolding mark_done can_transition
  mark_done-Moves result (inl waiting) =
      let first = mark_running-Moves now id g t found waiting in
      let g' = (mark_running now id g).1 in
      rw (task-some id g found, waiting_not_running t.state waiting)
        (Moves-then (mark_running now id g) (move now id succeeded none result "") first (
          move-legal now id succeeded none result "" g' first.new first.sets.at
            (ap (λ s. can_transition s succeeded) first.reached)))
  mark_done-Moves result (inr at) =
      rw (task-some id g found, ap (at_state running) at)
        (move-legal now id succeeded none result "" g t found
          (ap (λ s. can_transition s succeeded) at))

  -- A waiting task that is skipped ends as skipped, along the table, and no other node changes.
  pub mark_skipped-Moves : IsWaiting t.state → Moves g id t skipped (mark_skipped now id g)
  unfolding mark_skipped can_transition
  mark_skipped-Moves waiting =
      let first = ensure_blocked-Moves now id g t found waiting in
      let g' = (ensure_blocked now id g).1 in
      Moves-then (ensure_blocked now id g) (move_plain now id skipped) first
        (plain-Moves now id g' first.new first.sets.at blocked skipped first.reached refl)

  -- A task that failed and may try again goes back from running to the queue.
  pub mark_retry-Moves : t.state ≡ running → Moves g id t queued (mark_retry now id g)
  unfolding mark_retry can_transition
  mark_retry-Moves at = plain-Moves now id g t found running queued at refl
