-- ===== src/Geotask/Graph/Cascade/Loop.antt =====
-- geotask/graph.py, `_cascade`: the whole loop, its bound and what it reaches.
use geo_nexus_sdk.Base.{
  ℕ, suc, zero, ◌+◌, ◌*◌, ◌<◌, ◌≡◌, ◌≤◌, refl, sym, ap, ◌∙◌, true, false, not, ◌⊎◌, inl, inr,
  Option, some, List, [], ◌∷◌, ◌++◌, String, arith, return, Outcome, Bool-cases, eq_iff, contains,
  length, length-append,
}
use geo_nexus_sdk.Geotask.Model.{GeoTask, TaskState, TaskError, failed, cancelled}
use geo_nexus_sdk.Geotask.Machine.{Error, in_states, is_terminal_state}
use geo_nexus_sdk.Geotask.Graph.{
  TaskGraph, node, dependents_of, satisfied_states, visit, cascade_from, cascade, rounds,
  upstream_error,
}
use geo_nexus_sdk.Geotask.Graph.Cascade.Step.{
  IsClosed, Cascades, Cascades-refl, is_satisfied, visit-Visit,
}
use geo_nexus_sdk.Geotask.Graph.Cascade.Queue.{
  unseen, unseen-lt, length-keep, Below, dependents-length, measure_falls, Below-listed, Inv,
  skip-Inv, more-length, visit-Inv, direct, through,
}

-- The loop ends with an empty queue: from the measure, the fuel is enough.
record Ends (g0 : TaskGraph) (source : String) (out : Outcome Error Unit × TaskGraph) : Type 0 where
  returned : out.0 ≡ return tt
  seen : List String
  inv : Inv g0 source out.1 [] seen

cascade_from-Ends :
    (fuel now : ℕ) (upstream : TaskError) (g0 : TaskGraph) (source : String) (g : TaskGraph)
    (queue seen : List String)
    → IsClosed g0
    → Inv g0 source g queue seen
    → length queue + unseen seen g0.order * suc (length g0.order) < fuel
    → Ends g0 source (cascade_from fuel now upstream queue seen g)
unfolding cascade_from
cascade_from-Ends zero now upstream g0 source g queue seen closed i enough = absurd (omega arith)
cascade_from-Ends (suc fuel) now upstream g0 source g [] seen closed i enough = record {
  returned = refl;
  seen = seen;
  inv = i;
}
cascade_from-Ends (suc fuel) now upstream g0 source g (id ∷ queue) seen closed i enough =
    elim (Bool-cases (contains id seen)) [
      | inl old ↦
          rw (old, cascade_from)
            (cascade_from-Ends fuel now upstream g0 source g queue seen closed
              (skip-Inv g0 source g id queue seen old i) (omega arith))
      | inr fresh ↦
          let below = i.queued id (ground (arith, eq_iff id id)) in
          let listed = Below-listed g0 source id below in
          let (t0, e0) = closed id listed in
          let (t, e, _, _) = i.cascades.follow id t0 e0 in
          let v = visit-Visit now upstream id g t e in
          let out = visit now upstream id g in
          rw (fresh, cascade_from)
            (rw v.returned (
              cascade_from-Ends fuel now upstream g0 source out.1 (queue ++ v.more) (id ∷ seen)
                closed (visit-Inv g0 source closed g id queue seen t out e v i)
                (rw (length-append queue v.more) (
                  measure_falls (length queue) (length v.more) (unseen seen g0.order)
                    (unseen (id ∷ seen) g0.order) (length g0.order) fuel
                    (more-length g0 source closed g id queue seen t out e v i)
                    (unseen-lt id seen g0.order listed fresh) enough))))
    ]

-- What is below the source was seen, so it has ended.
Below-seen :
    (g0 : TaskGraph) (source : String) (g : TaskGraph) (seen : List String) (id : String)
    → Inv g0 source g [] seen
    → Below g0 source id
    → contains id seen ≡ true
Below-seen g0 source g seen id i (direct h) = i.start id h
Below-seen g0 source g seen id i (through {mid = mid} t b e open_ h) =
    i.spread mid id t (Below-seen g0 source g seen mid i b) e open_ h

enough_rounds : (d u n : ℕ) → d ≤ n → u ≤ n → d + u * suc n < suc n * suc n
enough_rounds d u n a b = grind arith

start-Inv : (g : TaskGraph) (source : String) → Inv g source g (dependents_of g source) []
start-Inv g source = record {
  cascades = Cascades-refl g;
  touched = λ j. inl refl;
  queued = λ j m. direct m;
  ended = λ j m. cc;
  spread = λ j k t m. cc;
  start = λ k h. ground (arith, h);
}

failed_or_cancelled :
    (s : TaskState)
    → is_terminal_state s ≡ true
    → in_states s satisfied_states ≡ false
    → (s ≡ failed) ⊎ (s ≡ cancelled)
unfolding is_terminal_state in_states
failed_or_cancelled s over open_ = ground arith

ended_badly :
    (t u t' : GeoTask) {x : Option GeoTask}
    → x ≡ some u
    → x ≡ some t'
    → is_satisfied u ≡ false
    → is_terminal_state t'.state ≡ true
    → (t'.state ≡ failed) ⊎ (t'.state ≡ cancelled)
ended_badly t u t' a b open_ over =
    let same : u ≡ t' = cc in failed_or_cancelled t'.state over (sym (ap is_satisfied same) ∙ open_)

-- In a graph where every listed task has a node the cascade from a task returns, within its bound
-- and whatever state the tasks are in; every task below the source that had not succeeded or been
-- skipped is then failed or cancelled, a task that is not below is as it was, and tasks move only
-- along the table.
pub cascade-reaches :
    (now : ℕ) (source : String) (g : TaskGraph)
    → IsClosed g
    → ((cascade now source g).0 ≡ return tt)
      × ((id : String) (t : GeoTask)
          → Below g source id
          → node g id ≡ some t
          → is_satisfied t ≡ false
          → (t' : GeoTask) × (node (cascade now source g).1 id ≡ some t')
            × ((t'.state ≡ failed) ⊎ (t'.state ≡ cancelled)))
      × ((id : String) → (node (cascade now source g).1 id ≡ node g id) ⊎ Below g source id)
      × Cascades g (cascade now source g).1
unfolding cascade
cascade-reaches now source g closed =
    let ends =
      cascade_from-Ends (rounds g) now (upstream_error source) g source g (dependents_of g source)
        [] closed (start-Inv g source)
        (enough_rounds _ _ (length g.order) (dependents-length g source)
          (length-keep (λ id. not (contains id [])) g.order)) in
    (
      ends.returned,
      λ id t b e open_.
          let (t', e', over) = ends.inv.ended id (Below-seen g source _ ends.seen id ends.inv b) in
          let (u, e'', _, stays) = ends.inv.cascades.follow id t e in
          (t', e', ended_badly t u t' e'' e' (stays open_) over),
      ends.inv.touched,
      ends.inv.cascades,
    )
