-- ===== src/Geotask/Graph/Cascade/Queue.antt =====
-- geotask/graph.py, `_cascade`: what holds each time round of its queue.
use geo_nexus_sdk.Base.{
  ℕ, suc, ◌+◌, ◌*◌, ◌<◌, ◌≡◌, ◌≤◌, sym, ap, ◌∙◌, subst, true, false, Bool, not, ◌||◌, ◌⊎◌, inl, inr,
  some, List, [], ◌∷◌, ◌++◌, String, arith, Outcome, Bool-cases, ◌==◌, eq_iff, contains,
  contains-append, keep, length, contains-keep,
}
use geo_nexus_sdk.Geotask.Model.{GeoTask}
use geo_nexus_sdk.Geotask.Machine.{Error, in_states, is_terminal_state}
use geo_nexus_sdk.Geotask.Machine.Paths.{Run-terminal}
use geo_nexus_sdk.Geotask.Graph.{TaskGraph, node, node_is, dependents_of, satisfied_states}
use geo_nexus_sdk.Geotask.Graph.Cascade.Step.{
  IsClosed, Cascades, Cascades-trans, dependents_of-Cascades, is_satisfied, satisfied-terminal,
  Visit,
}

-- Tasks not seen yet; each visit takes one away.
abbrev pub unseen : List String → List String → ℕ
unseen seen ids = length (keep (λ id. not (contains id seen)) ids)

unseen-le : (id : String) (seen ids : List String) → unseen (id ∷ seen) ids ≤ unseen seen ids
unseen-le id seen [] = omega arith
unseen-le id seen (j ∷ ids) = ground (arith, unseen-le id seen ids)

pub unseen-lt :
    (id : String) (seen ids : List String)
    → contains id ids ≡ true
    → contains id seen ≡ false
    → unseen (id ∷ seen) ids < unseen seen ids
unseen-lt id seen [] listed fresh = cc
unseen-lt id seen (j ∷ ids) listed fresh = elim (Bool-cases (j == id)) [
  | inl same ↦ ground (arith, unseen-le id seen ids, (eq_iff j id).0 same, eq_iff id j)
  | inr other ↦ ground (arith, unseen-lt id seen ids, other, eq_iff id j, eq_iff j id)
]

pub length-keep : (p : String → Bool) (ids : List String) → length (keep p ids) ≤ length ids
length-keep p [] = omega arith
length-keep p (j ∷ ids) = ground (arith, length-keep p ids)

-- The tasks that a failure of `source` is passed on to: those that depend on it, and those that
-- depend on one of these which has not succeeded or been skipped.
pub data Below (g : TaskGraph) (source : String) : String → Type 0 where
  direct : {id : String} → contains id (dependents_of g source) ≡ true → Below g source id
  through :
      {mid id : String} (t : GeoTask)
      → Below g source mid
      → node g mid ≡ some t
      → is_satisfied t ≡ false
      → contains id (dependents_of g mid) ≡ true
      → Below g source id

dependents-listed :
    (g : TaskGraph) (mid id : String)
    → contains id (dependents_of g mid) ≡ true
    → contains id g.order ≡ true
unfolding dependents_of
dependents-listed g mid id h =
    ground (arith, contains-keep (node_is g (λ t. contains mid t.depends_on)) id g.order)

pub dependents-length : (g : TaskGraph) (id : String) → length (dependents_of g id) ≤ length g.order
unfolding dependents_of
dependents-length g id = length-keep _ g.order

-- One visit pays for all that it queues.
pub measure_falls :
    (queued more before after n fuel : ℕ)
    → more ≤ n
    → after < before
    → suc queued + before * suc n < suc fuel
    → queued + more + after * suc n < fuel
measure_falls queued more before after n fuel few fewer enough = grind arith

pub Below-listed :
    (g : TaskGraph) (source id : String) → Below g source id → contains id g.order ≡ true
Below-listed g source id (direct h) = dependents-listed g source id h
Below-listed g source id (through {mid = mid} t b e open_ h) = dependents-listed g mid id h

-- What holds each time round: of the queue, of the tasks seen, and of the nodes.
pub record Inv (g0 : TaskGraph) (source : String) (g : TaskGraph) (queue seen : List String)
    : Type 0 where
  pub cascades : Cascades g0 g
  pub touched : (j : String) → (node g j ≡ node g0 j) ⊎ Below g0 source j
  pub queued : (j : String) → contains j queue ≡ true → Below g0 source j
  pub ended :
      (j : String)
      → contains j seen ≡ true
      → (t : GeoTask) × (node g j ≡ some t) × (is_terminal_state t.state ≡ true)
  pub spread :
      (j k : String) (t : GeoTask)
      → contains j seen ≡ true
      → node g0 j ≡ some t
      → is_satisfied t ≡ false
      → contains k (dependents_of g0 j) ≡ true
      → (contains k queue || contains k seen) ≡ true
  pub start :
      (k : String)
      → contains k (dependents_of g0 source) ≡ true
      → (contains k queue || contains k seen) ≡ true

still_known :
    (id k : String) (queue seen : List String)
    → contains id seen ≡ true
    → (contains k (id ∷ queue) || contains k seen) ≡ true
    → (contains k queue || contains k seen) ≡ true
still_known id k queue seen old known = elim (Bool-cases (id == k)) [
  | inl same ↦ ground (arith, (eq_iff id k).0 same)
  | inr other ↦ ground (arith, other)
]

pub skip-Inv :
    (g0 : TaskGraph) (source : String) (g : TaskGraph) (id : String) (queue seen : List String)
    → contains id seen ≡ true
    → Inv g0 source g (id ∷ queue) seen
    → Inv g0 source g queue seen
skip-Inv g0 source g id queue seen old i = record {
  cascades = i.cascades;
  touched = i.touched;
  queued = λ j m. i.queued j (ground arith);
  ended = i.ended;
  spread = λ j k t m e open_ h. still_known id k queue seen old (i.spread j k t m e open_ h);
  start = λ k h. still_known id k queue seen old (i.start k h);
}

-- A task that has not been satisfied on the way was not satisfied at the start.
satisfied_before :
    (g0 g : TaskGraph) (id : String) (t0 t : GeoTask)
    → Cascades g0 g
    → node g0 id ≡ some t0
    → node g id ≡ some t
    → is_satisfied t ≡ false
    → is_satisfied t0 ≡ false
satisfied_before g0 g id t0 t c e0 e open_ = elim (Bool-cases (is_satisfied t0)) [
  | inr h ↦ h
  | inl fits ↦
      let (t', e', f, _) = c.follow id t0 e0 in
      let same : t' ≡ t = cc in
      let stays = Run-terminal f.run (satisfied-terminal t0.state fits) in
      cc (ap is_satisfied same, ap (λ s. in_states s satisfied_states) stays)
]

module _ (g0 : TaskGraph) (source : String) (closed : IsClosed g0) (g : TaskGraph) (id : String)
    (queue seen : List String) (t : GeoTask) (out : Outcome Error (List String) × TaskGraph)
    (there : node g id ≡ some t) (v : Visit g id t out)
    (i : Inv g0 source g (id ∷ queue) seen) where
  same_dependents : dependents_of out.1 id ≡ dependents_of g0 id
  same_dependents = dependents_of-Cascades id (Cascades-trans i.cascades v.cascades) closed

  is_Below : Below g0 source id
  is_Below = i.queued id (ground (arith, eq_iff id id))

  more-Below : (j : String) → contains j v.more ≡ true → Below g0 source j
  more-Below j m = elim (Bool-cases (is_satisfied t)) [
    | inl fits ↦ cc (ap (contains j) (v.stops fits))
    | inr open_ ↦
        let (t0, e0) = closed id (Below-listed g0 source id is_Below) in
        through t0 is_Below e0 (satisfied_before g0 g id t0 t i.cascades e0 there open_)
          (cc (ap (contains j) (v.spreads open_), ap (contains j) same_dependents))
  ]

  pub more-length : length v.more ≤ length g0.order
  more-length = elim (Bool-cases (is_satisfied t)) [
    | inl fits ↦ rw (v.stops fits) (omega arith)
    | inr open_ ↦ rw (v.spreads open_, same_dependents) (dependents-length g0 id)
  ]

  -- Known before, in the queue or seen, is known after; so is what the visit queues.
  known_after :
      (k : String)
      → (contains k (id ∷ queue) || contains k seen) ≡ true
      → (contains k (queue ++ v.more) || contains k (id ∷ seen)) ≡ true
  known_after k h = ground (arith, contains-append k queue v.more)

  queued_after :
      (k : String)
      → contains k v.more ≡ true
      → (contains k (queue ++ v.more) || contains k (id ∷ seen)) ≡ true
  queued_after k h = ground (arith, contains-append k queue v.more)

  more-spread :
      (k : String) (t0 : GeoTask)
      → node g0 id ≡ some t0
      → is_satisfied t0 ≡ false
      → contains k (dependents_of g0 id) ≡ true
      → contains k v.more ≡ true
  more-spread k t0 e0 open_ h =
      let (t', e', _, stays) = i.cascades.follow id t0 e0 in
      let same : t' ≡ t = cc in
      let still : is_satisfied t ≡ false = sym (ap is_satisfied same) ∙ stays open_ in
      cc (ap (contains k) (v.spreads still), ap (contains k) same_dependents)

  pub visit-Inv : Inv g0 source out.1 (queue ++ v.more) (id ∷ seen)
  visit-Inv = record {
    cascades = Cascades-trans i.cascades v.cascades;
    touched = λ j. elim (Bool-cases (id == j)) [
      | inl same ↦ inr (subst (Below g0 source) ((eq_iff id j).0 same) is_Below)
      | inr other ↦ elim (i.touched j) [ inl kept ↦ inl (v.others j other ∙ kept) | inr b ↦ inr b ]
    ];
    queued = λ j m. elim (Bool-cases (contains j queue)) [
      | inl old ↦ i.queued j (ground arith)
      | inr fresh ↦ more-Below j (ground (arith, contains-append j queue v.more))
    ];
    ended = λ j m. elim (Bool-cases (id == j)) [
      | inl same ↦
          (v.new, subst (λ k. node out.1 k ≡ some v.new) ((eq_iff id j).0 same) v.found, v.ended)
      | inr other ↦ let (u, e, over) = i.ended j (ground arith) in (u, v.others j other ∙ e, over)
    ];
    spread = λ j k t0 m e open_ h. elim (Bool-cases (id == j)) [
      | inl same ↦
          let at = sym ((eq_iff id j).0 same) in
          queued_after k (
            more-spread k t0 (subst (λ n. node g0 n ≡ some t0) at e) open_
              (subst (λ n. contains k (dependents_of g0 n) ≡ true) at h))
      | inr other ↦ known_after k (i.spread j k t0 (ground arith) e open_ h)
    ];
    start = λ k h. known_after k (i.start k h);
  }
