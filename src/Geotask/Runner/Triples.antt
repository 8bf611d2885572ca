-- ===== src/Geotask/Runner/Triples.antt =====
-- geotask/runner.py: what an action of the loop of `run` leaves behind, and how that composes.
use geo_nexus_sdk.Base.{
  ℕ, ◌≡◌, String, true, List, [], ◌∷◌, ◌++◌, contains, Option-cases, inl, inr, Outcome, return,
  raise, pure, and_then, ◌>>=◌, ◌>>◌, for_each,
}
use geo_nexus_sdk.Geotask.Model.{GeoTask}
use geo_nexus_sdk.Geotask.Machine.{Error}
use geo_nexus_sdk.Geotask.Graph.{GraphAction, task}
use geo_nexus_sdk.Geotask.Scheduler.{Scheduler, forget}
use geo_nexus_sdk.Geotask.Scheduler.Safe.{IsSafe}
use geo_nexus_sdk.Geotask.Scheduler.Holders.{
  HeldBy-more, Shares, release-Shares, defer-Shares, forget-Shares,
}
use geo_nexus_sdk.Geotask.Runner.{
  Runner, RunnerAction, on_graph, on_scheduler, release_share, apply,
}
use geo_nexus_sdk.Geotask.Runner.Held.{OfScheduler, Keeps, on_scheduler-Keeps, apply-Keeps}
use geo_nexus_sdk.Geotask.Runner.Loop.{Run, RunAction, on_runner, collect_tasks}

-- Every share is that of a task of the list or of one in flight.
abbrev pub Owns : List String → Run → Type 0
Owns rest r = OfScheduler (Shares (rest ++ r.in_flight)) r.runner

-- What holds behind an action: the given relation where it returns, and where it raises that the node
-- still has what it gave away.
abbrev pub Post : {A : Type 0} → (A → Run → Type 0) → Outcome Error A × Run → Type 0
Post Q (return a, r) = Q a r
Post Q (raise e, r) = OfScheduler IsSafe r.runner

abbrev pub Triple : {A : Type 0} → (Run → Type 0) → RunAction A → (A → Run → Type 0) → Type 0
Triple P m Q = (r : Run) → P r → Post Q (m r)

pub OfScheduler-more :
    (P Q : Scheduler → Type 0)
    → ((s : Scheduler) → P s → Q s)
    → (r : Runner) → OfScheduler P r
    → OfScheduler Q r
OfScheduler-more P Q more r h = elim (Option-cases r.scheduler) [
  | inl absent ↦ rw absent tt
  | inr (s, found) ↦ let p : P s = rw found at h in rw found (more s p)
]

pub Owns-IsSafe : (rest : List String) (r : Run) → Owns rest r → OfScheduler IsSafe r.runner
Owns-IsSafe rest r h =
    OfScheduler-more (Shares (rest ++ r.in_flight)) IsSafe (λ s h. h.safe) r.runner h

pub Shares-more :
    (ids ids' : List String)
    → ((k : String) → contains k ids ≡ true → contains k ids' ≡ true)
    → (s : Scheduler) → Shares ids s
    → Shares ids' s
Shares-more ids ids' more s h = record {
  safe = h.safe;
  held = HeldBy-more ids ids' s.occupancy.held more h.held;
}

pub settle-Post :
    {A : Type 0} (rest : List String) (o : Outcome Error A) (r : Run)
    → Owns rest r
    → Post (λ _. Owns rest) (o, r)
settle-Post rest (return a) r h = h
settle-Post rest (raise e) r h = Owns-IsSafe rest r h

pub next-Triple :
    {A B : Type 0} (Q : A → Run → Type 0) (R : B → Run → Type 0) (f : A → RunAction B)
    → ((a : A) → Triple (Q a) (f a) R)
    → (s : Outcome Error A × Run) → Post Q s
    → Post R (and_then s.0 f s.1)
next-Triple Q R f hf (return a, r) h = hf a r h
next-Triple Q R f hf (raise e, r) h = h

pub bind-Triple :
    {A B : Type 0} (P : Run → Type 0) (Q : A → Run → Type 0) (R : B → Run → Type 0)
    (m : RunAction A) (f : A → RunAction B)
    → Triple P m Q
    → ((a : A) → Triple (Q a) (f a) R)
    → Triple P (m >>= f) R
bind-Triple P Q R m f hm hf r p = next-Triple Q R f hf (m r) (hm r p)

-- Two actions, one behind the other, and how the tasks that wait change.
pub then-Triple :
    (a b c : List String) (m n : RunAction Unit)
    → Triple (Owns a) m (λ _. Owns b)
    → Triple (Owns b) n (λ _. Owns c)
    → Triple (Owns a) (m >> n) (λ _. Owns c)
then-Triple a b c m n hm hn =
    bind-Triple (Owns a) (λ _. Owns b) (λ _. Owns c) m (λ _. n) hm (λ _. hn)

module _ {A : Type 0} (rest : List String) where
  pub on_graph-Triple :
      (m : GraphAction A) → Triple (Owns rest) (on_runner (on_graph m)) (λ _. Owns rest)
  on_graph-Triple m r h = let s = on_runner (on_graph m) r in settle-Post rest s.0 s.1 h

  pub Keeps-Triple :
      (m : RunnerAction A)
      → ((ids : List String) → Keeps (Shares ids) m)
      → Triple (Owns rest) (on_runner m) (λ _. Owns rest)
  Keeps-Triple m keeps r h =
      let s = on_runner m r in settle-Post rest s.0 s.1 (keeps (rest ++ r.in_flight) r.runner h)

module _ (rest : List String) where
  pub release_share-Triple :
      (id : String) → Triple (Owns (id ∷ rest)) (on_runner (release_share id)) (λ _. Owns rest)
  unfolding release_share
  release_share-Triple id r h = elim (Option-cases r.runner.scheduler) [
    | inl absent ↦ rw (absent, on_scheduler, absent) tt
    | inr (s, found) ↦
        let p : Shares (id ∷ (rest ++ r.in_flight)) s = rw found at h in
        rw (found, on_scheduler) (release-Shares [] (rest ++ r.in_flight) id s p)
  ]

  pub apply-Triple :
      (now : ℕ) (id : String) (o : _)
      → Triple (Owns rest) (on_runner (apply now id o)) (λ _. Owns rest)
  apply-Triple now id o =
      Keeps-Triple rest (apply now id o)
        λ ids. apply-Keeps (Shares ids) (defer-Shares ids) (forget-Shares ids) now id o

  pub forget-Triple :
      (id : String) → Triple (Owns rest) (on_runner (on_scheduler (forget id))) (λ _. Owns rest)
  forget-Triple id =
      Keeps-Triple rest (on_scheduler (forget id))
        λ ids. on_scheduler-Keeps (Shares ids) (forget id) (forget-Shares ids id)

  pub for_each-Triple :
      {A : Type 0} (body : A → RunAction Unit)
      → ((a : A) → Triple (Owns rest) (body a) (λ _. Owns rest))
      → (xs : List A) → Triple (Owns rest) (for_each body xs) (λ _. Owns rest)
  unfolding for_each
  for_each-Triple body step [] r h = h
  for_each-Triple body step (x ∷ xs) r h =
      bind-Triple (Owns rest) (λ _. Owns rest) (λ _. Owns rest) (body x) (λ _. for_each body xs)
        (step x) (λ _. for_each-Triple body step xs) r h

-- The tasks that `_admit` looks at are read from the graph alone.
module _ (P : Run → Type 0) (safe : (r : Run) → P r → OfScheduler IsSafe r.runner)
    (blind : (m : GraphAction GeoTask) (r : Run) → P r → P (on_runner (on_graph m) r).1) where
  collected : (o : Outcome Error GeoTask) (r : Run) → P r → Post (λ _. P) (o, r)
  collected (return a) r h = h
  collected (raise e) r h = safe r h

  pub collect_tasks-Triple : (ids : List String) → Triple P (collect_tasks ids) (λ _. P)
  unfolding collect_tasks
  collect_tasks-Triple [] r h = h
  collect_tasks-Triple (id ∷ ids) r h =
      let rest : GeoTask → RunAction (List GeoTask) =
        λ t. collect_tasks ids >>= λ ts. pure (t ∷ ts) in
      let look : RunAction GeoTask = on_runner (on_graph (task id)) in
      bind-Triple P (λ _. P) (λ _. P) look rest
        (λ r h. collected (look r).0 (look r).1 (blind (task id) r h))
        (λ t.
          bind-Triple P (λ _. P) (λ _. P) (collect_tasks ids) (λ ts. pure (t ∷ ts))
            (collect_tasks-Triple ids) (λ ts r h. h))
        r h
