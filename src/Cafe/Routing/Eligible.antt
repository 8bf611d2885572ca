-- ===== src/Cafe/Routing/Eligible.antt =====
-- cafe/central.py, route: which workers the two loops leave.
use geo_nexus_sdk.Base.{
  ℕ, String, Bool, true, ◌&&◌, none, some, List, [], ◌∷◌, ◌++◌, Dict, map, lookup, remove, insert,
  keys, ◌≡◌, inl, inr, refl, sym, ap, ◌∙◌, arith, Bool-cases, Option-cases, leb, keep, Distinct,
  Distinct-remove, lookup-remove, eq_iff,
}
use mathlib.Core.List.{append-nil, append_assoc}
use mathlib.Core.Path.{fun_ext}
use geo_nexus_sdk.Cafe.Protocol.{PushdownRequest, Worker, Exclusion, recently_failed}
use geo_nexus_sdk.Cafe.Central.{is_healthy}
use geo_nexus_sdk.Cafe.Routing.{
  takes_payload, Sifted, sift_workers, capacity_ok, local_inputs, Scored, score_workers,
}

-- No mark of the worker runs beyond `now`.
unfoldable pub healthy_at : ℕ → Dict ℕ → String → Bool
healthy_at now marks id = elim (lookup id marks) [ none ↦ true | some until ↦ leb until now ]

-- Marks that give the same answers.
pub record Alike (now : ℕ) (marks marks' : Dict ℕ) : Type 0 where
  pub one : Distinct (keys marks')
  pub same : (j : String) → healthy_at now marks' j ≡ healthy_at now marks j
  pub absent : (j : String) → lookup j marks ≡ none → lookup j marks' ≡ none

Alike-trans : {now : ℕ} {m m' m'' : Dict ℕ} → Alike now m m' → Alike now m' m'' → Alike now m m''
Alike-trans f g = record {
  one = g.one;
  same = λ j. g.same j ∙ f.same j;
  absent = λ j h. g.absent j (f.absent j h);
}

is_healthy-answer :
    (now : ℕ) (id : String) (marks : Dict ℕ) → (is_healthy now id marks).0 ≡ healthy_at now marks id
unfolding is_healthy healthy_at
is_healthy-answer now id marks = ground arith

remove-Alike :
    (now : ℕ) (id : String) (until : ℕ) (marks : Dict ℕ)
    → Distinct (keys marks)
    → lookup id marks ≡ some until
    → leb until now ≡ true
    → Alike now marks (remove id marks)
unfolding healthy_at
remove-Alike now id until marks one found over = record {
  one = Distinct-remove id marks one;
  same = λ j. ground (arith, lookup-remove id j marks one, eq_iff id j);
  absent = λ j h. ground (arith, lookup-remove id j marks one);
}

is_healthy-Alike :
    (now : ℕ) (id : String) (marks : Dict ℕ)
    → Distinct (keys marks)
    → Alike now marks (is_healthy now id marks).1
unfolding is_healthy
is_healthy-Alike now id marks one = elim (Option-cases (lookup id marks)) [
  | inl absent ↦ rw (absent, is_healthy) (record { one = one; same = λ j. refl; absent = λ j h. h })
  | inr (until, found) ↦ elim (Bool-cases (leb until now)) [
    | inr held ↦
        rw (found, held, is_healthy) (record { one = one; same = λ j. refl; absent = λ j h. h })
    | inl over ↦ rw (found, over, is_healthy) (remove-Alike now id until marks one found over)
  ]
]

module _ (now : ℕ) (r : PushdownRequest) where
  -- The worker takes the payload and is not held back after a failure.
  abbrev pub capable_at : Dict ℕ → Worker → Bool
  capable_at marks w = takes_payload r w && healthy_at now marks w.worker_id

  -- The first loop leaves the capable workers, in order, and takes no other mark away than those
  -- whose time is over.
  pub sift_workers-capable :
      (ws : List Worker) (s : Sifted)
      → Distinct (keys s.marks)
      → ((sift_workers now r ws s).capable ≡ s.capable ++ keep (capable_at s.marks) ws)
        × Alike now s.marks (sift_workers now r ws s).marks
  unfolding sift_workers
  sift_workers-capable [] s one =
      (sym (append-nil s.capable), record { one = one; same = λ j. refl; absent = λ j h. h })
  sift_workers-capable (w ∷ ws) s one = elim (Bool-cases (takes_payload r w)) [
    | inr refused ↦ rw (refused, sift_workers) (sift_workers-capable ws _ one)
    | inl taken ↦
        let like = is_healthy-Alike now w.worker_id s.marks one in
        let after = (is_healthy now w.worker_id s.marks).1 in
        let tests : keep (capable_at after) ws ≡ keep (capable_at s.marks) ws =
          ap (λ p. keep p ws)
            (fun_ext (λ v. ap (λ b. takes_payload r v && b) (like.same v.worker_id))) in
        elim (Bool-cases (healthy_at now s.marks w.worker_id)) [
          | inl healthy ↦
              let rest =
                sift_workers-capable ws (record s { capable = s.capable ++ w ∷ []; marks = after })
                  like.one in
              rw (taken, is_healthy-answer now w.worker_id s.marks, healthy, sift_workers)
                (
                  rest.0
                      ∙ (append_assoc s.capable (w ∷ []) (keep (capable_at after) ws)
                          ∙ ap (λ l. s.capable ++ w ∷ l) tests),
                  Alike-trans like rest.1,
                )
          | inr held ↦
              let rest =
                sift_workers-capable ws
                  (record s {
                    excluded = insert w.worker_id recently_failed s.excluded;
                    marks = after;
                  })
                  like.one in
              rw (taken, is_healthy-answer now w.worker_id s.marks, held, sift_workers)
                (rest.0 ∙ ap (λ l. s.capable ++ l) tests, Alike-trans like rest.1)
        ]
  ]

  abbrev pub fits : Worker → Bool
  fits w = (capacity_ok w r).0

  abbrev pub scored_of : Worker → Scored
  scored_of w = record { local = local_inputs r w; id = w.worker_id }

  -- The second loop scores those with the capacity.
  pub score_workers-scored :
      (ws : List Worker) (excluded : Dict Exclusion)
      → (score_workers r ws excluded).0 ≡ map scored_of (keep fits ws)
  unfolding score_workers
  score_workers-scored [] excluded = refl
  score_workers-scored (w ∷ ws) excluded = elim (Bool-cases (capacity_ok w r).0) [
    | inl large ↦
        rw (large, score_workers) (ap (λ l. scored_of w ∷ l) (score_workers-scored ws excluded))
    | inr small ↦ rw (small, score_workers) (score_workers-scored ws _)
  ]
