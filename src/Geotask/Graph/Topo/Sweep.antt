-- ===== src/Geotask/Graph/Topo/Sweep.antt =====
-- geotask/graph.py, `_topological_order`: the inner loop, which counts one task off its dependents.
use geo_nexus_sdk.Base.{
  ℕ, ◌-◌, ◌≤◌, ◌<◌, ◌≡◌, refl, ap, ◌∙◌, subst, true, false, Bool, not, ◌&&◌, ◌⊎◌, inl, inr, some,
  List, [], ◌∷◌, ◌++◌, String, if◌then◌else◌, arith, Bool-cases, Option-cases, ◌==◌, eq_iff,
  contains, contains-append, keep, length, Distinct, Distinct-append, Dict, lookup, insert, get_or,
  get_or-insert, eqb, eqb_iff,
}
use mathlib.Core.List.{append_assoc}
use geo_nexus_sdk.Geotask.Model.{GeoTask}
use geo_nexus_sdk.Geotask.Graph.{sweep}

-- Dependencies that are not placed yet, each as often as it is named.
abbrev pub remaining : List String → List String → ℕ
remaining deps out = length (keep (λ d. not (contains d out)) deps)

pub remaining-le :
    (id : String) (deps out : List String) → remaining deps (out ++ id ∷ []) ≤ remaining deps out
remaining-le id [] out = omega arith
remaining-le id (d ∷ deps) out =
    ground (arith, remaining-le id deps out, contains-append d out (id ∷ []))

-- Placing a dependency leaves at least one fewer.
pub remaining-lt :
    (id : String) (deps out : List String)
    → contains id deps ≡ true
    → contains id out ≡ false
    → remaining deps (out ++ id ∷ []) < remaining deps out
remaining-lt id [] out named fresh = cc
remaining-lt id (d ∷ deps) out named fresh = elim (Bool-cases (d == id)) [
  | inl same ↦ ground (
    arith,
    remaining-le id deps out,
    contains-append d out (id ∷ []),
    (eq_iff d id).0 same,
    eq_iff id d,
  )
  | inr other ↦ ground (
    arith,
    remaining-lt id deps out,
    contains-append d out (id ∷ []),
    other,
    eq_iff d id,
    eq_iff id d,
  )
]

-- The tasks placed or queued are distinct, and their counts are down to 0.
pub record IsFresh (placed : List String) (indegree : Dict ℕ) (ready : List String) : Type 0 where
  pub apart : Distinct (placed ++ ready)
  pub counted : (j : String) → contains j (placed ++ ready) ≡ true → get_or j 0 indegree ≡ 0

-- What the loop over `others` does, when `id` has been placed.
pub record Swept (nodes : Dict GeoTask) (id : String) (placed others : List String)
    (indegree : Dict ℕ) (ready : List String) (out : Dict ℕ × List String) : Type 0 where
  pub fresh : IsFresh placed out.0 out.1
  pub unchanged : (j : String) → contains j others ≡ false → get_or j 0 out.0 ≡ get_or j 0 indegree
  pub lowered :
      (j : String) (t : GeoTask)
      → contains j others ≡ true
      → lookup j nodes ≡ some t
      → get_or j 0 out.0
        ≡ (if contains id t.depends_on then get_or j 0 indegree - 1 else get_or j 0 indegree)
  pub from :
      (j : String)
      → contains j out.1 ≡ true
      → (contains j ready ≡ true) ⊎ (contains j others ≡ true)

-- One task of the inner loop.
abbrev pub lower : String → String → ℕ → Dict ℕ → Bool → Dict ℕ
lower id other n indegree hit = if hit then insert other (n - 1) indegree else indegree

abbrev pub release : String → ℕ → List String → Bool → List String
release other n ready hit = if hit && eqb n 1 then ready ++ other ∷ [] else ready

lower-get_or :
    (id other j : String) (indegree : Dict ℕ) (hit : Bool)
    → get_or j 0 (lower id other (get_or other 0 indegree) indegree hit) ≡ (
        if other == j
        then (if hit then get_or j 0 indegree - 1 else get_or j 0 indegree)
        else get_or j 0 indegree)
lower-get_or id other j indegree true =
    ground (arith, get_or-insert other j (get_or other 0 indegree - 1) 0 indegree, eq_iff other j)
lower-get_or id other j indegree false = ground arith

not_queued :
    (other : String) (placed : List String) (indegree : Dict ℕ) (ready : List String)
    → IsFresh placed indegree ready
    → eqb (get_or other 0 indegree) 1 ≡ true
    → contains other (placed ++ ready) ≡ false
not_queued other placed indegree ready f last =
    elim (Bool-cases (contains other (placed ++ ready))) [
      | inl old ↦
          absurd (omega (arith, f.counted other old, (eqb_iff (get_or other 0 indegree) 1).0 last))
      | inr new ↦ new
    ]

counted_down :
    (id other : String) (placed : List String) (indegree : Dict ℕ) (ready : List String)
    (j : String)
    → IsFresh placed indegree ready
    → eqb (get_or other 0 indegree) 1 ≡ true
    → contains j ((placed ++ ready) ++ other ∷ []) ≡ true
    → get_or j 0 (lower id other (get_or other 0 indegree) indegree true) ≡ 0
counted_down id other placed indegree ready j f last m = ground (
  arith,
  f.counted j,
  contains-append j (placed ++ ready) (other ∷ []),
  lower-get_or id other j indegree true,
  eq_iff other j,
)

lower-IsFresh :
    (id other : String) (placed : List String) (indegree : Dict ℕ) (ready : List String)
    (hit : Bool)
    → IsFresh placed indegree ready
    → IsFresh placed
        (lower id other (get_or other 0 indegree) indegree hit)
        (release other (get_or other 0 indegree) ready hit)
lower-IsFresh id other placed indegree ready false f = f
lower-IsFresh id other placed indegree ready true f =
    elim (Bool-cases (eqb (get_or other 0 indegree) 1)) [
      | inl last ↦ rw last (record {
        apart = rw (← append_assoc placed ready (other ∷ [])) (
            Distinct-append other (placed ++ ready) f.apart
              (not_queued other placed indegree ready f last));
        counted = λ j m.
            counted_down id other placed indegree ready j f last
              (rw (← append_assoc placed ready (other ∷ [])) at m);
      })
      | inr more ↦ rw more (record {
        apart = f.apart;
        counted = λ j m. ground (arith, f.counted j m, lower-get_or id other j indegree true);
      })
    ]

released_from :
    (other j : String) (n : ℕ) (ready others : List String) (hit : Bool)
    → contains j (release other n ready hit) ≡ true
    → (contains j ready ≡ true) ⊎ (contains j (other ∷ others) ≡ true)
released_from other j n ready others hit m = elim (Bool-cases (contains j ready)) [
  | inl old ↦ inl old
  | inr new ↦ inr (ground (arith, contains-append j ready (other ∷ [])))
]

lowered_here :
    (nodes : Dict GeoTask) (id other j : String) (others : List String) (indegree : Dict ℕ)
    (u t : GeoTask) (after : Dict ℕ)
    → lookup other nodes ≡ some u
    → lookup j nodes ≡ some t
    → contains other others ≡ false
    → (other == j) ≡ true
    → ((k : String)
        → contains k others ≡ false
        → get_or k 0 after
          ≡ get_or k 0
              (lower id other (get_or other 0 indegree) indegree (contains id u.depends_on)))
    → get_or j 0 after
      ≡ (if contains id t.depends_on then get_or j 0 indegree - 1 else get_or j 0 indegree)
lowered_here nodes id other j others indegree u t after found e absent same unchanged =
    let task_same : u ≡ t = cc ((eq_iff other j).0 same) in
    let here = subst (λ k. contains k others ≡ false) ((eq_iff other j).0 same) absent in
    unchanged j here
    ∙ (lower-get_or id other j indegree (contains id u.depends_on)
        ∙ rw same (
            ap
              (λ (v : GeoTask).
                if contains id v.depends_on then get_or j 0 indegree - 1 else get_or j 0 indegree)
              task_same))

pub sweep-Swept :
    (nodes : Dict GeoTask) (id : String) (placed others : List String) (indegree : Dict ℕ)
    (ready : List String)
    → Distinct others
    → IsFresh placed indegree ready
    → Swept nodes id placed others indegree ready (sweep nodes id others indegree ready)
unfolding sweep
sweep-Swept nodes id placed [] indegree ready d f = record {
  fresh = f;
  unchanged = λ j _. refl;
  lowered = λ j t m. cc;
  from = λ j m. inl m;
}
sweep-Swept nodes id placed (other ∷ others) indegree ready d f =
    elim (Option-cases (lookup other nodes)) [
      | inl absent ↦
          let rest = sweep-Swept nodes id placed others indegree ready d.1 f in
          rw (absent, sweep)
            (record {
              fresh = rest.fresh;
              unchanged = λ j m. rest.unchanged j (ground arith);
              lowered = λ j t m e. elim (Bool-cases (other == j)) [
                | inl same ↦ cc ((eq_iff other j).0 same)
                | inr apart ↦ rest.lowered j t (ground arith) e
              ];
              from = λ j m. elim (rest.from j m) [ inl r ↦ inl r | inr o ↦ inr (ground arith) ];
            })
      | inr (u, found) ↦
          let n = get_or other 0 indegree in
          let hit = contains id u.depends_on in
          let rest =
            sweep-Swept nodes id placed others (lower id other n indegree hit)
              (release other n ready hit) d.1
              (lower-IsFresh id other placed indegree ready hit f) in
          rw (found, sweep)
            (record {
              fresh = rest.fresh;
              unchanged = λ j m.
                  rest.unchanged j (ground arith)
                  ∙ ground (arith, lower-get_or id other j indegree hit);
              lowered = λ j t m e. elim (Bool-cases (other == j)) [
                | inl same ↦
                    lowered_here nodes id other j others indegree u t _ found e d.0 same
                      rest.unchanged
                | inr apart ↦
                    rest.lowered j t (ground arith) e
                    ∙ ground (arith, lower-get_or id other j indegree hit, apart)
              ];
              from = λ j m. elim (rest.from j m) [
                | inl r ↦ released_from other j n ready others hit r
                | inr o ↦ inr (ground arith)
              ];
            })
    ]
