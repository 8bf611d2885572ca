-- ===== src/Cafe/Dispatch/Detach.antt =====
-- cafe/central.py, _route_excluding: taking workers out and putting them back.
use geo_nexus_sdk.Base.{
  String, none, List, [], ◌∷◌, Dict, lookup, insert, remove, keys, contains, ◌≡◌, inl, inr, refl,
  ◌∙◌, arith, Option-cases, or_else, Distinct, Distinct-insert, Distinct-remove, lookup-insert,
  lookup-remove, lookup-none, contains-keys, Named, Named-insert, Named-remove, Named-lookup,
  if◌then◌else◌, eq_iff,
}
use geo_nexus_sdk.Cafe.Protocol.{Worker}
use geo_nexus_sdk.Cafe.Dispatch.{detach, restore}

abbrev pub id_of : Worker → String
id_of w = w.worker_id

pub detach-rest :
    (ids : List String) (d : Dict Worker) (j : String)
    → Distinct (keys d)
    → lookup j (detach ids d).1 ≡ (if contains j ids then none else lookup j d)
unfolding detach
detach-rest [] d j one = refl
detach-rest (id ∷ ids) d j one = elim (Option-cases (lookup id d)) [
  | inl absent ↦ rw (absent, detach) (ground (arith, detach-rest ids d j one, eq_iff id j))
  | inr (w, found) ↦
      rw (found, detach)
        (ground (
          arith,
          detach-rest ids (remove id d) j (Distinct-remove id d one),
          lookup-remove id j d one,
        ))
]

pub detach-saved :
    (ids : List String) (d : Dict Worker) (j : String)
    → Distinct (keys d)
    → lookup j (detach ids d).0 ≡ (if contains j ids then lookup j d else none)
unfolding detach lookup
detach-saved [] d j one = refl
detach-saved (id ∷ ids) d j one = elim (Option-cases (lookup id d)) [
  | inl absent ↦ rw (absent, detach) (ground (arith, detach-saved ids d j one, eq_iff id j))
  | inr (w, found) ↦
      rw (found, detach)
        (ground (
          arith,
          detach-saved ids (remove id d) j (Distinct-remove id d one),
          lookup-remove id j d one,
          eq_iff id j,
        ))
]

pub detach-Distinct :
    (ids : List String) (d : Dict Worker)
    → Distinct (keys d)
    → Distinct (keys (detach ids d).0) × Distinct (keys (detach ids d).1)
unfolding detach
detach-Distinct [] d one = (tt, one)
detach-Distinct (id ∷ ids) d one = elim (Option-cases (lookup id d)) [
  | inl absent ↦ rw (absent, detach) (detach-Distinct ids d one)
  | inr (w, found) ↦
      let less = Distinct-remove id d one in
      let rest = detach-Distinct ids (remove id d) less in
      rw (found, detach)
        (
          (
            contains-keys id (detach ids (remove id d)).0
                ∙ ground (
                  arith,
                  detach-saved ids (remove id d) id less,
                  lookup-remove id id d one,
                  eq_iff id id,
                ),
            rest.0,
          ),
          rest.1,
        )
]

pub detach-Named :
    (ids : List String) (d : Dict Worker)
    → Named id_of d
    → Named id_of (detach ids d).0 × Named id_of (detach ids d).1
unfolding detach
detach-Named [] d own = (tt, own)
detach-Named (id ∷ ids) d own = elim (Option-cases (lookup id d)) [
  | inl absent ↦ rw (absent, detach) (detach-Named ids d own)
  | inr (w, found) ↦
      let rest = detach-Named ids (remove id d) (Named-remove id_of id d own) in
      rw (found, detach) ((Named-lookup id_of id w d own found, rest.0), rest.1)
]

pub restore-lookup :
    (saved d : Dict Worker) (j : String)
    → Distinct (keys saved)
    → lookup j (restore saved d) ≡ or_else (lookup j saved) (lookup j d)
unfolding restore lookup
restore-lookup [] d j one = refl
restore-lookup ((id, w) ∷ saved) d j one = ground (
  arith,
  restore-lookup saved (insert id w d) j one.1,
  lookup-insert id j w d,
  lookup-none id saved one.0,
  eq_iff id j,
)

pub restore-Distinct :
    (saved d : Dict Worker) → Distinct (keys d) → Distinct (keys (restore saved d))
unfolding restore
restore-Distinct [] d one = one
restore-Distinct ((id, w) ∷ saved) d one =
    restore-Distinct saved (insert id w d) (Distinct-insert id w d one)

pub restore-Named :
    (saved d : Dict Worker) → Named id_of saved → Named id_of d → Named id_of (restore saved d)
unfolding restore
restore-Named [] d own h = h
restore-Named ((id, w) ∷ saved) d own h =
    restore-Named saved (insert id w d) own.1 (Named-insert id_of id w d own.0 h)

-- What is taken out is put back.
pub restore-detach :
    (ids : List String) (d : Dict Worker) (j : String)
    → Distinct (keys d)
    → lookup j (restore (detach ids d).0 (detach ids d).1) ≡ lookup j d
restore-detach ids d j one = ground (
  arith,
  restore-lookup (detach ids d).0 (detach ids d).1 j (detach-Distinct ids d one).0,
  detach-saved ids d j one,
  detach-rest ids d j one,
)
