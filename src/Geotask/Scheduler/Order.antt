-- ===== src/Geotask/Scheduler/Order.antt =====
-- geotask/scheduler.py, `_fair_order`: by priority, and the owners of a layer in turn. A group of
-- tasks stands for its owner; a step round the owners that takes nothing is passed over.
use geo_nexus_sdk.Base.{
  ℕ, suc, zero, ◌+◌, ◌%◌, ◌≡◌, ◌≤◌, refl, true, false, String, Bool, Bool-cases, List, [], ◌∷◌,
  ◌++◌, Dict, map, get_or, length, take, drop, keep, every, contains, leb, if◌then◌else◌, ℤ, subst,
  sym, leb_int, eqb_int, ◌==◌, arith, inl, inr,
}
use mathlib.Core.List.Perm
use mathlib.Core.List.{Perm, perm_middle}
use geo_nexus_sdk.Geotask.Model.{GeoTask}
use geo_nexus_sdk.Geotask.Scheduler.{Scheduler, enqueue_seq, owner_of}

unfoldable pub enqueue_all : List GeoTask → Scheduler → Scheduler
unfolding enqueue_seq
enqueue_all [] s = s
enqueue_all (t ∷ ts) s = enqueue_all ts (enqueue_seq t.task_id s)

-- The keys of `by_priority`, from the highest, each once.
unfoldable pub insert_priority : ℤ → List ℤ → List ℤ
insert_priority p [] = p ∷ []
insert_priority p (q ∷ qs) =
    if eqb_int p q then q ∷ qs else if leb_int q p then p ∷ q ∷ qs else q ∷ insert_priority p qs

unfoldable pub priorities : List GeoTask → List ℤ
unfolding insert_priority
priorities [] = []
priorities (t ∷ ts) = insert_priority t.priority (priorities ts)

-- The keys of `groups`, in the order of the first task of each.
unfoldable pub owners : List String → List GeoTask → List String
owners seen [] = []
owners seen (t ∷ ts) =
    if contains (owner_of t) seen
    then owners seen ts
    else owner_of t ∷ owners (owner_of t ∷ seen) ts

abbrev pub seq_of : Dict ℕ → GeoTask → ℕ
seq_of seqs t = get_or t.task_id 0 seqs

-- A stable sort by a number.
unfoldable pub insert_by {ℓ} : {A : Type ℓ} → (A → ℕ) → A → List A → List A
insert_by f a [] = a ∷ []
insert_by f a (b ∷ bs) = if leb (f a) (f b) then a ∷ b ∷ bs else b ∷ insert_by f a bs

unfoldable pub sort_by {ℓ} : {A : Type ℓ} → (A → ℕ) → List A → List A
unfolding insert_by
sort_by f [] = []
sort_by f (a ∷ as_) = insert_by f a (sort_by f as_)

abbrev pub first_seq : Dict ℕ → List GeoTask → ℕ
first_seq seqs [] = 0
first_seq seqs (t ∷ ts) = seq_of seqs t

unfoldable pub groups : Dict ℕ → List GeoTask → List (List GeoTask)
unfolding owners sort_by
groups seqs layer =
    sort_by (first_seq seqs)
      (map (λ o. sort_by (seq_of seqs) (keep (λ t. owner_of t == o) layer)) (owners [] layer))

-- One round: the first task of each group that has one.
abbrev pub heads {ℓ} : {A : Type ℓ} → List (List A) → List A
heads [] = []
heads ([] ∷ gs) = heads gs
heads ((a ∷ g) ∷ gs) = a ∷ heads gs

abbrev pub tails {ℓ} : {A : Type ℓ} → List (List A) → List (List A)
tails [] = []
tails ([] ∷ gs) = [] ∷ tails gs
tails ((a ∷ g) ∷ gs) = g ∷ tails gs

abbrev pub is_empty {ℓ} : {A : Type ℓ} → List A → Bool
is_empty [] = true
is_empty (a ∷ g) = false

-- `while any(groups[owner] for owner in rotated)`. Each round takes a task, so there are no more
-- rounds than tasks.
unfoldable pub round_robin {ℓ} : {A : Type ℓ} → ℕ → List (List A) → List A
round_robin zero gs = []
round_robin (suc fuel) gs =
    if every is_empty gs then [] else heads gs ++ round_robin fuel (tails gs)

abbrev pub count_all {ℓ} : {A : Type ℓ} → List (List A) → ℕ
count_all [] = 0
count_all (g ∷ gs) = length g + count_all gs

-- `self._cursor`, a dictionary with a number as the key.
unfoldable pub cursor_of : ℤ → List (ℤ × ℕ) → ℕ
cursor_of p [] = 0
cursor_of p ((q, n) ∷ rest) = if eqb_int q p then n else cursor_of p rest

unfoldable pub set_cursor : ℤ → ℕ → List (ℤ × ℕ) → List (ℤ × ℕ)
set_cursor p n [] = (p, n) ∷ []
set_cursor p n ((q, m) ∷ rest) = if eqb_int q p then (q, n) ∷ rest else (q, m) ∷ set_cursor p n rest

unfoldable pub layer_order : List GeoTask → ℤ → Scheduler → List GeoTask × Scheduler
unfolding groups round_robin cursor_of set_cursor
layer_order layer p s =
    let gs = groups s.seqs layer in
    let start = cursor_of p s.cursor % length gs in
    let rotated = drop start gs ++ take start gs in
    (
      round_robin (count_all rotated) rotated,
      record s { cursor = set_cursor p ((start + 1) % length gs) s.cursor },
    )

unfoldable pub layers_order : List GeoTask → List ℤ → Scheduler → List GeoTask × Scheduler
unfolding layer_order
layers_order candidates [] s = ([], s)
layers_order candidates (p ∷ ps) s =
    let (first, s') = layer_order (keep (λ t. eqb_int t.priority p) candidates) p s in
    let (rest, s'') = layers_order candidates ps s' in (first ++ rest, s'')

unfoldable pub fair_order : List GeoTask → Scheduler → List GeoTask × Scheduler
unfolding enqueue_all priorities layers_order
fair_order candidates s = layers_order candidates (priorities candidates) (enqueue_all candidates s)

count_all-heads :
    {A : Type 0} (gs : List (List A)) → length (heads gs) + count_all (tails gs) ≡ count_all gs
count_all-heads [] = refl
count_all-heads ([] ∷ gs) = omega (arith, count_all-heads gs)
count_all-heads ((a ∷ g) ∷ gs) = omega (arith, count_all-heads gs)

heads-some : {A : Type 0} (gs : List (List A)) → every is_empty gs ≡ false → 1 ≤ length (heads gs)
heads-some [] e = cc
heads-some ([] ∷ gs) e = heads-some gs e
heads-some ((a ∷ g) ∷ gs) e = omega arith

-- The tasks of all groups, one group after the other.
abbrev pub gathered : {A : Type 0} → List (List A) → List A
gathered [] = []
gathered (g ∷ gs) = g ++ gathered gs

gathered-empty : {A : Type 0} (gs : List (List A)) → every is_empty gs ≡ true → gathered gs ≡ []
gathered-empty [] e = refl
gathered-empty ([] ∷ gs) e = gathered-empty gs e
gathered-empty ((a ∷ g) ∷ gs) e = cc

pub swap_front : {A : Type 0} (hs g rest : List A) → Perm (hs ++ (g ++ rest)) (g ++ (hs ++ rest))
swap_front [] g rest = Perm.rfl
swap_front (h ∷ hs) g rest =
    Perm.trans (Perm.cons h (swap_front hs g rest)) (Perm.symm (perm_middle g (hs ++ rest)))

count_none : {A : Type 0} (gs : List (List A)) → count_all gs ≡ 0 → gathered gs ≡ []
count_none [] e = refl
count_none ([] ∷ gs) e = count_none gs (omega (arith, e))
count_none ((a ∷ g) ∷ gs) e = absurd (omega (arith, e))

-- A round takes nothing twice and leaves the rest.
heads-tails :
    {A : Type 0} (gs : List (List A)) → Perm (heads gs ++ gathered (tails gs)) (gathered gs)
heads-tails [] = Perm.rfl
heads-tails ([] ∷ gs) = heads-tails gs
heads-tails ((a ∷ g) ∷ gs) = Perm.cons a (
    Perm.trans (swap_front (heads gs) g (gathered (tails gs)))
      (Perm.append_left g (heads-tails gs)))

-- With as many rounds as there are tasks, nothing is left over.
pub round_robin-Perm :
    {A : Type 0} (fuel : ℕ) (gs : List (List A))
    → count_all gs ≤ fuel
    → Perm (round_robin fuel gs) (gathered gs)
unfolding round_robin
round_robin-Perm zero gs enough =
    subst (Perm []) (sym (count_none gs (omega (arith, enough)))) Perm.nil
round_robin-Perm (suc fuel) gs enough = elim (Bool-cases (every is_empty gs)) [
  | inl done ↦ rw done (subst (Perm []) (sym (gathered-empty gs done)) Perm.nil)
  | inr more ↦ rw more (
      Perm.trans
        (Perm.append_left (heads gs) (
          round_robin-Perm fuel (tails gs) (omega (arith, heads-some gs more, count_all-heads gs))))
        (heads-tails gs))
]
