-- ===== src/Geotask/Scheduler/Turns.antt =====
-- geotask/scheduler.py, `_fair_order`: what the order holds.
use mathlib.Core.List.Perm
use mathlib.Core.List.{Perm, perm_middle, append-nil}
use geo_nexus_sdk.Base.{
  ℕ, suc, zero, ◌%◌, ◌≡◌, refl, sym, ap, subst, true, false, String, Bool, Bool-cases, List, [],
  ◌∷◌, ◌++◌, Dict, map, length, take, drop, keep, contains, leb, ℤ, leb_int, eqb_int, ◌==◌, eq_iff,
  arith, inl, inr, ◌⊎◌, All, All-In, In, ◌≤◌,
}
use geo_nexus_sdk.Geotask.Model.{GeoTask}
use geo_nexus_sdk.Geotask.Scheduler.{Scheduler, owner_of}
use geo_nexus_sdk.Geotask.Scheduler.Order.{
  enqueue_all, insert_priority, priorities, owners, seq_of, insert_by, sort_by, first_seq, groups,
  count_all, cursor_of, layer_order, layers_order, fair_order, gathered, swap_front,
  round_robin-Perm,
}

-- The parts of a list that a list of keys makes.
module _ {K A : Type 0} (is : K → A → Bool) where
  abbrev pub cells : List K → List A → List (List A)
  cells ks xs = map (λ k. keep (is k) xs) ks

  abbrev pub Never : A → List K → Type 0
  Never x = All (λ k. is k x ≡ false)

  -- Of the keys one counts for `x`.
  abbrev pub Once : A → List K → Type 0
  Once x [] = ⊥
  Once x (k ∷ ks) = ((is k x ≡ true) × Never x ks) ⊎ ((is k x ≡ false) × Once x ks)

  cells-Never : (x : A) (xs : List A) (ks : List K) → Never x ks → cells ks (x ∷ xs) ≡ cells ks xs
  cells-Never x xs [] h = refl
  cells-Never x xs (k ∷ ks) h = rw (h.0, cells-Never x xs ks h.1) refl

  cells-Once :
      (x : A) (xs : List A) (ks : List K)
      → Once x ks
      → Perm (gathered (cells ks (x ∷ xs))) (x ∷ gathered (cells ks xs))
  cells-Once x xs [] h = absurd h
  cells-Once x xs (k ∷ ks) (inl h) = rw (h.0, cells-Never x xs ks h.1) Perm.rfl
  cells-Once x xs (k ∷ ks) (inr h) = rw h.0 (
      Perm.trans (Perm.append_left (keep (is k) xs) (cells-Once x xs ks h.1))
        (perm_middle (keep (is k) xs) (gathered (cells ks xs))))

  cells-none : (ks : List K) → gathered (cells ks []) ≡ []
  cells-none [] = refl
  cells-none (k ∷ ks) = cells-none ks

  -- If for each member one key counts, the parts hold each member once.
  pub cells-Perm :
      (xs : List A) (ks : List K) → All (λ x. Once x ks) xs → Perm (gathered (cells ks xs)) xs
  cells-Perm [] ks h = subst (λ l. Perm l []) (sym (cells-none ks)) Perm.nil
  cells-Perm (x ∷ xs) ks h =
      Perm.trans (cells-Once x xs ks h.0) (Perm.cons x (cells-Perm xs ks h.1))

-- Sorting.
module _ {A : Type 0} (f : A → ℕ) where
  insert_by-Perm : (a : A) (bs : List A) → Perm (insert_by f a bs) (a ∷ bs)
  unfolding insert_by
  insert_by-Perm a [] = Perm.rfl
  insert_by-Perm a (b ∷ bs) = elim (Bool-cases (leb (f a) (f b))) [
    | inl first ↦ rw first Perm.rfl
    | inr later ↦ rw later (Perm.trans (Perm.cons b (insert_by-Perm a bs)) (Perm.swap a b bs))
  ]

  sort_by-Perm : (as_ : List A) → Perm (sort_by f as_) as_
  unfolding sort_by
  sort_by-Perm [] = Perm.nil
  sort_by-Perm (a ∷ as_) =
      Perm.trans (insert_by-Perm a (sort_by f as_)) (Perm.cons a (sort_by-Perm as_))

module _ {A : Type 0} (f : List A → ℕ) where
  gathered-insert_by :
      (g : List A) (gs : List (List A)) → Perm (gathered (insert_by f g gs)) (g ++ gathered gs)
  unfolding insert_by
  gathered-insert_by g [] = Perm.rfl
  gathered-insert_by g (h ∷ gs) = elim (Bool-cases (leb (f g) (f h))) [
    | inl first ↦ rw first Perm.rfl
    | inr later ↦
        rw later
          (Perm.trans (Perm.append_left h (gathered-insert_by g gs)) (swap_front h g (gathered gs)))
  ]

  gathered-sort_by : (gs : List (List A)) → Perm (gathered (sort_by f gs)) (gathered gs)
  unfolding sort_by
  gathered-sort_by [] = Perm.nil
  gathered-sort_by (g ∷ gs) =
      Perm.trans (gathered-insert_by g (sort_by f gs)) (Perm.append_left g (gathered-sort_by gs))

gathered-map :
    {K A : Type 0} (f : A → ℕ) (part : K → List A) (ks : List K)
    → Perm (gathered (map (λ k. sort_by f (part k)) ks)) (gathered (map part ks))
gathered-map f part [] = Perm.nil
gathered-map f part (k ∷ ks) = Perm.append (sort_by-Perm f (part k)) (gathered-map f part ks)

-- A step round the groups.
gathered-put :
    {A : Type 0} (g : List A) (gs hs : List (List A))
    → Perm (gathered (hs ++ g ∷ gs)) (g ++ gathered (hs ++ gs))
gathered-put g gs [] = Perm.rfl
gathered-put g gs (h ∷ hs) =
    Perm.trans (Perm.append_left h (gathered-put g gs hs)) (swap_front h g (gathered (hs ++ gs)))

gathered-swap :
    {A : Type 0} (gs hs : List (List A)) → Perm (gathered (hs ++ gs)) (gathered (gs ++ hs))
gathered-swap [] hs = subst (λ l. Perm (gathered l) (gathered hs)) (sym (append-nil hs)) Perm.rfl
gathered-swap (g ∷ gs) hs =
    Perm.trans (gathered-put g gs hs) (Perm.append_left g (gathered-swap gs hs))

take-drop : {A : Type 0} (n : ℕ) (xs : List A) → take n xs ++ drop n xs ≡ xs
take-drop zero xs = refl
take-drop (suc n) [] = refl
take-drop (suc n) (x ∷ xs) = ap (λ l. x ∷ l) (take-drop n xs)

-- The owners of a layer.
abbrev owned : String → GeoTask → Bool
owned o t = owner_of t == o

eq_swap : (a b : String) (v : Bool) → (a == b) ≡ v → (b == a) ≡ v
eq_swap a b true h = (eq_iff b a).1 (sym ((eq_iff a b).0 h))
eq_swap a b false h = elim (Bool-cases (b == a)) [
  | inl same ↦ absurd (ground (arith, h, (eq_iff a b).1 (sym ((eq_iff b a).0 same))))
  | inr other ↦ other
]

le_refl : (n : ℕ) → n ≤ n
le_refl n = omega arith

owners-Never :
    (t : GeoTask) (seen : List String) (ts : List GeoTask)
    → contains (owner_of t) seen ≡ true
    → Never owned t (owners seen ts)
unfolding owners
owners-Never t seen [] h = tt
owners-Never t seen (u ∷ ts) h = elim (Bool-cases (contains (owner_of u) seen)) [
  | inl known ↦ rw known (owners-Never t seen ts h)
  | inr new ↦ elim (Bool-cases (owner_of t == owner_of u)) [
    | inl same ↦ absurd (cc (new, h, (eq_iff (owner_of t) (owner_of u)).0 same))
    | inr other ↦ rw new (other, owners-Never t (owner_of u ∷ seen) ts (ground (arith, h)))
  ]
]

owners-Once :
    (t : GeoTask) (seen : List String) (ts : List GeoTask)
    → contains (owner_of t) seen ≡ false
    → In t ts
    → Once owned t (owners seen ts)
unfolding owners
owners-Once t seen [] h m = absurd m
owners-Once t seen (u ∷ ts) h m = elim (Bool-cases (contains (owner_of u) seen)) [
  | inl known ↦ rw known (elim m [
    | inl same ↦ absurd (cc (known, h, ap owner_of same))
    | inr later ↦ owners-Once t seen ts h later
  ])
  | inr new ↦ elim (Bool-cases (owner_of t == owner_of u)) [
    | inl same ↦ rw new (
        inl (
          same,
          owners-Never t (owner_of u ∷ seen) ts
              (ground (arith, eq_swap (owner_of t) (owner_of u) true same)),
        ))
    | inr other ↦ rw new (
        inr (
          other,
          (elim m [
            | inl first ↦ absurd (
                ground
                  (arith, other, (eq_iff (owner_of t) (owner_of u)).1 (sym (ap owner_of first))))
            | inr later ↦
                owners-Once t (owner_of u ∷ seen) ts
                  (ground (arith, eq_swap (owner_of t) (owner_of u) false other, h)) later
          ]),
        ))
  ]
]

groups-Perm : (seqs : Dict ℕ) (layer : List GeoTask) → Perm (gathered (groups seqs layer)) layer
unfolding groups
groups-Perm seqs layer =
    Perm.trans
      (gathered-sort_by (first_seq seqs)
        (map (λ o. sort_by (seq_of seqs) (keep (owned o) layer)) (owners [] layer)))
      (Perm.trans (gathered-map (seq_of seqs) (λ o. keep (owned o) layer) (owners [] layer)) (
        cells-Perm owned layer (owners [] layer) (
          All-In (λ t. Once owned t (owners [] layer)) layer
            (λ t m. owners-Once t [] layer refl m))))

layer_order-Perm :
    (layer : List GeoTask) (p : ℤ) (s : Scheduler) → Perm (layer_order layer p s).0 layer
unfolding layer_order
layer_order-Perm layer p s =
    let gs = groups s.seqs layer in
    let start = cursor_of p s.cursor % length gs in
    Perm.trans
      (round_robin-Perm (count_all (drop start gs ++ take start gs))
        (drop start gs ++ take start gs) (le_refl _))
      (Perm.trans (gathered-swap (take start gs) (drop start gs)) (
        subst (λ l. Perm (gathered l) layer) (sym (take-drop start gs)) (groups-Perm s.seqs layer)))

-- The priorities, each once, from the highest.
abbrev placed : ℤ → GeoTask → Bool
placed p t = eqb_int t.priority p

abbrev IsAbove : ℤ → List ℤ → Type 0
IsAbove p = All (λ q. (leb_int q p ≡ true) × (eqb_int p q ≡ false))

abbrev IsFalling : List ℤ → Type 0
IsFalling [] = Unit
IsFalling (p ∷ ps) = IsAbove p ps × IsFalling ps

IsAbove-insert :
    (r p : ℤ) (ps : List ℤ)
    → leb_int p r ≡ true
    → eqb_int r p ≡ false
    → IsAbove r ps
    → IsAbove r (insert_priority p ps)
unfolding insert_priority
IsAbove-insert r p [] le ne h = ((le, ne), tt)
IsAbove-insert r p (q ∷ ps) le ne h = elim (Bool-cases (eqb_int p q)) [
  | inl same ↦ rw same h
  | inr other ↦ elim (Bool-cases (leb_int q p)) [
    | inl above ↦ rw (other, above) ((le, ne), h)
    | inr below ↦ rw (other, below) (h.0, IsAbove-insert r p ps le ne h.1)
  ]
]

IsAbove-trans :
    (p q : ℤ) (ps : List ℤ) → leb_int q p ≡ true → eqb_int p q ≡ false → IsAbove q ps → IsAbove p ps
IsAbove-trans p q [] le ne h = tt
IsAbove-trans p q (r ∷ ps) le ne h = (
  (ground (arith, le, ne, h.0.0, h.0.1), ground (arith, le, ne, h.0.0, h.0.1)),
  IsAbove-trans p q ps le ne h.1,
)

insert_priority-IsFalling : (p : ℤ) (ps : List ℤ) → IsFalling ps → IsFalling (insert_priority p ps)
unfolding insert_priority
insert_priority-IsFalling p [] h = (tt, tt)
insert_priority-IsFalling p (q ∷ ps) h = elim (Bool-cases (eqb_int p q)) [
  | inl same ↦ rw same h
  | inr other ↦ elim (Bool-cases (leb_int q p)) [
    | inl above ↦ rw (other, above) (((above, other), IsAbove-trans p q ps above other h.0), h)
    | inr below ↦
        rw (other, below)
          (
            IsAbove-insert q p ps (ground (arith, below)) (ground (arith, other)) h.0,
            insert_priority-IsFalling p ps h.1,
          )
  ]
]

IsAbove-Never :
    (t : GeoTask) (p : ℤ) (ps : List ℤ) → placed p t ≡ true → IsAbove p ps → Never placed t ps
IsAbove-Never t p [] same h = tt
IsAbove-Never t p (q ∷ ps) same h = (ground (arith, same, h.0.1), IsAbove-Never t p ps same h.1)

abbrev Has : GeoTask → List ℤ → Type 0
Has t [] = ⊥
Has t (p ∷ ps) = (placed p t ≡ true) ⊎ Has t ps

Has-new : (t : GeoTask) (ps : List ℤ) → Has t (insert_priority t.priority ps)
unfolding insert_priority
Has-new t [] = inl (ground arith)
Has-new t (q ∷ ps) = elim (Bool-cases (eqb_int t.priority q)) [
  | inl same ↦ rw same (inl same)
  | inr other ↦ elim (Bool-cases (leb_int q t.priority)) [
    | inl above ↦ rw (other, above) (inl (ground arith))
    | inr below ↦ rw (other, below) (inr (Has-new t ps))
  ]
]

Has-old : (t : GeoTask) (p : ℤ) (ps : List ℤ) → Has t ps → Has t (insert_priority p ps)
unfolding insert_priority
Has-old t p [] h = absurd h
Has-old t p (q ∷ ps) h = elim (Bool-cases (eqb_int p q)) [
  | inl same ↦ rw same h
  | inr other ↦ elim (Bool-cases (leb_int q p)) [
    | inl above ↦ rw (other, above) (inr h)
    | inr below ↦
        rw (other, below) (elim h [ inl here ↦ inl here | inr later ↦ inr (Has-old t p ps later) ])
  ]
]

Has-Once : (t : GeoTask) (ps : List ℤ) → IsFalling ps → Has t ps → Once placed t ps
Has-Once t [] falling h = h
Has-Once t (p ∷ ps) falling h = elim (Bool-cases (placed p t)) [
  | inl same ↦ inl (same, IsAbove-Never t p ps same falling.0)
  | inr other ↦ inr (
    other,
    Has-Once t ps falling.1
        (elim h [ inl here ↦ absurd (ground (arith, here, other)) | inr later ↦ later ]),
  )
]

priorities-IsFalling : (ts : List GeoTask) → IsFalling (priorities ts)
unfolding priorities
priorities-IsFalling [] = tt
priorities-IsFalling (t ∷ ts) =
    insert_priority-IsFalling t.priority (priorities ts) (priorities-IsFalling ts)

priorities-Has : (t : GeoTask) (ts : List GeoTask) → In t ts → Has t (priorities ts)
unfolding priorities
priorities-Has t [] m = absurd m
priorities-Has t (u ∷ ts) (inl same) =
    subst (λ x. Has x (priorities (u ∷ ts))) same (Has-new u (priorities ts))
priorities-Has t (u ∷ ts) (inr m) = Has-old t u.priority (priorities ts) (priorities-Has t ts m)

layers_order-Perm :
    (candidates : List GeoTask) (ps : List ℤ) (s : Scheduler)
    → Perm (layers_order candidates ps s).0 (gathered (cells placed ps candidates))
unfolding layers_order
layers_order-Perm candidates [] s = Perm.nil
layers_order-Perm candidates (p ∷ ps) s =
    Perm.append (layer_order-Perm (keep (placed p) candidates) p s)
      (layers_order-Perm candidates ps (layer_order (keep (placed p) candidates) p s).1)

-- The fair order holds the candidates, each as often as it is given, and no other.
pub fair_order-Perm :
    (candidates : List GeoTask) (s : Scheduler) → Perm (fair_order candidates s).0 candidates
unfolding fair_order
fair_order-Perm candidates s =
    Perm.trans (layers_order-Perm candidates (priorities candidates) (enqueue_all candidates s)) (
      cells-Perm placed candidates (priorities candidates) (
        All-In (λ t. Once placed t (priorities candidates)) candidates
          (λ t m.
            Has-Once t (priorities candidates) (priorities-IsFalling candidates)
              (priorities-Has t candidates m))))
