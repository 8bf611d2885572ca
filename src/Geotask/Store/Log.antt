-- ===== src/Geotask/Store/Log.antt =====
-- geotask/store.py, the event log of one task: numbers without gaps, and what a reader gets.
use geo_nexus_sdk.Base.{
  ℕ, suc, zero, ◌+◌, ◌-◌, ◌≤◌, ◌<◌, ◌≡◌, refl, true, false, inl, inr, List, [], ◌∷◌, ◌++◌, String,
  ap, get_or, length, drop, keep, ltb, ltb→lt, not_ltb→le, lt→ltb, subst, min, if◌then◌else◌, arith,
  length-append, length-drop, return, raise, Bool-cases,
}
use native.Mathlib.Nat.{add-zero}
use geo_nexus_sdk.Geotask.Events.{Event}
use geo_nexus_sdk.Geotask.Machine.{event_history_gone}
use geo_nexus_sdk.Geotask.Store.{TaskStore, retain, events_since, oldest, cut_off}

-- The events behind number `n`, one by one, the last of them numbered `m`.
abbrev pub Consecutive : ℕ → List Event → ℕ → Type 0
Consecutive n [] m = n ≡ m
Consecutive n (e ∷ es) m = (e.seq ≡ n + 1) × Consecutive (n + 1) es m

pub Consecutive-append :
    (n m : ℕ) (es : List Event) (e : Event)
    → Consecutive n es m
    → e.seq ≡ m + 1
    → Consecutive n (es ++ e ∷ []) (m + 1)
Consecutive-append n m [] e h k = (omega arith, omega arith)
Consecutive-append n m (x ∷ es) e h k = (h.0, Consecutive-append (n + 1) m es e h.1 k)

pub Consecutive-length : (n m : ℕ) (es : List Event) → Consecutive n es m → n + length es ≡ m
Consecutive-length n m [] h = omega arith
Consecutive-length n m (x ∷ es) h = omega (arith, Consecutive-length (n + 1) m es h.1)

pub Consecutive-drop :
    (k n m : ℕ) (es : List Event)
    → k ≤ length es
    → Consecutive n es m
    → Consecutive (n + k) (drop k es) m
Consecutive-drop zero n m es b h = rw add-zero h
Consecutive-drop (suc k) n m [] b h = absurd (omega arith)
Consecutive-drop (suc k) n m (x ∷ es) b h =
    subst (λ j. Consecutive j (drop k es) m) (omega arith)
      (Consecutive-drop k (n + 1) m es (omega arith) h.1)

keep_all :
    (n since m : ℕ) (es : List Event)
    → since ≤ n
    → Consecutive n es m
    → Consecutive n (keep (λ e. ltb since e.seq) es) m
keep_all n since m [] lo h = h
keep_all n since m (x ∷ es) lo h =
    rw (lt→ltb since x.seq (omega arith)) (h.0, keep_all (n + 1) since m es (omega arith) h.1)

-- All that lies behind `since` is kept, and nothing else.
keep-Consecutive :
    (n since m : ℕ) (es : List Event)
    → n ≤ since
    → since ≤ m
    → Consecutive n es m
    → Consecutive since (keep (λ e. ltb since e.seq) es) m
keep-Consecutive n since m [] lo hi h = omega arith
keep-Consecutive n since m (x ∷ es) lo hi h = elim (Bool-cases (ltb since x.seq)) [
  | inl behind ↦
      let at : n ≡ since = omega (arith, ltb→lt since x.seq) in
      subst (λ j. Consecutive j (keep (λ e. ltb since e.seq) (x ∷ es)) m) at
        (keep_all n since m (x ∷ es) (omega arith) h)
  | inr before ↦
      rw before (keep-Consecutive (n + 1) since m es (omega (arith, not_ltb→le since x.seq)) hi h.1)
]

-- The log of a task after `latest` events: the last of them, as many as the limit allows.
pub record IsLog (limit latest : ℕ) (history : List Event) : Type 0 where
  pub kept : length history ≡ min limit latest
  pub gapless : Consecutive (latest - length history) history latest

-- Wherever the numbers start, the length fixes it.
Consecutive-IsLog :
    (limit latest n : ℕ) (history : List Event)
    → Consecutive n history latest
    → length history ≡ min limit latest
    → IsLog limit latest history
Consecutive-IsLog limit latest n history h count = record {
  kept = count;
  gapless =
      subst (λ j. Consecutive j history latest)
        (omega (arith, Consecutive-length n latest history h)) h;
}

shorten-IsLog :
    (limit latest n : ℕ) (longer : List Event)
    → Consecutive n longer (latest + 1)
    → length longer ≡ min limit latest + 1
    → IsLog limit
        (latest + 1)
        (if ltb limit (length longer) then drop (length longer - limit) longer else longer)
shorten-IsLog limit latest n longer h count = elim (Bool-cases (ltb limit (length longer))) [
  | inl over ↦ rw over (
      Consecutive-IsLog limit (latest + 1) _ (drop (length longer - limit) longer)
        (Consecutive-drop (length longer - limit) n (latest + 1) longer (omega arith) h)
        (omega (
          arith,
          length-drop (length longer - limit) longer,
          Consecutive-length n (latest + 1) longer h,
          ltb→lt limit (length longer),
        )))
  | inr under ↦ rw under (
      Consecutive-IsLog limit (latest + 1) n longer h (
        omega
          (arith, Consecutive-length n (latest + 1) longer h, not_ltb→le limit (length longer))))
]

-- Appending the event with the next number to a log keeps it without a gap, and as long as the
-- limit allows.
pub retain-IsLog :
    (limit latest : ℕ) (history : List Event) (e : Event)
    → IsLog limit latest history
    → e.seq ≡ latest + 1
    → IsLog limit (latest + 1) (retain limit history e)
unfolding retain
retain-IsLog limit latest history e log numbered =
    shorten-IsLog limit latest (latest - length history) (history ++ e ∷ [])
      (Consecutive-append _ latest history e log.gapless numbered)
      (omega (arith, length-append history (e ∷ []), log.kept))

-- What `events_since` finds under `task_id`.
abbrev pub history_of : TaskStore → String → List Event
history_of s task_id = get_or task_id [] s.events

abbrev pub latest_of : TaskStore → String → ℕ
latest_of s task_id = get_or task_id 0 s.seqs

cut_off-true :
    (n since m : ℕ) (es : List Event)
    → Consecutive n es m
    → 0 < length es
    → 0 < since
    → since < n
    → (cut_off es since ≡ true) × (oldest es ≡ n + 1)
unfolding cut_off
cut_off-true n since m [] h some_kept pos cut = absurd (omega arith)
cut_off-true n since m (x ∷ es) h some_kept pos cut = ground arith

cut_off-false :
    (n since m : ℕ) (es : List Event) → Consecutive n es m → n ≤ since → cut_off es since ≡ false
unfolding cut_off
cut_off-false n since m [] h le = refl
cut_off-false n since m (x ∷ es) h le = ground arith

cut_off_zero : (es : List Event) → cut_off es 0 ≡ false
unfolding cut_off
cut_off_zero [] = refl
cut_off_zero (x ∷ es) = ground arith

module _ (s : TaskStore) (task_id : String) (since : ℕ)
    (log : IsLog s.event_retention (latest_of s task_id) (history_of s task_id)) where
  -- If the log of a task is in order, a reader that is not ahead of it and whose next event is
  -- still kept gets every event behind `since`, in order and without a gap, and the latest number.
  pub events_since-gapless :
      since ≤ latest_of s task_id
      → latest_of s task_id - s.event_retention ≤ since
      → (es : List Event) × (events_since task_id since s ≡ (return (es, latest_of s task_id), s))
        × Consecutive since es (latest_of s task_id)
  unfolding events_since
  events_since-gapless read enough = (
    keep (λ e. ltb since e.seq) (history_of s task_id),
    rw (cut_off-false _ since _ (history_of s task_id) log.gapless (omega (arith, log.kept))),
    keep-Consecutive _ since _ (history_of s task_id) (omega (arith, log.kept)) read log.gapless,
  )

  -- If the log of a task is in order and keeps some events, a reader from a positive number whose
  -- next event was cut off is told so, with the oldest number that is left.
  pub events_since-gone :
      0 < since
      → 0 < s.event_retention
      → since < latest_of s task_id - s.event_retention
      → events_since task_id since s ≡ (
        raise (event_history_gone task_id since (latest_of s task_id - s.event_retention + 1)),
        s,
      )
  unfolding events_since
  events_since-gone pos some_kept cut =
      let (told, first) =
        cut_off-true _ since _ (history_of s task_id) log.gapless (omega (arith, log.kept)) pos
          (omega (arith, log.kept)) in
      rw (told, first)
        (ap (λ n. (raise (event_history_gone task_id since n), s)) (omega (arith, log.kept)))

-- If the log of a task is in order, keeps some events and has lost others, a reader from 0 gets
-- the events that are left, from wherever they begin, and no error.
pub events_since_zero :
    (s : TaskStore) (task_id : String)
    → IsLog s.event_retention (latest_of s task_id) (history_of s task_id)
    → 0 < s.event_retention
    → s.event_retention < latest_of s task_id
    → (es : List Event) × (events_since task_id 0 s ≡ (return (es, latest_of s task_id), s))
      × Consecutive (latest_of s task_id - s.event_retention) es (latest_of s task_id)
unfolding events_since
events_since_zero s task_id log some_kept cut = (
  keep (λ e. ltb 0 e.seq) (history_of s task_id),
  rw (cut_off_zero (history_of s task_id)),
  subst (λ n. Consecutive n (keep (λ e. ltb 0 e.seq) (history_of s task_id)) (latest_of s task_id))
      (omega (arith, log.kept)) (keep_all _ 0 _ (history_of s task_id) (omega arith) log.gapless),
)
