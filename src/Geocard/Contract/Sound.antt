-- ===== src/Geocard/Contract/Sound.antt =====
-- geocard/validator.py: what a card that satisfies a request has.
use geo_nexus_sdk.Base.{
  ℕ, ℤ, ◌+◌, ◌≤◌, String, Bool, true, false, not, ◌&&◌, ◌||◌, Option, none, some, List, [], ◌∷◌,
  ◌++◌, ◌≡◌, refl, sym, subst, List-cases, ◌∙◌, some_of, arith, inl, inr, All, codes, has_text,
  starts_with, is_some, given, or_text,
}
use geo_nexus_sdk.Geocard.Model.{GeoCard, TemporalSection, band_names}
use geo_nexus_sdk.Geocard.Contract.{
  ContractRequest, ContractReason, crs_incompatible, spatial_mismatch, temporal_mismatch,
  band_mismatch, resolution_mismatch, Box, box_of, bbox_overlap, card_crs, card_bbox,
  card_resolution, missing_bands, check_bands, check_resolution, parse_datetime, bound_of,
  latest_time, compare_times, check_coverage, check_temporal, crs_equivalent, check_crs,
  compared_box, check_bbox, reason_text, names_problem,
}
use geo_nexus_sdk.Geocard.Contract.Bands.{Provides, missing_bands-none}
use geo_nexus_sdk.Geocard.Contract.Boxes.{Ordered, Common, bbox_overlap-Common}
use geo_nexus_sdk.Geocard.Contract.Check.{Outside, notes, is_problem, check}

some_of-append :
    {A : Type 0} (p : A → Bool) (xs ys : List A)
    → some_of p (xs ++ ys) ≡ (some_of p xs || some_of p ys)
some_of-append p [] ys = refl
some_of-append p (x ∷ xs) ys = ground (arith, some_of-append p xs ys)

true-ne-false : ◌≡◌ {A = Bool} true false → ⊥
true-ne-false h = cc

not-true : {b : Bool} → not b ≡ true → b ≡ false
not-true h = ground arith

or_true : (b : Bool) → (b || true) ≡ true
or_true true = refl
or_true false = refl

module _ (o : Outside) where
  -- The texts of the five refusals hold one of the words that the verdict looks for.
  crs-problem : (own crs : String) → is_problem o (crs_incompatible own crs) ≡ true
  unfolding is_problem names_problem reason_text has_text starts_with
  crs-problem own crs = or_true (
      has_text (codes "mismatch")
        (reason_text o.show_names o.show_number (crs_incompatible own crs)))

  spatial-problem : is_problem o spatial_mismatch ≡ true
  unfolding is_problem names_problem reason_text has_text starts_with
  spatial-problem = refl

  temporal-problem : is_problem o temporal_mismatch ≡ true
  unfolding is_problem names_problem reason_text has_text starts_with
  temporal-problem = refl

  bands-problem : (names : List String) → is_problem o (band_mismatch names) ≡ true
  unfolding is_problem names_problem reason_text has_text starts_with
  bands-problem names = refl

  resolution-problem : (res required : ℕ) → is_problem o (resolution_mismatch res required) ≡ true
  unfolding is_problem names_problem reason_text has_text starts_with
  resolution-problem res required = refl

  abbrev same_crs : String → String → Bool
  same_crs = crs_equivalent o.pyproj_equals o.transform

  abbrev time_of : String → Option ℕ
  time_of = parse_datetime o.iso_datetime o.iso_date

  quiet_crs :
      (q : Option String) (card : GeoCard) (crs own : String)
      → some_of (is_problem o) (check_crs o.pyproj_equals o.transform q card).0 ≡ false
      → q ≡ some crs
      → card_crs card ≡ some own
      → same_crs own crs ≡ true
  unfolding check_crs
  quiet_crs none card crs own quiet asked there = cc
  quiet_crs (some c) card crs own quiet asked there = ground (arith, crs-problem own c)

  quiet_resolution :
      (q : Option ℕ) (card : GeoCard) (required res : ℕ)
      → some_of (is_problem o) (check_resolution q card).0 ≡ false
      → q ≡ some required
      → card_resolution card ≡ some res
      → res ≤ required + 1
  unfolding check_resolution
  quiet_resolution none card required res quiet asked there = cc
  quiet_resolution (some r) card required res quiet asked there =
      ground (arith, resolution-problem res r)

  quiet_bbox :
      (q : Option (List ℤ)) (crs : Option String) (card : GeoCard) (asked own : List ℤ) (a b : Box)
      → some_of (is_problem o) (check_bbox o.pyproj_equals o.transform q crs card).0 ≡ false
      → q ≡ some asked
      → card_bbox card ≡ some own
      → box_of asked ≡ some b
      → box_of own ≡ some a
      → bbox_overlap (compared_box o.pyproj_equals o.transform (card_crs card) crs a).0 b ≡ true
  unfolding check_bbox
  quiet_bbox none crs card asked own a b quiet q there one two = cc
  quiet_bbox (some l) crs card asked own a b quiet q there one two = ground (arith, spatial-problem)

  quiet_temporal :
      (start end : Option String) (card : GeoCard) (coverage : TemporalSection)
      (from to card_start card_end : ℕ)
      → some_of (is_problem o) (check_temporal o.iso_datetime o.iso_date start end card).0 ≡ false
      → (is_some start || is_some end) ≡ true
      → card.temporal ≡ some coverage
      → (given coverage.start && given coverage.end) ≡ true
      → bound_of o.iso_datetime o.iso_date 0 start ≡ some from
      → bound_of o.iso_datetime o.iso_date latest_time end ≡ some to
      → time_of (or_text coverage.start "") ≡ some card_start
      → time_of (or_text coverage.end "") ≡ some card_end
      → (card_start ≤ to) × (from ≤ card_end)
  unfolding check_temporal check_coverage compare_times
  quiet_temporal start end card coverage from to card_start card_end quiet asked there full f t s
        e =
      ground (
        arith,
        temporal-problem,
        let quiet' : some_of (is_problem o)
                  (compare_times o.iso_datetime o.iso_date coverage start end (some from) (some to)
                    (some card_start) (some card_end)).0
                ≡ false =
              rw (asked, there, full, f, t, s, e, check_temporal, check_coverage) at quiet in
            quiet',
      )

  quiet_bands :
      (q : Option (List String)) (card : GeoCard) (required : List String) (n : String)
      (ns : List String)
      → some_of (is_problem o) (check_bands q card).0 ≡ false
      → q ≡ some required
      → band_names card ≡ n ∷ ns
      → All (Provides (n ∷ ns)) required
  unfolding check_bands
  quiet_bands none card required n ns quiet asked there = cc
  quiet_bands (some []) card required n ns quiet asked there =
      let same : [] ≡ required = ground arith in subst (All (Provides (n ∷ ns))) same tt
  quiet_bands (some (b ∷ bs)) card required n ns quiet asked there =
      let same : b ∷ bs ≡ required = ground arith in
      elim (List-cases (missing_bands (n ∷ ns) (b ∷ bs))) [
        | inl nothing ↦
            subst (All (Provides (n ∷ ns))) same (missing_bands-none (n ∷ ns) (b ∷ bs) nothing)
        | inr (m, ms, split) ↦
            let quiet' = rw (there, split, check_bands, bands-problem (m ∷ ms)) at quiet in
            absurd (true-ne-false quiet')
      ]

  -- What a request may ask of a card, where both say what is compared. Boxes are in the system of the
  -- request, if the card's could be brought there.
  pub record Meets (card : GeoCard) (q : ContractRequest) : Type 0 where
    pub crs :
        (own asked : String)
        → card_crs card ≡ some own
        → q.crs ≡ some asked
        → same_crs own asked ≡ true
    pub bbox :
        (own asked : List ℤ) (a b : Box)
        → card_bbox card ≡ some own
        → q.bbox ≡ some asked
        → box_of own ≡ some a
        → box_of asked ≡ some b
        → Ordered (compared_box o.pyproj_equals o.transform (card_crs card) q.crs a).0
        → Ordered b
        → Common (compared_box o.pyproj_equals o.transform (card_crs card) q.crs a).0 b
    pub temporal :
        (coverage : TemporalSection) (from to card_start card_end : ℕ)
        → card.temporal ≡ some coverage
        → (given coverage.start && given coverage.end) ≡ true
        → (is_some q.start || is_some q.end) ≡ true
        → bound_of o.iso_datetime o.iso_date 0 q.start ≡ some from
        → bound_of o.iso_datetime o.iso_date latest_time q.end ≡ some to
        → time_of (or_text coverage.start "") ≡ some card_start
        → time_of (or_text coverage.end "") ≡ some card_end
        → (card_start ≤ to) × (from ≤ card_end)
    pub bands :
        (n : String) (ns required : List String)
        → band_names card ≡ n ∷ ns
        → q.required_bands ≡ some required
        → All (Provides (n ∷ ns)) required
    pub resolution :
        (res required : ℕ)
        → card_resolution card ≡ some res
        → q.required_resolution ≡ some required
        → res ≤ required + 1

  or-false : (a b : Bool) → (a || b) ≡ false → (a ≡ false) × (b ≡ false)
  or-false true b h = cc
  or-false false b h = (refl, h)

  append-quiet :
      (xs ys : List ContractReason)
      → some_of (is_problem o) (xs ++ ys) ≡ false
      → (some_of (is_problem o) xs ≡ false) × (some_of (is_problem o) ys ≡ false)
  append-quiet xs ys h =
      or-false (some_of (is_problem o) xs) (some_of (is_problem o) ys)
        (sym (some_of-append (is_problem o) xs ys) ∙ h)

  -- A card that satisfies a request meets it in all that both declare: the reference systems are
  -- equivalent; two boxes of four values or more have a point in common, once the box of the card
  -- is brought into the system of the request where that is possible, if their edges are in order;
  -- a coverage whose times parse overlaps the window; each required band is there, up to case; and
  -- the resolution is as fine as required, up to the tolerance.
  pub check-Meets :
      (card : GeoCard) (q : ContractRequest) → (check o card q).satisfied ≡ true → Meets card q
  unfolding check notes
  check-Meets card q h =
      let all = append-quiet _ _ (not-true h) in
      let later = append-quiet _ _ all.1 in
      let last = append-quiet _ _ later.1 in
      let end = append-quiet _ _ last.1 in
      record {
        crs = λ own asked there wanted. quiet_crs q.crs card asked own all.0 wanted there;
        bbox = λ own asked a b there wanted one two oa ob.
            bbox_overlap-Common _ b oa ob
              (quiet_bbox q.bbox q.crs card asked own a b later.0 wanted there two one);
        temporal = λ coverage from to card_start card_end there full wanted f t s e.
            quiet_temporal q.start q.end card coverage from to card_start card_end last.0 wanted
              there full f t s e;
        bands = λ n ns required there wanted.
            quiet_bands q.required_bands card required n ns end.0 wanted there;
        resolution = λ res required there wanted.
            quiet_resolution q.required_resolution card required res end.1 wanted there;
      }
