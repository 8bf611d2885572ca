-- ===== src/Recipe/Contracted.antt =====
-- recipe/materialize.py: the values of the parameters meet the contract that the recipe declares.
use geo_nexus_sdk.Base.{
  Real, finite, String, true, false, not, Option, some, List, [], ◌∷◌, ◌++◌, Dict, map, lookup,
  insert, contains, keys, keep, has, ◌==◌, Json, null, bool, int, float, str, arr, obj, Outcome,
  return, raise, ℤ, ◌≡◌, refl, sym, ap, subst, ◌∙◌, arith, Bool-cases, List-cases, inl, inr, get_or,
  All, All-map, Distinct, eq_iff, lookup-insert, keys-insert, contains-keys, to_float, trim,
}
use mathlib.Core.List.{append_assoc, append-nil}
use geo_nexus_sdk.Recipe.Model.{Recipe, ParamSpec, is_blank, when, blank, duplicate_param}
use geo_nexus_sdk.Recipe.Checks.{name_problems, sort_texts}
use geo_nexus_sdk.Recipe.Built.{no_more, when-false}
use geo_nexus_sdk.Recipe.Params.{
  Fault, resolve_params, resolve_all, resolve_param, given_value, within, coerce_param_value,
  integer_of, float_of, boolean_of, ref_of, whole_of, whole_of,
}
use geo_nexus_sdk.Recipe.Settled.{
  Typed, Settled, within-Bounded, read_of, boolean_of-bool, ref_of-text, wrap_of, missing-Settled,
  fixed-Settled, chained, sorted-empty, none-left, chosen,
}

module _ (read_int : String → Option ℤ) (read_float : String → Option Real) where
  integer_of-int : (w v : Json) → integer_of read_int read_float w ≡ some v → (n : ℤ) × (v ≡ int n)
  integer_of-int (int n) v h = (n, cc)
  integer_of-int (float n) v h = wrap_of int (whole_of n) v h
  integer_of-int (str s) v h = wrap_of int (read_int (trim s)) v h
  integer_of-int null v h = cc
  integer_of-int (bool b) v h = cc
  integer_of-int (arr vs) v h = cc
  integer_of-int (obj fs) v h = cc

  float_of-float :
      (w v : Json) → float_of read_int read_float w ≡ some v → (n : Real) × (v ≡ float n)
  float_of-float (int n) v h = (finite (to_float n), cc)
  float_of-float (float n) v h = (n, cc)
  float_of-float (str s) v h = wrap_of float (read_float (trim s)) v h
  float_of-float null v h = cc
  float_of-float (bool b) v h = cc
  float_of-float (arr vs) v h = cc
  float_of-float (obj fs) v h = cc

  coerce-Typed :
      (name type_name : String) (w v : Json) (enum : List Json)
      → coerce_param_value read_int read_float name type_name w enum ≡ return v
      → Typed type_name v
  unfolding coerce_param_value
  coerce-Typed name type_name w v enum h =
      let at : (t : String)
          → (type_name == t) ≡ true
          → coerce_param_value read_int read_float name t w enum ≡ return v =
        λ t e.
          subst (λ u. coerce_param_value read_int read_float name u w enum ≡ return v)
            ((eq_iff type_name t).0 e) h in
      record {
        integer = λ e.
            integer_of-int w v (read_of name (integer_of read_int read_float w) v (at "integer" e));
        number = λ e.
            float_of-float w v (read_of name (float_of read_int read_float w) v (at "number" e));
        boolean = λ e. boolean_of-bool w v (read_of name (boolean_of w) v (at "boolean" e));
        reference = λ e. ref_of-text w v (read_of name (ref_of w) v (at "ref" e));
      }

  checked-Settled :
      (spec : ParamSpec) (supplied : Dict Json) (w v : Json)
      → (spec.scope == "fixed") ≡ false
      → (elim (coerce_param_value read_int read_float spec.name spec.type_name w spec.enum)
          as (λ _. Outcome Fault Json) [ raise e ↦ raise e | return u ↦ within spec u ])
        ≡ return v
      → Settled spec supplied v
  checked-Settled spec supplied w v free h =
      let coerced = coerce_param_value read_int read_float spec.name spec.type_name w spec.enum in
      let (u, typed, inside) = chained coerced (within spec) v h in
      let (bounded, same) = within-Bounded spec u v inside in
      chosen free
        (subst (Typed spec.type_name) same
          (coerce-Typed spec.name spec.type_name w u spec.enum typed))
        bounded

  given-Settled :
      (spec : ParamSpec) (supplied : Dict Json) (w v : Json)
      → (spec.scope == "fixed") ≡ false
      → get_or spec.name null supplied ≡ w
      → given_value read_int read_float spec w ≡ return v
      → Settled spec supplied v
  unfolding given_value
  given-Settled spec supplied null v free from h = missing-Settled spec supplied v free from h
  given-Settled spec supplied (bool b) v free from h =
      checked-Settled spec supplied (bool b) v free h
  given-Settled spec supplied (int n) v free from h = checked-Settled spec supplied (int n) v free h
  given-Settled spec supplied (float n) v free from h =
      checked-Settled spec supplied (float n) v free h
  given-Settled spec supplied (str s) v free from h = checked-Settled spec supplied (str s) v free h
  given-Settled spec supplied (arr vs) v free from h =
      checked-Settled spec supplied (arr vs) v free h
  given-Settled spec supplied (obj fs) v free from h =
      checked-Settled spec supplied (obj fs) v free h

  param-Settled :
      (spec : ParamSpec) (supplied : Dict Json) (v : Json)
      → resolve_param read_int read_float spec supplied ≡ return v
      → Settled spec supplied v
  unfolding resolve_param
  param-Settled spec supplied v h = elim (Bool-cases (spec.scope == "fixed")) [
    | inl fixed ↦ fixed-Settled spec supplied v fixed (ground (arith, fixed, h))
    | inr free ↦
        given-Settled spec supplied (get_or spec.name null supplied) v free refl
          (ground (arith, free, h))
  ]

  chained_all :
      (m : Outcome Fault Json) (k : Json → Outcome Fault (Dict Json)) (out : Dict Json)
      → (elim m as (λ _. Outcome Fault (Dict Json)) [ raise e ↦ raise e | return a ↦ k a ])
        ≡ return out
      → (a : Json) × (m ≡ return a) × (k a ≡ return out)
  chained_all (return a) k out h = (a, refl, h)
  chained_all (raise e) k out h = cc

  -- What a parameter resolves to, in a dictionary of results.
  abbrev pub Resolved : Dict Json → Dict Json → ParamSpec → Type 0
  Resolved supplied out p = (v : Json) × (lookup p.name out ≡ some v) × Settled p supplied v

  All-Resolved :
      (params : List ParamSpec) (supplied done out : Dict Json)
      → resolve_all read_int read_float params supplied done ≡ return out
      → Distinct (map (λ p. p.name) params)
      → ((k : String) → contains k (map (λ p. p.name) params) ≡ true → has k done ≡ false)
      → (keys out ≡ keys done ++ map (λ p. p.name) params)
        × ((k : String)
            → contains k (map (λ p. p.name) params) ≡ false
            → lookup k out ≡ lookup k done)
        × All (Resolved supplied out) params
  unfolding resolve_all
  All-Resolved [] supplied done out h distinct fresh =
      let same : done ≡ out = cc in
      (ap keys (sym same) ∙ sym (append-nil (keys done)), λ k absent. ap (lookup k) (sym same), tt)
  All-Resolved (p ∷ params) supplied done out h (once, distinct) fresh =
      let names = map (λ (q : ParamSpec). q.name) params in
      let (v, own, rest) =
        chained_all (resolve_param read_int read_float p supplied)
          (λ w. resolve_all read_int read_float params supplied (insert p.name w done)) out h in
      let new : has p.name done ≡ false = fresh p.name (ground (arith, eq_iff p.name p.name)) in
      let (listed, kept, resolved) =
        All-Resolved params supplied (insert p.name v done) out rest distinct λ k later.
          ground (arith, lookup-insert p.name k v done, fresh k, eq_iff p.name k, once, later) in
      (
        listed
            ∙ (ap (λ ks. ks ++ names) (keys-insert p.name v done ∙ rw new refl)
                ∙ append_assoc (keys done) (p.name ∷ []) names),
        λ k absent. ground (arith, kept k, lookup-insert p.name k v done, absent),
        (
          (
            v,
            ground
                (arith, kept p.name once, lookup-insert p.name p.name v done, eq_iff p.name p.name),
            param-Settled p supplied v own,
          ),
          resolved,
        ),
      )

  names-Distinct :
      (seen : List String) (params : List ParamSpec)
      → name_problems seen params ≡ []
      → Distinct (map (λ p. p.name) params)
        × ((k : String) → contains k (map (λ p. p.name) params) ≡ true → contains k seen ≡ false)
  unfolding name_problems
  names-Distinct seen [] fine = (tt, λ k m. cc)
  names-Distinct seen (p ∷ params) fine =
      let (_, more) = no_more (when (is_blank p.name) blank) _ fine in
      let (new, rest) = no_more (when (contains p.name seen) (duplicate_param p.name)) _ more in
      let fresh = when-false (contains p.name seen) (duplicate_param p.name) new in
      let (distinct, apart) = names-Distinct (p.name ∷ seen) params rest in
      let names = map (λ (q : ParamSpec). q.name) params in
      let once : contains p.name names ≡ false = elim (Bool-cases (contains p.name names)) [
        | inr no_more ↦ no_more
        | inl twice ↦ absurd (ground (arith, apart p.name twice, eq_iff p.name p.name))
      ] in
      ((once, distinct), λ k m. ground (arith, m, apart k, fresh, eq_iff p.name k))

  pub resolve_params-Resolved :
      (recipe : Recipe) (supplied out : Dict Json)
      → name_problems [] recipe.params ≡ []
      → resolve_params read_int read_float recipe supplied ≡ return out
      → (keys out ≡ map (λ p. p.name) recipe.params)
        × All (λ k. has k out ≡ true) (keys supplied)
        × All (Resolved supplied out) recipe.params
  unfolding resolve_params
  resolve_params-Resolved recipe supplied out fine h =
      let names = map (λ (p : ParamSpec). p.name) recipe.params in
      let left = keep (λ k. not (contains k names)) (keys supplied) in
      elim (List-cases (sort_texts left)) [
        | inr (k, ks, unknown) ↦ absurd (ground (arith, unknown, h))
        | inl known ↦
            let looped : resolve_all read_int read_float recipe.params supplied [] ≡ return out =
              ground (arith, known, h) in
            let (distinct, _) = names-Distinct [] recipe.params fine in
            let (listed, _, resolved) =
              All-Resolved recipe.params supplied [] out looped distinct (λ k m. refl) in
            (
              listed,
              All-map (λ k. contains k names ≡ true) (λ k. has k out ≡ true) (keys supplied)
                  (λ k known. sym (contains-keys k out) ∙ (ap (contains k) listed ∙ known))
                  (none-left names (keys supplied) (sorted-empty left known)),
              resolved,
            )
      ]
