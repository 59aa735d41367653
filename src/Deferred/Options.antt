-- ===== src/Deferred/Options.antt =====
-- `absurd_params(**options)` of the options that a wrapper carries.
use django_absurd.Prelude.{
  String, ◌≡◌, refl, false, not, Option, none, [], ◌∷◌, ◌==◌, if◌then◌else◌, arith, eq_iff, eq_refl,
  contains, keep, Bool-cases, inl, inr, ◌∙◌,
}
use django_absurd.Prelude.Dicts
use django_absurd.Effect.{ok}
use django_absurd.Json.{Json}
use django_absurd.Task.{SpawnKwargs}
use django_absurd.Params.{field_names, absurd_params, Params, kwargs_of}
use django_absurd.Params.Laws.{absurd_params-fields, given_field}
use django_absurd.Deferred.{keywords_of, keys_of}

-- Options that hold nothing but the five fields.
abbrev pub IsSpawnKwargs : SpawnKwargs → Type 0
IsSpawnKwargs options = (k : String) → contains field_names k ≡ false → Dicts.get k options ≡ none

cons-ne-none : (k : String) (v : Json) (d : SpawnKwargs) → Dicts.get k ((k, v) ∷ d) ≡ none → ⊥
unfolding Dicts.get
cons-ne-none k v d h = ground (arith, eq_refl k)

tail-none :
    (j k : String) (v : Json) (d : SpawnKwargs)
    → Dicts.get j ((k, v) ∷ d) ≡ none
    → Dicts.get j d ≡ none
unfolding Dicts.get
tail-none j k v d h = ground arith

unsupported-nil :
    (options : SpawnKwargs)
    → IsSpawnKwargs options
    → keep (λ k. not (contains field_names k)) (keys_of options) ≡ []
unsupported-nil [] h = refl
unsupported-nil ((k, v) ∷ d) h = elim (Bool-cases (contains field_names k)) [
  | inl known ↦ rw known (unsupported-nil d (λ j n. tail-none j k v d (h j n)))
  | inr unknown ↦ absurd (cons-ne-none k v d (h k unknown))
]

at_key :
    (j k : String) (d : SpawnKwargs) (o : Option Json)
    → (if j == k then Dicts.get j d else o) ≡ (if j == k then Dicts.get k d else o)
at_key j k d o = elim (Bool-cases (j == k)) [
  | inl same ↦ rw ((eq_iff j k).0 same)
  | inr other ↦ rw other
]

given_field-keywords_of :
    (options : SpawnKwargs) (k : String)
    → IsSpawnKwargs options
    → given_field k (keywords_of options) ≡ Dicts.get k options
unfolding keywords_of
given_field-keywords_of options k h = simp at_key (ground (arith, h k))

-- Options that hold only the five fields pass through `absurd_params` unchanged.
pub absurd_params-keywords_of :
    (options : SpawnKwargs)
    → IsSpawnKwargs options
    → (params : Params) × (absurd_params (keywords_of options) ≡ ok params)
      × ((k : String) → Dicts.get k (kwargs_of params) ≡ Dicts.get k options)
absurd_params-keywords_of options h =
    let (params, e, fields, _) =
      absurd_params-fields (keywords_of options)
        (unfold keywords_of in unsupported-nil options h) in
    (params, e, λ k. fields k ∙ given_field-keywords_of options k h)
