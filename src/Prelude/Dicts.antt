-- ===== src/Prelude/Dicts.antt =====
-- Python's `dict` with text keys: its bindings in insertion order. A dict that the program builds
-- binds no key twice; where a list does, the later binding counts, as in a dict display.
use Prim.Native.String.{String}
use mathlib.Core.Path.{◌≡◌, refl}
use mathlib.Core.Bool.{Bool, not, ◌&&◌}
use mathlib.Core.Option.{Option, none, some}
use mathlib.Core.List.{List, [], ◌∷◌}
use native.Mathlib.Omega.{arith}
use text.Mathlib.Text.{◌==◌}
use text.Mathlib.TextEquality.{eq_iff}
use django_absurd.Prelude.Tests.{if◌then◌else◌, is_some, or_else}

abbrev pub Dict {ℓ} : Type ℓ → Type ℓ
Dict V = List (String × V)

module _ {ℓ} {V : Type ℓ} where
  -- `d.get(k)`
  unfoldable pub get : String → Dict V → Option V
  get k [] = none
  get k ((j, v) ∷ d) = or_else (get k d) (if j == k then some v else none)

  -- `k in d`
  abbrev pub has_key : String → Dict V → Bool
  has_key k d = is_some (get k d)

  -- `d[k] = v`: a key that is there keeps its place.
  unfoldable pub put : String → V → Dict V → Dict V
  put k v [] = (k, v) ∷ []
  put k v ((j, w) ∷ d) =
      let rest = put k v d in if (j == k) && not (has_key k d) then (k, v) ∷ d else (j, w) ∷ rest

  -- `d.update(e)`
  unfoldable pub update : Dict V → Dict V → Dict V
  update d [] = d
  update d ((k, v) ∷ e) = update (put k v d) e

  -- `d.setdefault(k, v)`, for its effect
  unfoldable pub setdefault : String → V → Dict V → Dict V
  setdefault k v d = if has_key k d then d else put k v d

  pub get-put :
      (k j : String) (v : V) (d : Dict V) → get j (put k v d) ≡ (if k == j then some v else get j d)
  unfolding get put
  get-put k j v [] = ground arith
  get-put k j v ((i, w) ∷ d) = ground (arith, get-put k j v d, eq_iff i k, eq_iff i j, eq_iff k j)

  pub get-update : (j : String) (d e : Dict V) → get j (update d e) ≡ or_else (get j e) (get j d)
  unfolding get update
  get-update j d [] = refl
  get-update j d ((k, v) ∷ e) = ground (arith, get-update j (put k v d) e, get-put k j v d)

  pub get-setdefault :
      (k j : String) (v : V) (d : Dict V)
      → get j (setdefault k v d) ≡ or_else (get j d) (if k == j then some v else none)
  unfolding setdefault
  get-setdefault k j v d = ground (arith, get-put k j v d, eq_iff k j)

-- Two dicts with the same value at every key.
abbrev pub SameDict {ℓ} : {V : Type ℓ} → Dict V → Dict V → Type ℓ
SameDict d e = (k : String) → get k d ≡ get k e
