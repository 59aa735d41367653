-- ===== src/Prelude/Texts.antt =====
-- Prefixes, suffixes and separators of texts, as Python's `str` methods read them.
use Prim.Native.Nat.{ℕ, suc, ◌+◌}
use Prim.Native.Char.{Char, code}
use Prim.Native.String.{String, ◌++◌}
use Prim.Native.String.append
use mathlib.Core.Path.{◌≡◌, refl, ap, sym, subst, ◌∙◌}
use mathlib.Core.Logic.{◌≢◌, inl, inr}
use mathlib.Core.Bool.{Bool, true, false, ◌||◌, ◌&&◌}
use mathlib.Core.Option.{Option, none, some}
use native.Mathlib.Omega.{arith}
use text.Mathlib.Text.{◌==◌}
use text.Mathlib.TextEquality.{eq_iff}
use text.Mathlib.TextPositions.{eq_refl}
use django_absurd.Prelude.Tests.{Bool-cases, nat_beq, if◌then◌else◌}

-- Two texts in a row, as an f-string joins them.
infixr 65 ◌<>◌
abbrev pub ◌<>◌ : String → String → String
s <> t = s ++ t

-- `s.endswith(suffix)`
unfoldable pub ends_with : String → String → Bool
ends_with suffix String.[] = String.[] == suffix
ends_with suffix (String.◌∷◌ c s) = (String.◌∷◌ c s == suffix) || ends_with suffix s

-- `s.removesuffix(suffix)`
unfoldable pub remove_suffix : String → String → String
remove_suffix suffix String.[] = String.[]
remove_suffix suffix (String.◌∷◌ c s) =
    if String.◌∷◌ c s == suffix then String.[] else String.◌∷◌ c (remove_suffix suffix s)

-- `s.startswith(prefix)`
unfoldable pub starts_with : String → String → Bool
starts_with String.[] s = true
starts_with (String.◌∷◌ c p) String.[] = false
starts_with (String.◌∷◌ c p) (String.◌∷◌ d s) = nat_beq (code c) (code d) && starts_with p s

-- The text holds the character with this code.
unfoldable pub has_code : ℕ → String → Bool
has_code n String.[] = false
has_code n (String.◌∷◌ c s) = nat_beq (code c) n || has_code n s

-- `s.rsplit(sep, 1)` at the character with this code: the two parts round its last occurrence.
unfoldable pub rsplit : ℕ → String → Option (String × String)
rsplit n String.[] = none
rsplit n (String.◌∷◌ c s) = elim (rsplit n s) [
  | some (a, b) ↦ some (String.◌∷◌ c a, b)
  | none ↦ if nat_beq (code c) n then some (String.[], s) else none
]

size : String → ℕ
size String.[] = 0
size (String.◌∷◌ c s) = suc (size s)

size-append : (s t : String) → size (s <> t) ≡ size s + size t
unfolding size
size-append String.[] t = rw append.nil (omega arith)
size-append (String.◌∷◌ c s) t = rw append.cons (omega (arith, size-append s t))

cons-append-ne : (c : Char) (s t : String) → String.◌∷◌ c (s <> t) ≢ t
unfolding size
cons-append-ne c s t e = absurd (omega (arith, ap size e, size-append s t))

ends_with_self : (t : String) → ends_with t t ≡ true
unfolding ends_with
ends_with_self String.[] = eq_refl String.[]
ends_with_self (String.◌∷◌ c t) = rw (eq_refl (String.◌∷◌ c t))

pub ends_with-append : (s t : String) → ends_with t (s <> t) ≡ true
unfolding ends_with
ends_with-append String.[] t = rw append.nil (ends_with_self t)
ends_with-append (String.◌∷◌ c s) t = rw append.cons (ground (arith, ends_with-append s t))

remove_suffix_self : (t : String) → remove_suffix t t ≡ String.[]
unfolding remove_suffix
remove_suffix_self String.[] = refl
remove_suffix_self (String.◌∷◌ c t) = rw (eq_refl (String.◌∷◌ c t))

pub remove_suffix-append : (s t : String) → remove_suffix t (s <> t) ≡ s
unfolding remove_suffix
remove_suffix-append String.[] t = rw append.nil (remove_suffix_self t)
remove_suffix-append (String.◌∷◌ c s) t = rw append.cons (
    ground
      (arith, remove_suffix-append s t, eq_iff (String.◌∷◌ c (s <> t)) t, cons-append-ne c s t))

has_code-cons :
    (n : ℕ) (c : Char) (s : String) → has_code n s ≡ true → has_code n (String.◌∷◌ c s) ≡ true
unfolding has_code
has_code-cons n c s h = ground arith

-- A text with a suffix that holds a character holds that character.
pub has_code-of-suffix :
    (n : ℕ) (t s : String) → has_code n t ≡ true → ends_with t s ≡ true → has_code n s ≡ true
unfolding ends_with
has_code-of-suffix n t String.[] h e = subst (λ x. has_code n x ≡ true) (sym ((eq_iff _ t).0 e)) h
has_code-of-suffix n t (String.◌∷◌ c s) h e = elim (Bool-cases (String.◌∷◌ c s == t)) [
  | inl same ↦ subst (λ x. has_code n x ≡ true) (sym ((eq_iff _ t).0 same)) h
  | inr other ↦ has_code-cons n c s (has_code-of-suffix n t s h (rw other at e))
]

rsplit-none : (n : ℕ) (t : String) → has_code n t ≡ false → rsplit n t ≡ none
unfolding rsplit has_code
rsplit-none n String.[] h = refl
rsplit-none n (String.◌∷◌ c t) h = ground (arith, rsplit-none n t)

-- The last separator is found, whatever stands before it.
pub rsplit-append :
    (n : ℕ) (c : Char) (s t : String)
    → nat_beq (code c) n ≡ true
    → has_code n t ≡ false
    → rsplit n (s <> String.◌∷◌ c t) ≡ some (s, t)
unfolding rsplit
rsplit-append n c String.[] t e h = rw append.nil (ground (arith, rsplit-none n t h))
rsplit-append n c (String.◌∷◌ d s) t e h =
    rw append.cons (ground (arith, rsplit-append n c s t e h))

pub rsplit-colon :
    (s t : String) → has_code b':' t ≡ false → rsplit b':' (s <> ":" <> t) ≡ some (s, t)
rsplit-colon s t h =
    let joined : ":" <> t ≡ String.◌∷◌ ":" t =
      append.cons ":" String.[] t ∙ ap (String.◌∷◌ ":") (append.nil t) in
    rw joined (rsplit-append b':' ":" s t refl h)

-- A common beginning decides nothing.
pub starts_with-append : (p s t : String) → starts_with (p <> s) (p <> t) ≡ starts_with s t
unfolding starts_with
starts_with-append String.[] s t = rw (append.nil s, append.nil t)
starts_with-append (String.◌∷◌ c p) s t =
    rw (append.cons c p s, append.cons c p t) (ground (arith, starts_with-append p s t))
