-- ===== src/Base/Sets.antt =====
-- `std::set<std::string>`: the order of texts, and what insertion does to a list in that order.
use Prim.Native.Nat.{compare as compare_ℕ, Ordering}
use Prim.Native.Char.{code}
use Prim.Native.String.compare
use Prim.Native.String.{String, compare as compare_text}
use mathlib.Core.Path.{◌≡◌, refl, sym, ap, ◌∙◌}
use mathlib.Core.Logic.{inl, inr}
use mathlib.Core.Bool.{Bool, true, false, ◌||◌}
use mathlib.Core.List.{List, [], ◌∷◌}
use native.Mathlib.Omega.{arith}
use text.Mathlib.Text.{◌==◌, is_lt}
use text.Mathlib.TextEquality.{codes_equal, eq_iff}
use text.Mathlib.TextPositions.{compare_refl}
use xds_client.Base.Tests.{Bool-cases}
use xds_client.Base.Names.{contains, set_insert, All}

abbrev pub before : String → String → Bool
before s t = is_lt (compare_text s t)

-- The same order by clauses on the texts.
abbrev lexical : String → String → Bool
lexical String.[] String.[] = false
lexical String.[] (String.◌∷◌ d t) = true
lexical (String.◌∷◌ c s) String.[] = false
lexical (String.◌∷◌ c s) (String.◌∷◌ d t) = elim (compare_ℕ (code c) (code d)) [
  | Ordering.lt ↦ true
  | Ordering.eq ↦ lexical s t
  | Ordering.gt ↦ false
]

before-lexical : (s t : String) → before s t ≡ lexical s t
before-lexical String.[] String.[] = ap is_lt compare.nil-nil
before-lexical String.[] (String.◌∷◌ d t) = ap is_lt (compare.nil-cons d t)
before-lexical (String.◌∷◌ c s) String.[] = ap is_lt (compare.cons-nil c s)
before-lexical (String.◌∷◌ c s) (String.◌∷◌ d t) =
    ap is_lt (compare.cons-cons c d s t) ∙ ground (arith, before-lexical s t)

lexical_total : (s t : String) → lexical s t ≡ false → lexical t s ≡ false → s ≡ t
lexical_total String.[] String.[] h k = refl
lexical_total String.[] (String.◌∷◌ d t) h k = cc
lexical_total (String.◌∷◌ c s) String.[] h k = cc
lexical_total (String.◌∷◌ c s) (String.◌∷◌ d t) h k =
    let heads : c ≡ d = codes_equal c d (ground arith) in
    let rests : s ≡ t = lexical_total s t (ground arith) (ground arith) in cc

lexical_trans : (s t u : String) → lexical s t ≡ true → lexical t u ≡ true → lexical s u ≡ true
lexical_trans String.[] String.[] String.[] h k = cc
lexical_trans String.[] (String.◌∷◌ d t) String.[] h k = cc
lexical_trans String.[] String.[] (String.◌∷◌ e u) h k = refl
lexical_trans String.[] (String.◌∷◌ d t) (String.◌∷◌ e u) h k = refl
lexical_trans (String.◌∷◌ c s) String.[] u h k = cc
lexical_trans (String.◌∷◌ c s) (String.◌∷◌ d t) String.[] h k = cc
lexical_trans (String.◌∷◌ c s) (String.◌∷◌ d t) (String.◌∷◌ e u) h k =
    ground (arith, lexical_trans s t u)

-- Of two texts one comes before the other, or they are equal.
pub before_total : (s t : String) → before s t ≡ false → before t s ≡ false → s ≡ t
before_total s t h k =
    lexical_total s t (sym (before-lexical s t) ∙ h) (sym (before-lexical t s) ∙ k)

pub before_trans : (s t u : String) → before s t ≡ true → before t u ≡ true → before s u ≡ true
before_trans s t u h k =
    before-lexical s u
    ∙ lexical_trans s t u (sym (before-lexical s t) ∙ h) (sym (before-lexical t u) ∙ k)

pub before_irrefl : (s : String) → before s s ≡ false
before_irrefl s = ap is_lt (compare_refl s)

-- A list in strictly ascending order.
abbrev pub IsAscending : List String → Type 0
IsAscending [] = Unit
IsAscending (x ∷ xs) = All (λ y. before x y ≡ true) xs × IsAscending xs

All-set_insert :
    (P : String → Type 0) (x : String) (xs : List String) → P x → All P xs → All P (set_insert x xs)
unfolding set_insert
All-set_insert P x [] p h = (p, tt)
All-set_insert P x (y ∷ ys) p h = elim (Bool-cases (before y x)) [
  | inl e ↦ rw e (h.0, All-set_insert P x ys p h.1)
  | inr e ↦ elim (Bool-cases (before x y)) [ inl k ↦ rw (e, k) (p, h) | inr k ↦ rw (e, k) h ]
]

All-before :
    (x y : String) (ys : List String)
    → before x y ≡ true
    → All (λ z. before y z ≡ true) ys
    → All (λ z. before x z ≡ true) ys
All-before x y [] h k = tt
All-before x y (z ∷ zs) h k = (before_trans x y z h k.0, All-before x y zs h k.1)

pub set_insert-IsAscending :
    (x : String) (xs : List String) → IsAscending xs → IsAscending (set_insert x xs)
unfolding set_insert
set_insert-IsAscending x [] h = (tt, tt)
set_insert-IsAscending x (y ∷ ys) h = elim (Bool-cases (before y x)) [
  | inl e ↦ rw e (All-set_insert _ x ys e h.0, set_insert-IsAscending x ys h.1)
  | inr e ↦ elim (Bool-cases (before x y)) [
    | inl k ↦ rw (e, k) ((k, All-before x y ys k h.0), h)
    | inr k ↦ rw (e, k) h
  ]
]

pub contains-set_insert :
    (x u : String) (xs : List String) → contains (set_insert x xs) u ≡ (x == u || contains xs u)
unfolding set_insert
contains-set_insert x u [] = refl
contains-set_insert x u (y ∷ ys) = elim (Bool-cases (before y x)) [
  | inl e ↦ ground (arith, e, contains-set_insert x u ys)
  | inr e ↦ elim (Bool-cases (before x y)) [
    | inl k ↦ ground (arith, e, k)
    | inr k ↦ ground (arith, e, k, before_total x y k e, eq_iff x u, eq_iff y u)
  ]
]
