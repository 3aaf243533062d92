-- ===== src/Prelude/Tally.antt =====
-- How often a text occurs in a list: lists compared with their order left out.
use mathlib.Core.Bool.{false}
use Prim.Native.Nat.{ℕ, ◌+◌, ◌≤◌}
use mathlib.Core.Path.{◌≡◌, refl}
use mathlib.Core.List.{List, [], ◌∷◌, ◌++◌}
use native.Mathlib.Omega.{arith}
use emberbox.Prelude.Tests.{if◌then◌else◌}
use emberbox.Prelude.Strings.{Text, text_eq, text_eq_refl}

-- 1 if the two texts are equal.
abbrev pub hit : Text → Text → ℕ
hit t x = if text_eq x t then 1 else 0

unfoldable pub tally : Text → List Text → ℕ
tally t [] = 0
tally t (x ∷ xs) = hit t x + tally t xs

pub tally-nil : (t : Text) → tally t [] ≡ 0
unfolding tally
tally-nil t = refl

pub tally-cons : (t x : Text) (xs : List Text) → tally t (x ∷ xs) ≡ hit t x + tally t xs
unfolding tally
tally-cons t x xs = ground arith

pub tally-append : (t : Text) (xs ys : List Text) → tally t (xs ++ ys) ≡ tally t xs + tally t ys
unfolding tally
tally-append t [] ys = omega arith
tally-append t (x ∷ xs) ys = omega (arith, tally-append t xs ys)

pub hit_self : (t : Text) → hit t t ≡ 1
hit_self t = rw (text_eq_refl t)

pub hit-le : (t x : Text) → hit t x ≤ 1
hit-le t x = ground arith

pub miss : (t x : Text) → text_eq x t ≡ false → hit t x ≡ 0
miss t x e = rw e
