-- ===== src/Prelude/Strings.antt =====
-- Go strings as lists of bytes, and what the code uses of strings, strconv and fmt.
use Prim.Native.Nat.{ℕ, zero, suc, ◌+◌, ◌/◌, ◌%◌}
use Prim.Native.Char.{code}
use Prim.Native.String.{String}
use mathlib.Core.Path.{◌≡◌, refl, ap}
use mathlib.Core.Logic.{◌↔◌, ◌≢◌}
use mathlib.Core.Bool.{Bool, true, false, ◌&&◌, ◌||◌}
use mathlib.Core.List.{List, [], ◌∷◌, ◌++◌}
use native.Mathlib.Omega.{arith}
use emberbox.Prelude.Tests.{leb, ◌==◌, ==_iff, if◌then◌else◌}
use emberbox.Prelude.Lists.{length, drop}
use emberbox.Prelude.Int.{ℤ, pos, negsuc}

abbrev pub Text : Type 0
Text = List ℕ

-- The bytes of an ASCII literal. It stays shut in proofs, which do not read the wording.
unfoldable pub text : String → Text
text String.[] = []
text (String.◌∷◌ c s) = code c ∷ text s

-- s == "".
abbrev pub is_empty {ℓ} : {A : Type ℓ} → List A → Bool
is_empty [] = true
is_empty (_ ∷ _) = false

pub is_empty-filled {ℓ} : {A : Type ℓ} (xs : List A) → xs ≢ [] → is_empty xs ≡ false
is_empty-filled [] filled = absurd (filled refl)
is_empty-filled (x ∷ xs) filled = refl

-- s == t.
unfoldable pub text_eq : Text → Text → Bool
text_eq [] [] = true
text_eq (a ∷ s) (b ∷ t) = (a == b) && text_eq s t
text_eq _ _ = false

pub text_eq_iff : (s t : Text) → (text_eq s t ≡ true) ↔ (s ≡ t)
unfolding text_eq
text_eq_iff [] [] = (λ _. refl, λ _. refl)
text_eq_iff (a ∷ s) (b ∷ t) = ground (arith, ==_iff a b, text_eq_iff s t)
text_eq_iff [] (b ∷ t) = ground arith
text_eq_iff (a ∷ s) [] = ground arith

pub text_eq_refl : (s : Text) → text_eq s s ≡ true
text_eq_refl s = (text_eq_iff s s).1 refl

pub text_eq-false : (s t : Text) → text_eq s t ≡ false → s ≢ t
text_eq-false s t e same = let equal = (text_eq_iff s t).1 same in cc

-- strings.HasPrefix(s, p).
unfoldable pub has_prefix : Text → Text → Bool
has_prefix s [] = true
has_prefix [] (_ ∷ _) = false
has_prefix (a ∷ s) (b ∷ p) = (a == b) && has_prefix s p

pub has_prefix_splits : (s p : Text) → has_prefix s p ≡ true → s ≡ p ++ drop (length p) s
unfolding has_prefix
has_prefix_splits s [] h = refl
has_prefix_splits [] (b ∷ p) h = cc
has_prefix_splits (a ∷ s) (b ∷ p) h =
    let parts : (a ≡ b) × (has_prefix s p ≡ true) = ground arith in
    rw (parts.0) (ap (λ r. b ∷ r) (has_prefix_splits s p parts.1))

-- strings.TrimRight(s, cutset), with the cutset as a test.
unfoldable pub trim_right : (ℕ → Bool) → Text → Text
trim_right cut [] = []
trim_right cut (a ∷ s) =
    let rest = trim_right cut s in if is_empty rest && cut a then [] else a ∷ rest

-- strings.TrimLeft(s, cutset).
unfoldable pub trim_left : (ℕ → Bool) → Text → Text
trim_left cut [] = []
trim_left cut (a ∷ s) = let rest = trim_left cut s in if cut a then rest else a ∷ s

-- ASCII white space, and strings.TrimSpace as far as it removes no other.
abbrev pub is_space : ℕ → Bool
is_space a = (leb 9 a && leb a 13) || (a == 32)

abbrev pub trim_space : Text → Text
trim_space s = trim_right is_space (trim_left is_space s)

-- strings.Join.
unfoldable pub join : List Text → Text → Text
join [] sep = []
join (p ∷ []) sep = p
join (p ∷ q ∷ ps) sep = p ++ (sep ++ join (q ∷ ps) sep)

-- The decimal digits of a number in front of `out`; a round for each digit, at most `n + 1`.
unfoldable pub digits : ℕ → ℕ → Text → Text
digits zero n out = out
digits (suc fuel) n out =
    let rest = digits fuel (n / 10) ((b'0' + n % 10) ∷ out) in
    if n / 10 == 0 then (b'0' + n % 10) ∷ out else rest

-- %d.
unfoldable pub itoa : ℕ → Text
unfolding digits
itoa n = digits (suc n) n []

unfoldable pub itoa_ℤ : ℤ → Text
unfolding itoa
itoa_ℤ (pos n) = itoa n
itoa_ℤ (negsuc n) = b'-' ∷ itoa (suc n)
