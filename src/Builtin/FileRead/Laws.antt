-- ===== src/Builtin/FileRead/Laws.antt =====
-- What file_read of tools/fileread.go promises.
use native.Mathlib.Decide.{dec_lt}
use emberbox.Prelude.{
  ◌∙◌, ap, leb-true, leb-false, inr, ◌⊎◌, inl, Text, ℕ, zero, suc, ◌+◌, ◌-◌, ◌<◌, ◌≤◌, ◌∷◌, [],
  List, none, ◌≡◌, refl, take, drop, length, All, arith,
}
use emberbox.Prelude.Int.{pos}
use emberbox.Errors.{Result, ok, err}
use emberbox.Builtin.FileRead.{at_break, too_long, numbered, scan, max_token}

-- Every line with its number, from `n + 1` on.
abbrev pub all_numbered : ℕ → List Text → List Text
all_numbered n [] = []
all_numbered n (p ∷ ps) = numbered (suc n) p ∷ all_numbered (suc n) ps

-- The line fits into the scanner's buffer.
abbrev pub Fits : Text → Type 0
Fits p = length p < 65536

-- The room that is left: none, or one more than after the next line.
leb_cases :
    (limit k : ℕ)
    → ((limit - k ≡ 0) × (limit ≤ k))
      ⊎ ((m : ℕ) × (limit - suc k ≡ m) × (limit - k ≡ suc m) × (k < limit))
leb_cases limit k = elim (dec_lt k limit) [
  | yes less ↦ inr (limit - suc k, refl, omega arith, less)
  | no more ↦ inl (omega arith, omega arith)
]

at_break-none : (ps : List Text) → at_break none ps ≡ ok []
at_break-none [] = refl
at_break-none (p ∷ ps) = refl

scan-kept :
    (offset limit n k : ℕ) (ps : List Text)
    → All Fits ps
    → offset ≤ n
    → scan (pos offset) (pos limit) none none n k ps ≡ ok (take (limit - k) (all_numbered n ps))
unfolding scan max_token
scan-kept offset limit n k [] fit past = elim (leb_cases limit k) [
  | inl (full, above) ↦ rw full refl
  | inr (m, _, more, _) ↦ rw more refl
]
scan-kept offset limit n k (p ∷ ps) (fits, fit) past = elim (leb_cases limit k) [
  | inl (full, above) ↦
      rw
        (
          leb-false fits,
          leb-false {a = suc n + 0} {b = offset + 0} (omega arith),
          leb-true {a = limit + 0} {b = k + 0} (omega arith),
          full,
        )
        (at_break-none ps)
  | inr (m, next, more, below) ↦
      rw
        (
          leb-false fits,
          leb-false {a = suc n + 0} {b = offset + 0} (omega arith),
          leb-false {a = limit + 0} {b = k + 0} (omega arith),
          more,
          ← next,
          scan-kept offset limit (suc n) (suc k) ps fit (omega arith),
        )
        refl
]

take-nil : (limit : ℕ) → ◌≡◌ {A = List Text} (take limit []) []
take-nil zero = refl
take-nil (suc limit) = refl

scan_skips :
    (offset limit n d : ℕ) (ps : List Text)
    → All Fits ps
    → offset ≡ n + d
    → scan (pos offset) (pos limit) none none n 0 ps ≡ ok (take limit (drop d (all_numbered n ps)))
unfolding scan max_token
scan_skips offset limit n zero ps fit e =
    let whole : limit - 0 ≡ limit = omega arith in
    scan-kept offset limit n 0 ps fit (omega arith)
    ∙ ap (λ m. ok (take m (all_numbered n ps))) whole
scan_skips offset limit n (suc d) [] fit e = rw (take-nil limit) refl
scan_skips offset limit n (suc d) (p ∷ ps) (fits, fit) e =
    rw (leb-false fits, leb-true {a = suc n + 0} {b = offset + 0} (omega arith))
      (scan_skips offset limit (suc n) d ps fit (omega arith))

-- If every line fits into the scanner's buffer, the loop returns the numbered lines from the offset
-- on, as many as the limit allows, and a line keeps the number that it has in the file.
pub scan_lem :
    (offset limit : ℕ) (ps : List Text)
    → All Fits ps
    → scan (pos offset) (pos limit) none none 0 0 ps
      ≡ ok (take limit (drop offset (all_numbered 0 ps)))
scan_lem offset limit ps fit = scan_skips offset limit 0 offset ps fit (omega arith)

-- The result of a read whose first line that does not fit comes after the lines `ps`.
abbrev pub FirstLong : ℕ → ℕ → List Text → Result (List Text) → Type 0
FirstLong offset limit ps r =
    ((length ps ≤ offset + limit) × (r ≡ err too_long))
    ⊎ ((offset + limit < length ps) × (r ≡ ok (take limit (drop offset (all_numbered 0 ps)))))
