-- ===== src/Sandbox/Pool/Ownership/Counts.antt =====
-- How often an identity occurs among the handles of a pool, and how the critical sections of
-- sandbox/sandbox.go move it about.
use emberbox.Prelude.{ℕ, ◌+◌, ◌≡◌, refl, Text, none, some, List, [], ◌∷◌, ◌++◌, arith, text_eq_iff}
use emberbox.Prelude.Dict
use emberbox.Prelude.Dict.{Dict}
use emberbox.Prelude.Tally.{tally, tally-cons, tally-append, hit}
use emberbox.Sandbox.{Backend}
use emberbox.Sandbox.Pool.Sections.{Allocation, handles, rev_onto}

module _ (B : Backend) where
  abbrev pub ids : List B.Handle → List Text
  ids [] = []
  ids (h ∷ hs) = B.id h ∷ ids hs

  abbrev pub count : Text → List B.Handle → ℕ
  count t hs = tally t (ids hs)

  abbrev pub count_active : Text → Dict (Allocation B) → ℕ
  count_active t m = count t (handles B m)

  -- Every active entry stands under the identity of its handle.
  abbrev pub IsKeyed : Dict (Allocation B) → Type 0
  IsKeyed [] = Unit
  IsKeyed ((i, a) ∷ m) = (B.id a.handle ≡ i) × IsKeyed m

  ids-append : (xs ys : List B.Handle) → ids (xs ++ ys) ≡ ids xs ++ ids ys
  ids-append [] ys = refl
  ids-append (x ∷ xs) ys = rw (ids-append xs ys)

  pub count-append :
      (t : Text) (xs ys : List B.Handle) → count t (xs ++ ys) ≡ count t xs + count t ys
  count-append t xs ys = rw (ids-append xs ys) (tally-append t (ids xs) (ids ys))

  pub count-cons :
      (t : Text) (h : B.Handle) (hs : List B.Handle)
      → count t (h ∷ hs) ≡ hit t (B.id h) + count t hs
  count-cons t h hs = tally-cons t (B.id h) (ids hs)

  pub count-nil : (t : Text) → count t [] ≡ 0
  unfolding tally
  count-nil t = refl

  pub count-rev_onto :
      (t : Text) (hs out : List B.Handle) → count t (rev_onto B hs out) ≡ count t hs + count t out
  unfolding rev_onto
  count-rev_onto t [] out = omega (arith, count-nil t)
  count-rev_onto t (h ∷ hs) out =
      omega (arith, count-rev_onto t hs (h ∷ out), count-cons t h hs, count-cons t h out)

  -- An identity that no active handle has is not a key.
  pub lookup_uncounted :
      (t : Text) (m : Dict (Allocation B))
      → IsKeyed m
      → count_active t m ≡ 0
      → Dict.lookup t m ≡ none
  unfolding handles Dict.lookup tally
  lookup_uncounted t [] k z = refl
  lookup_uncounted t ((i, a) ∷ m) (same, k) z =
      ground (arith, lookup_uncounted t m k, text_eq_iff i t, text_eq_iff (B.id a.handle) t)

  pub lookup_keyed :
      (i : Text) (a : Allocation B) (m : Dict (Allocation B))
      → IsKeyed m
      → Dict.lookup i m ≡ some a
      → B.id a.handle ≡ i
  unfolding Dict.lookup
  lookup_keyed i a [] k e = cc
  lookup_keyed i a ((j, b) ∷ m) (same, k) e = ground (arith, lookup_keyed i a m k, text_eq_iff j i)

  pub count-insert :
      (t i : Text) (a : Allocation B) (m : Dict (Allocation B))
      → Dict.lookup i m ≡ none
      → count_active t (Dict.insert i a m) ≡ count_active t m + hit t (B.id a.handle)
  unfolding handles Dict.lookup Dict.insert tally
  count-insert t i a [] z = ground arith
  count-insert t i a ((j, b) ∷ m) z = ground (arith, count-insert t i a m)

  pub count-erase :
      (t i : Text) (a : Allocation B) (m : Dict (Allocation B))
      → Dict.NodupKeys m
      → Dict.lookup i m ≡ some a
      → count_active t (Dict.erase i m) + hit t (B.id a.handle) ≡ count_active t m
  unfolding handles Dict.lookup Dict.erase tally
  count-erase t i a [] u f = cc
  count-erase t i a ((j, b) ∷ m) (fresh, u) f =
      ground (arith, count-erase t i a m u, Dict.erase_missing i m, text_eq_iff j i)

  pub insert-IsKeyed :
      (a : Allocation B) (m : Dict (Allocation B))
      → IsKeyed m
      → IsKeyed (Dict.insert (B.id a.handle) a m)
  unfolding Dict.insert
  insert-IsKeyed a [] k = (refl, tt)
  insert-IsKeyed a ((j, b) ∷ m) (same, k) = ground (arith, insert-IsKeyed a m k)

  pub erase-IsKeyed : (i : Text) (m : Dict (Allocation B)) → IsKeyed m → IsKeyed (Dict.erase i m)
  unfolding Dict.erase
  erase-IsKeyed i [] k = tt
  erase-IsKeyed i ((j, b) ∷ m) (same, k) = ground (arith, erase-IsKeyed i m k)
