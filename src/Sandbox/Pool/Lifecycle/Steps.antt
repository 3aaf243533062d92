-- ===== src/Sandbox/Pool/Lifecycle/Steps.antt =====
-- sandbox/sandbox.go: the new handles in one step of a goroutine, and the stage of a sandbox in
-- numbers.
use Prim.Native.Nat.{min}
use mathlib.Core.Option.{some-injective}
use emberbox.Prelude.{
  ℕ, zero, suc, ◌+◌, ◌≤◌, ◌≡◌, ap, inl, inr, Text, some, List, [], ◌∷◌, ◌++◌, arith, get_elem?, set,
  List-cases,
}
use emberbox.Errors.{Result-cases}
use emberbox.Context.{Context, background}
use emberbox.Sandbox.{Backend, AllocRequest}
use emberbox.Sandbox.Pool.Sections.{
  Pool, take_warm, remove_active, take_all, add_warm, with_defaults, default_request,
}
use emberbox.Sandbox.Pool.Threads.{
  allocates, boots, inserts, refills, adds, executes, releases, shuts_down, destroys, Thread,
  advance,
}
use emberbox.Sandbox.Pool.Ownership.Counts.{count, count-cons, count-nil}
use emberbox.Sandbox.Pool.Ownership.Steps.{held, count_threads, insert_warm}
use emberbox.Sandbox.Pool.Targets.{doomed}
use emberbox.Sandbox.Pool.Targets.Histories.{count_doomed}
use emberbox.Sandbox.Pool.Lifecycle.{last_stage, new, count_new, order, order-last_stage}

flag_le : (m n : ℕ) → m ≤ n → min 1 m ≤ min 1 n
flag_le m n h = omega arith

five_le :
    (a b c d e a' b' c' d' e' : ℕ)
    → a ≤ a'
    → b ≤ b'
    → c ≤ c'
    → d ≤ d'
    → e ≤ e'
    → a + b + c + d + e ≤ a' + b' + c' + d' + e'
five_le a b c d e a' b' c' d' e' p q r s t = omega arith

pub last_stage-le :
    (d o a w f d' o' a' w' f' : ℕ)
    → d ≤ d'
    → d + o ≤ d' + o'
    → d + o + a ≤ d' + o' + a'
    → d + o + a + w ≤ d' + o' + a' + w'
    → d + o + a + w + f ≤ d' + o' + a' + w' + f'
    → order (last_stage d o a w f) ≤ order (last_stage d' o' a' w' f')
last_stage-le d o a w f d' o' a' w' f' p q r s t =
    rw (order-last_stage d o a w f, order-last_stage d' o' a' w' f')
      (five_le _ _ _ _ _ _ _ _ _ _ (flag_le _ _ p) (flag_le _ _ q) (flag_le _ _ r) (flag_le _ _ s)
        (flag_le _ _ t))

module _ (B : Backend) where
  allocates-new :
      (t : Text) (p : Pool B) (w : B.World) (ctx : Context) (req : AllocRequest)
      → let m = advance B p w (allocates ctx req) in
        (count B t (new B m.thread) ≡ 0) × (count B t m.pool.warm ≤ count B t p.warm)
  unfolding advance take_warm
  allocates-new t p w ctx req = elim (List-cases p.warm) [
    | inl e ↦ ground (arith, count-nil B t)
    | inr (h, hs, e) ↦ ground (
      arith,
      count-nil B t,
      count-cons B t h hs,
      ap (count B t) (insert_warm B (record p { warm = hs }) (with_defaults p.cfg req) h),
    )
  ]

  -- A goroutine comes to hold a new sandbox only by a boot.
  pub new-le :
      (t : Text) (p : Pool B) (w : B.World) (th : Thread B)
      → let m = advance B p w th in
        (count B t (new B m.thread) ≤ count B t (new B th) + count B t m.booted)
        × (count B t m.pool.warm + count B t (new B m.thread)
            ≤ count B t p.warm + count B t (new B th) + count B t m.booted)
  unfolding advance add_warm take_all remove_active
  new-le t p w (allocates ctx req) =
      let (none_new, less) = allocates-new t p w ctx req in
      (omega (arith, none_new), omega (arith, none_new, less))
  new-le t p w (boots ctx req) = elim (Result-cases (B.boot ctx req w).0) [
    | inl (h, e) ↦ rw e (omega (arith, count-nil B t), omega (arith, count-nil B t))
    | inr (x, e) ↦ rw e (omega (arith, count-nil B t), omega (arith, count-nil B t))
  ]
  new-le t p w (inserts req h) = (
    omega (arith, count-nil B t),
    omega (arith, count-nil B t, ap (count B t) (insert_warm B p req h)),
  )
  new-le t p w (refills zero) = (omega (arith, count-nil B t), omega (arith, count-nil B t))
  new-le t p w (refills (suc n)) =
      elim (Result-cases (B.boot background (default_request p.cfg) w).0) [
        | inl (h, e) ↦ rw e (omega (arith, count-nil B t), omega (arith, count-nil B t))
        | inr (x, e) ↦ rw e (omega (arith, count-nil B t), omega (arith, count-nil B t))
      ]
  new-le t p w (adds n h) = (
    omega (arith, count-nil B t),
    omega (arith, count-nil B t, count-cons B t h p.warm, count-cons B t h []),
  )
  new-le t p w (releases ctx i) = ground (arith, count-nil B t)
  new-le t p w (shuts_down ctx) = (omega (arith, count-nil B t), omega (arith, count-nil B t))
  new-le t p w (destroys ctx []) = (omega (arith, count-nil B t), omega (arith, count-nil B t))
  new-le t p w (destroys ctx (h ∷ hs)) =
      (omega (arith, count-nil B t), omega (arith, count-nil B t))
  new-le t p w (executes c) = ground (arith, count-nil B t)
  new-le t p w _ = (omega (arith, count-nil B t), omega (arith, count-nil B t))

  -- Replacing a goroutine.
  pub count_new-set :
      (t : Text) (ths : List (Thread B)) (i : ℕ) (old next : Thread B)
      → get_elem? ths i ≡ some old
      → count_new B t (set ths i next) + count B t (new B old)
        ≡ count_new B t ths + count B t (new B next)
  count_new-set t [] i old next e = cc
  count_new-set t (x ∷ ths) zero old next e =
      omega (arith, ap (λ th. count B t (new B th)) (some-injective x old e))
  count_new-set t (x ∷ ths) (suc i) old next e = omega (arith, count_new-set t ths i old next e)

  pub count_new-append :
      (t : Text) (xs ys : List (Thread B))
      → count_new B t (xs ++ ys) ≡ count_new B t xs + count_new B t ys
  count_new-append t [] ys = omega arith
  count_new-append t (x ∷ xs) ys = omega (arith, count_new-append t xs ys)

  held_parts :
      (t : Text) (th : Thread B)
      → count B t (held B th) ≡ count B t (new B th) + count B t (doomed B th)
  held_parts t (inserts req h) = omega (arith, count-nil B t)
  held_parts t (adds n h) = omega (arith, count-nil B t)
  held_parts t (destroys ctx hs) = omega (arith, count-nil B t)
  held_parts t _ = omega (arith, count-nil B t)

  -- What the goroutines hold is new or to be destroyed.
  pub count_threads_parts :
      (t : Text) (ths : List (Thread B))
      → count_threads B t ths ≡ count_new B t ths + count_doomed B t ths
  count_threads_parts t [] = omega arith
  count_threads_parts t (th ∷ ths) = omega (arith, held_parts t th, count_threads_parts t ths)
