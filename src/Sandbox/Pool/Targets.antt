-- ===== src/Sandbox/Pool/Targets.antt =====
-- sandbox/sandbox.go: which sandbox an Execute calls the backend for, when other goroutines run
-- between its look into the active map and that call.
pub mod Histories
use emberbox.Prelude.{
  zero, suc, ◌+◌, ◌≤◌, ◌<◌, ◌≡◌, ◌⊎◌, refl, ap, inl, inr, Text, text_eq, text_eq_iff, none, some,
  List, [], ◌∷◌, arith, All, Option-cases, Bool-cases, List-cases,
}
use emberbox.Prelude.Dict
use emberbox.Prelude.Tally.{hit, hit_self}
use emberbox.Errors.{Result-cases}
use emberbox.Context.{background, Context}
use emberbox.Sandbox.{Backend, AllocRequest}
use emberbox.Sandbox.Pool.Sections.{
  default_request, Allocation, Pool, insert_active, take_warm, remove_active, handles, take_all,
  add_warm, with_defaults, find_active, rev_onto,
}
use emberbox.Sandbox.Pool.Threads.{
  allocates, boots, inserts, allocated, replenishes, refills, adds, executes, dispatches, executed,
  releases, shuts_down, destroys, finished, Thread, Move, advance,
}
use emberbox.Sandbox.Pool.Ownership.Counts.{
  count, count_active, count-append, count-cons, count-nil, lookup_keyed, count-erase,
}
use emberbox.Sandbox.Pool.Ownership.Steps.{IsSound, count_all, held_inactive, warm_inactive}

module _ (B : Backend) where
  -- The handles that a goroutine has taken out of the pool and is to destroy.
  abbrev pub doomed : Thread B → List B.Handle
  doomed (destroys ctx hs) = hs
  doomed _ = []

  -- An entry of the active map stays, or the goroutine takes its handle out to destroy it.
  abbrev pub StaysOrDoomed : Text → Pool B → Move B → Type 0
  StaysOrDoomed i p m =
      (a : Allocation B)
      → Dict.lookup i p.active ≡ some a
      → (Dict.lookup i m.pool.active ≡ some a) ⊎ (0 < count B i (doomed m.thread))

  -- An active entry is counted under its key.
  pub active-counted :
      (i : Text) (a : Allocation B) (p : Pool B)
      → IsSound B p
      → Dict.lookup i p.active ≡ some a
      → 1 ≤ count_active B i p.active
  active-counted i a p v e =
      let own = lookup_keyed B i a p.active v.keyed e in
      omega (arith, count-erase B i i a p.active v.nodup e, ap (hit i) own, hit_self i)

  -- A handle under an identity that is not active disturbs no entry.
  insert-StaysOrDoomed :
      (i : Text) (a : Allocation B) (p : Pool B) (req : AllocRequest) (h : B.Handle)
      → IsSound B p
      → count_active B (B.id h) p.active ≡ 0
      → Dict.lookup i p.active ≡ some a
      → Dict.lookup i (insert_active B p req h).active ≡ some a
  unfolding insert_active
  insert-StaysOrDoomed i a p req h v z e = elim (Bool-cases (text_eq (B.id h) i)) [
    | inl same ↦
        let at_i = (text_eq_iff (B.id h) i).0 same in
        absurd
          (omega (arith, active-counted i a p v e, ap (λ x. count_active B x p.active) at_i, z))
    | inr other ↦ rw (Dict.lookup-insert (B.id h) i _ p.active, other) e
  ]

  allocates-StaysOrDoomed :
      (i : Text) (p : Pool B) (w : B.World) (ctx : Context) (req : AllocRequest)
      → IsSound B p
      → ((x : Text) → count B x p.warm + count_active B x p.active ≤ 1)
      → StaysOrDoomed i p (advance B p w (allocates ctx req))
  unfolding advance take_warm
  allocates-StaysOrDoomed i p w ctx req v one a e = elim (List-cases p.warm) [
    | inl none_warm ↦ rw none_warm (inl e)
    | inr (h, hs, some_warm) ↦
        let q : Pool B = record p { warm = hs } in
        let full = with_defaults p.cfg req in
        let alone =
          warm_inactive B (B.id h) h hs p.active (hit_self (B.id h))
            (rw some_warm at (one (B.id h))) in
        rw some_warm (
          inl (
            insert-StaysOrDoomed i a q full h (record { nodup = v.nodup; keyed = v.keyed }) alone
              e))
  ]

  remove_active-none :
      (j : Text) (p : Pool B) → Dict.lookup j p.active ≡ none → remove_active B p j ≡ (none, p)
  unfolding remove_active
  remove_active-none j p missing = rw (missing, remove_active) refl

  remove_active-some :
      (j : Text) (b : Allocation B) (p : Pool B)
      → Dict.lookup j p.active ≡ some b
      → remove_active B p j ≡ (some b, record p { active = Dict.erase j p.active })
  unfolding remove_active
  remove_active-some j b p found = rw (found, remove_active) refl

  releases-StaysOrDoomed :
      (i j : Text) (p : Pool B) (w : B.World) (ctx : Context)
      → IsSound B p
      → StaysOrDoomed i p (advance B p w (releases ctx j))
  unfolding advance
  releases-StaysOrDoomed i j p w ctx v a e = elim (Option-cases (Dict.lookup j p.active)) [
    | inl missing ↦ rw (remove_active-none j p missing) (inl e)
    | inr (b, found) ↦ rw (remove_active-some j b p found) (elim (Bool-cases (text_eq j i)) [
      | inl same ↦
          let own = lookup_keyed B j b p.active v.keyed found in
          let at_i = (text_eq_iff j i).0 same in
          inr
            (omega (arith, count-cons B i b.handle [], ap (hit i) own, ap (hit i) at_i, hit_self i))
      | inr other ↦ inl (rw (Dict.lookup-erase j i p.active, other) e)
    ])
  ]

  shuts_down-StaysOrDoomed :
      (i : Text) (p : Pool B) (w : B.World) (ctx : Context)
      → IsSound B p
      → StaysOrDoomed i p (advance B p w (shuts_down ctx))
  unfolding advance take_all
  shuts_down-StaysOrDoomed i p w ctx v a e = inr (
      omega (
        arith,
        active-counted i a p v e,
        count-append B i (handles B p.active) (rev_onto B p.warm []),
      ))

  -- Whatever a goroutine does, an active entry stays or is taken out to be destroyed.
  pub advance-StaysOrDoomed :
      (i : Text) (p : Pool B) (w : B.World) (th : Thread B)
      → IsSound B p
      → ((x : Text) → count_all B x p th ≤ 1)
      → StaysOrDoomed i p (advance B p w th)
  unfolding advance add_warm
  advance-StaysOrDoomed i p w (allocates ctx req) v one a e =
      allocates-StaysOrDoomed i p w ctx req v (λ x. omega (arith, one x)) a e
  advance-StaysOrDoomed i p w (boots ctx req) v one a e = elim (Result-cases (B.boot ctx req w).0) [
    | inl (h, f) ↦ rw f (inl e)
    | inr (x, f) ↦ rw f (inl e)
  ]
  advance-StaysOrDoomed i p w (inserts req h) v one a e = inl (
      insert-StaysOrDoomed i a p req h v
        (held_inactive B (B.id h) h p.active (hit_self (B.id h)) (omega (arith, one (B.id h)))) e)
  advance-StaysOrDoomed i p w (allocated r) v one a e = inl e
  advance-StaysOrDoomed i p w replenishes v one a e = inl e
  advance-StaysOrDoomed i p w (refills zero) v one a e = inl e
  advance-StaysOrDoomed i p w (refills (suc n)) v one a e =
      elim (Result-cases (B.boot background (default_request p.cfg) w).0) [
        | inl (h, f) ↦ rw f (inl e)
        | inr (x, f) ↦ rw f (inl e)
      ]
  advance-StaysOrDoomed i p w (adds n h) v one a e = inl e
  advance-StaysOrDoomed i p w (executes c) v one a e = inl e
  advance-StaysOrDoomed i p w (dispatches c b) v one a e = inl e
  advance-StaysOrDoomed i p w (executed r) v one a e = inl e
  advance-StaysOrDoomed i p w (releases ctx j) v one a e = releases-StaysOrDoomed i j p w ctx v a e
  advance-StaysOrDoomed i p w (shuts_down ctx) v one a e = shuts_down-StaysOrDoomed i p w ctx v a e
  advance-StaysOrDoomed i p w (destroys ctx []) v one a e = inl e
  advance-StaysOrDoomed i p w (destroys ctx (h ∷ hs)) v one a e = inl e
  advance-StaysOrDoomed i p w finished v one a e = inl e

  -- What a goroutine is to destroy, it is still to destroy after a step, or has destroyed.
  pub doomed-le :
      (i : Text) (p : Pool B) (w : B.World) (th : Thread B)
      → let m = advance B p w th in
        count B i (doomed th) ≤ count B i (doomed m.thread) + count B i m.destroyed
  unfolding advance
  doomed-le i p w (destroys ctx []) = omega (arith, count-nil B i)
  doomed-le i p w (destroys ctx (h ∷ hs)) = omega (arith, count-cons B i h hs, count-cons B i h [])
  doomed-le i p w _ = omega (arith, count-nil B i)

  -- A goroutine that is about to call the backend found its allocation in the pool.
  abbrev pub IsFound : Pool B → Thread B → Type 0
  IsFound p (dispatches c a) = Dict.lookup c.id p.active ≡ some a
  IsFound p _ = Unit

  pub advance-IsFound :
      (p : Pool B) (w : B.World) (th : Thread B)
      → let m = advance B p w th in IsFound m.pool m.thread × All (IsFound m.pool) m.spawned
  unfolding advance find_active
  advance-IsFound p w (executes c) = elim (Option-cases (Dict.lookup c.id p.active)) [
    | inl missing ↦ rw missing (tt, tt)
    | inr (a, found) ↦ rw found (found, tt)
  ]
  advance-IsFound p w (allocates ctx req) =
      elim (Option-cases (take_warm B p (with_defaults p.cfg req))) [
        | inl e ↦ rw e (tt, tt)
        | inr ((h, q), e) ↦ rw e ((tt, (tt, tt)))
      ]
  advance-IsFound p w (boots ctx req) = elim (Result-cases (B.boot ctx req w).0) [
    | inl (h, f) ↦ rw f (tt, tt)
    | inr (x, f) ↦ rw f (tt, tt)
  ]
  advance-IsFound p w (inserts req h) = (tt, tt)
  advance-IsFound p w (allocated r) = (tt, tt)
  advance-IsFound p w replenishes = (tt, tt)
  advance-IsFound p w (refills zero) = (tt, tt)
  advance-IsFound p w (refills (suc n)) =
      elim (Result-cases (B.boot background (default_request p.cfg) w).0) [
        | inl (h, f) ↦ rw f (tt, tt)
        | inr (x, f) ↦ rw f (tt, tt)
      ]
  advance-IsFound p w (adds n h) = (tt, tt)
  advance-IsFound p w (dispatches c b) = (tt, tt)
  advance-IsFound p w (executed r) = (tt, tt)
  advance-IsFound p w (releases ctx j) = elim (Option-cases (remove_active B p j).0) [
    | inl e ↦ rw e (tt, tt)
    | inr (a, e) ↦ rw e (tt, tt)
  ]
  advance-IsFound p w (shuts_down ctx) = (tt, tt)
  advance-IsFound p w (destroys ctx []) = (tt, tt)
  advance-IsFound p w (destroys ctx (h ∷ hs)) = (tt, tt)
  advance-IsFound p w finished = (tt, tt)
