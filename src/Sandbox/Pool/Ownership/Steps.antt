-- ===== src/Sandbox/Pool/Ownership/Steps.antt =====
-- One step of a goroutine of sandbox/sandbox.go, counted identity by identity.
use emberbox.Prelude.{
  ap, refl, List-cases, ℕ, zero, suc, ◌+◌, ◌≤◌, ◌≡◌, refl, Text, List, [], ◌∷◌, arith, inl, inr,
  Option-cases,
}
use emberbox.Prelude.Dict
use emberbox.Prelude.Tally.{hit, hit_self}
use emberbox.Errors.{Result-cases}
use emberbox.Context.{Context}
use emberbox.Sandbox.{Backend, AllocRequest}
use emberbox.Sandbox.Pool.Sections.{
  rev_onto, Allocation, Pool, insert_active, take_warm, remove_active, handles, take_all, add_warm,
  with_defaults,
}
use emberbox.Sandbox.Pool.Threads.{
  boots, destroys, Thread, allocates, inserts, refills, adds, executes, dispatches, releases,
  shuts_down, Move, advance,
}
use emberbox.Sandbox.Pool.Ownership.Counts.{
  count, count_active, IsKeyed, count-append, count-cons, count-nil, count-rev_onto,
  lookup_uncounted, count-insert, count-erase, insert-IsKeyed, erase-IsKeyed,
}

module _ (B : Backend) where
  -- The handles that only this goroutine knows of: booted and not yet stored, or taken out and not
  -- yet destroyed.
  abbrev pub held : Thread B → List B.Handle
  held (inserts req h) = h ∷ []
  held (adds n h) = h ∷ []
  held (destroys ctx hs) = hs
  held _ = []

  abbrev pub count_all : Text → Pool B → Thread B → ℕ
  count_all t p th = count B t p.warm + count_active B t p.active + count B t (held th)

  pub record IsSound (p : Pool B) : Type 0 where
    pub nodup : Dict.NodupKeys p.active
    pub keyed : IsKeyed B p.active

  insert_balance :
      (t : Text) (p : Pool B) (req : AllocRequest) (h : B.Handle)
      → IsSound p
      → count_active B (B.id h) p.active ≡ 0
      → count_active B t (insert_active B p req h).active
        ≡ count_active B t p.active + hit t (B.id h)
  unfolding insert_active
  insert_balance t p req h v z =
      count-insert B t (B.id h) _ p.active (lookup_uncounted B (B.id h) p.active v.keyed z)

  pub insert_warm :
      (p : Pool B) (req : AllocRequest) (h : B.Handle) → (insert_active B p req h).warm ≡ p.warm
  unfolding insert_active
  insert_warm p req h = refl

  insert-IsSound :
      (p : Pool B) (req : AllocRequest) (h : B.Handle)
      → IsSound p
      → IsSound (insert_active B p req h)
  unfolding insert_active
  insert-IsSound p req h v = record {
    nodup = Dict.insert-NodupKeys (B.id h) _ p.active v.nodup;
    keyed = insert-IsKeyed B _ p.active v.keyed;
  }

  pub warm_inactive :
      (x : Text) (h : B.Handle) (hs : List B.Handle) (m : Dict.Dict (Allocation B))
      → hit x (B.id h) ≡ 1
      → count B x (h ∷ hs) + count_active B x m ≤ 1
      → count_active B x m ≡ 0
  warm_inactive x h hs m self one = omega (arith, count-cons B x h hs)

  pub held_inactive :
      (x : Text) (h : B.Handle) (m : Dict.Dict (Allocation B))
      → hit x (B.id h) ≡ 1
      → count_active B x m + count B x (h ∷ []) ≤ 1
      → count_active B x m ≡ 0
  held_inactive x h m self one = omega (arith, count-cons B x h [])

  abbrev pub count_threads : Text → List (Thread B) → ℕ
  count_threads t [] = 0
  count_threads t (th ∷ ths) = count B t (held th) + count_threads t ths

  -- A step only moves identities between the places, but for those that it boots or destroys; it
  -- keeps the map well formed, and the goroutines that it starts hold nothing.
  abbrev pub IsBalanced : Text → Pool B → Thread B → Move B → Type 0
  IsBalanced t p th m =
      (count_all t m.pool m.thread + count B t m.destroyed ≡ count_all t p th + count B t m.booted)
      × IsSound m.pool
      × (count_threads t m.spawned ≡ 0)

  first_balance :
      (t : Text) (p : Pool B) (w : B.World) (ctx : Context) (req : AllocRequest)
      → IsSound p
      → ((x : Text) → count B x p.warm + count_active B x p.active ≤ 1)
      → IsBalanced t p (allocates ctx req) (advance B p w (allocates ctx req))
  unfolding advance take_warm
  first_balance t p w ctx req v one = elim (List-cases p.warm) [
    | inl e ↦ ground (arith, count-nil B t)
    | inr (h, hs, e) ↦
        let q : Pool B = record p { warm = hs } in
        let sound : IsSound q = record { nodup = v.nodup; keyed = v.keyed } in
        let full = with_defaults p.cfg req in
        ground (
          arith,
          count-nil B t,
          count-cons B t h hs,
          insert-IsSound q full h sound,
          insert_balance t q full h sound
              (warm_inactive (B.id h) h hs p.active (hit_self (B.id h)) (rw e at (one (B.id h)))),
        )
  ]

  release_balance :
      (t i : Text) (p : Pool B) (w : B.World) (ctx : Context)
      → IsSound p
      → IsBalanced t p (releases ctx i) (advance B p w (releases ctx i))
  unfolding advance remove_active
  release_balance t i p w ctx v = elim (Option-cases (Dict.lookup i p.active)) [
    | inl e ↦ ground (arith, count-nil B t)
    | inr (a, e) ↦ ground (
      arith,
      count-erase B t i a p.active v.nodup e,
      Dict.erase-NodupKeys i p.active v.nodup,
      erase-IsKeyed B i p.active v.keyed,
      count-cons B t a.handle [],
      count-nil B t,
    )
  ]

  shutdown_balance :
      (t : Text) (p : Pool B) (w : B.World) (ctx : Context)
      → IsBalanced t p (shuts_down ctx) (advance B p w (shuts_down ctx))
  unfolding advance take_all handles
  shutdown_balance t p w ctx = ground (
    arith,
    count-append B t (handles B p.active) (rev_onto B p.warm []),
    count-rev_onto B t p.warm [],
    count-nil B t,
  )

  boot_balance :
      (t : Text) (p : Pool B) (w : B.World) (ctx : Context) (req : AllocRequest)
      → IsSound p
      → IsBalanced t p (boots ctx req) (advance B p w (boots ctx req))
  unfolding advance
  boot_balance t p w ctx req v = elim (Result-cases (B.boot ctx req w).0) [
    | inl (h, e) ↦ ground (arith, count-nil B t)
    | inr (x, e) ↦ ground (arith, count-nil B t)
  ]

  warm_balance :
      (t : Text) (p : Pool B) (w : B.World) (n : ℕ)
      → IsSound p
      → IsBalanced t p (refills (suc n)) (advance B p w (refills (suc n)))
  unfolding advance
  warm_balance t p w n v = ground (arith, count-nil B t)

  insert_step :
      (t : Text) (p : Pool B) (w : B.World) (req : AllocRequest) (h : B.Handle)
      → IsSound p
      → ((x : Text) → count_all x p (inserts req h) ≤ 1)
      → IsBalanced t p (inserts req h) (advance B p w (inserts req h))
  unfolding advance
  insert_step t p w req h v one = (
    omega (
      arith,
      count-nil B t,
      count-cons B t h [],
      ap (count B t) (insert_warm p req h),
      insert_balance t p req h v
          (held_inactive (B.id h) h p.active (hit_self (B.id h)) (omega (arith, one (B.id h)))),
    ),
    insert-IsSound p req h v,
    refl,
  )

  pub advance-IsBalanced :
      (t : Text) (p : Pool B) (w : B.World) (th : Thread B)
      → IsSound p
      → ((x : Text) → count_all x p th ≤ 1)
      → IsBalanced t p th (advance B p w th)
  unfolding advance add_warm
  advance-IsBalanced t p w (allocates ctx req) v one =
      first_balance t p w ctx req v (λ x. omega (arith, one x))
  advance-IsBalanced t p w (boots ctx req) v one = boot_balance t p w ctx req v
  advance-IsBalanced t p w (inserts req h) v one = insert_step t p w req h v one
  advance-IsBalanced t p w (refills zero) v one = ground (arith, count-nil B t)
  advance-IsBalanced t p w (refills (suc n)) v one = warm_balance t p w n v
  advance-IsBalanced t p w (adds n h) v one =
      ground (arith, count-nil B t, count-cons B t h [], count-cons B t h p.warm)
  advance-IsBalanced t p w (executes c) v one = ground (arith, count-nil B t)
  advance-IsBalanced t p w (dispatches c a) v one = ground (arith, count-nil B t)
  advance-IsBalanced t p w (releases ctx i) v one = release_balance t i p w ctx v
  advance-IsBalanced t p w (shuts_down ctx) v one = shutdown_balance t p w ctx
  advance-IsBalanced t p w (destroys ctx []) v one = ground (arith, count-nil B t)
  advance-IsBalanced t p w (destroys ctx (h ∷ hs)) v one =
      ground (arith, count-nil B t, count-cons B t h [], count-cons B t h hs)
  advance-IsBalanced t p w _ v one = ground (arith, count-nil B t)
