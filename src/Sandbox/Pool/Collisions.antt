-- ===== src/Sandbox/Pool/Collisions.antt =====
-- sandbox/sandbox.go: what Allocate does with an identity that is active already. The identities of
-- sandbox/host.go and sandbox/firecracker.go are cut from a UUID, to 8 and 12 characters, and the
-- pool does not look whether one is in use.
use emberbox.Prelude.Dict.{Dict}
use emberbox.Prelude.{
  ◌∷◌, text_eq-false, All, false, Text, some, none, [], ◌≡◌, ◌≢◌, refl, ap, ◌∙◌, sym, length,
  text_eq, text_eq_iff, Bool-cases, inl, inr, arith,
}
use emberbox.Prelude.Dict
use emberbox.Errors.{ok}
use emberbox.Context.{Context}
use emberbox.Sandbox.{Backend, AllocRequest}
use emberbox.Sandbox.Pool.Sections.{
  handles, pop_warm, Allocation, Pool, with_defaults, take_warm, find_active, insert_active,
}
use emberbox.Sandbox.Pool.Methods.{allocate}
use emberbox.Sandbox.Pool.Ownership.Counts.{IsKeyed, lookup_keyed}

module _ (B : Backend) where
  apart : (j i : Text) (x g : B.Handle) → text_eq j i ≡ false → B.id x ≡ j → B.id g ≡ i → x ≢ g
  apart j i x g differ at_j at_i same = text_eq-false j i differ (sym at_j ∙ (ap B.id same ∙ at_i))

  -- A handle whose identity is no key is not stored.
  absent :
      (i : Text) (g : B.Handle) (m : Dict (Allocation B))
      → IsKeyed B m
      → Dict.lookup i m ≡ none
      → B.id g ≡ i
      → All (λ x. x ≢ g) (handles B m)
  unfolding handles Dict.lookup
  absent i g [] keyed missing at_i = tt
  absent i g ((j, b) ∷ m) (at_j, keyed) missing at_i = elim (Bool-cases (text_eq j i)) [
    | inl same ↦ absurd (ground (arith, missing, same))
    | inr differ ↦
        let later : Dict.lookup i m ≡ none = rw differ at missing in
        (apart j i b.handle g differ at_j at_i, absent i g m keyed later at_i)
  ]

  -- What stood under a key is gone once another handle is stored there.
  replaced :
      (i : Text) (a new : Allocation B) (m : Dict (Allocation B))
      → IsKeyed B m
      → Dict.NodupKeys m
      → Dict.lookup i m ≡ some a
      → new.handle ≢ a.handle
      → All (λ x. x ≢ a.handle) (handles B (Dict.insert i new m))
  unfolding handles Dict.insert Dict.lookup
  replaced i a new [] keyed nodup found other = cc
  replaced i a new ((j, b) ∷ m) (at_j, keyed) (fresh, nodup) found other =
      let at_i = lookup_keyed B i a ((j, b) ∷ m) (at_j, keyed) found in
      elim (Bool-cases (text_eq j i)) [
        | inl same ↦
            let missing : Dict.lookup i m ≡ none = rw (← (text_eq_iff j i).0 same) fresh in
            rw same (other, absent i a.handle m keyed missing at_i)
        | inr differ ↦
            let later : Dict.lookup i m ≡ some a = rw differ at found in
            rw differ (
              apart j i b.handle a.handle differ at_j at_i,
              replaced i a new m keyed nodup later other,
            )
      ]

  module _ (p : Pool B) (ctx : Context) (req : AllocRequest) (w : B.World) (h : B.Handle)
      (a : Allocation B) where
    abbrev full : AllocRequest
    full = with_defaults p.cfg req

    -- With no warm sandbox, if Boot returns a handle under an identity that is active already with
    -- another handle, Allocate returns that identity a second time and leaves the world as Boot
    -- did; the new allocation is found under the identity, the number of active sandboxes is as
    -- before, and the old handle is not among the active ones. The active map has each handle under
    -- its identity and no key twice.
    pub allocate_collides :
        p.warm ≡ []
        → (B.boot ctx full w).0 ≡ ok h
        → find_active B p (B.id h) ≡ some a
        → IsKeyed B p.active
        → Dict.NodupKeys p.active
        → h ≢ a.handle
        → let o = allocate B p ctx req w in
          (o.result ≡ ok (B.id h))
          × (o.world ≡ (B.boot ctx full w).1)
          × (find_active B o.pool (B.id h) ≡ some (record { handle = h; req = full }))
          × (length o.pool.active ≡ length p.active)
          × All (λ x. x ≢ a.handle) (handles B o.pool.active)
    unfolding allocate take_warm insert_active find_active
    allocate_collides none_warm boots active keyed nodup other =
        rw (none_warm, pop_warm, boots)
          (
            refl,
            refl,
            Dict.lookup-insert_self (B.id h) _ p.active,
            rw (Dict.length-insert (B.id h) (record { handle = h; req = full }) p.active, active)
                refl,
            replaced (B.id h) a (record { handle = h; req = full }) p.active keyed nodup active
                other,
          )
