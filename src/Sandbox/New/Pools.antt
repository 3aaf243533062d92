-- ===== src/Sandbox/New/Pools.antt =====
-- What New of sandbox/sandbox.go returns.
use emberbox.Sandbox.New.Laws.{select_backend-SelectOutcome, SelectOutcome}
use emberbox.Prelude.{◌≤◌, Text, [], length, ◌≡◌, ◌⊎◌, inl, inr, refl}
use emberbox.Errors.{Error}
use emberbox.Sandbox.{Backend}
use emberbox.Sandbox.Pool.Sections.{Pool, rounds}
use emberbox.Sandbox.Pool.WarmPool.{start_le}
use emberbox.Sandbox.New.{
  Config, Choice, Selected, selected, refused, NewPool, failed, made, new_pool, start_selected,
  select_backend,
}

module _ {W : Type 0} (getwd temp_dir : Text) (quote : Text → Text)
    (realize : Choice W → (B : Backend) × B.World) (cfg : Config W) where
  -- The pool is over the backend, has at most PoolSize warm sandboxes, and none active.
  abbrev pub IsFresh : Backend → NewPool → Type 1
  IsFresh B o =
      (p : Pool B) × (w : B.World) × (o ≡ made B p w)
      × (length p.warm ≤ rounds cfg.pool.pool_size)
      × (p.active ≡ [])

  abbrev pub NewOutcome : NewPool → Type 1
  NewOutcome o =
      ((e : Error) × (select_backend getwd temp_dir quote cfg ≡ refused e) × (o ≡ failed e))
      ⊎ ((c : Choice W) × (select_backend getwd temp_dir quote cfg ≡ selected c)
          × IsFresh (realize c).0 o)

  selected-NewOutcome :
      (s : Selected W)
      → select_backend getwd temp_dir quote cfg ≡ s
      → NewOutcome (start_selected getwd temp_dir quote realize cfg.pool s)
  selected-NewOutcome (refused e) chosen = inl (e, chosen, refl)
  selected-NewOutcome (selected c) chosen =
      let (size, none_active) = start_le (realize c).0 cfg.pool (realize c).1 in
      inr (c, chosen, (_, _, refl, size, none_active))

  -- A backend that is set is taken as it is. Else the mode decides, the host's if none is set: the
  -- host backend, if there are tools, and an error without; the Firecracker backend with the paths
  -- of the configuration, a size for the memory and the default port; and an error in any other
  -- mode. New fails exactly when this choice does, with its error, and else returns a pool over
  -- the chosen backend, with at most PoolSize warm sandboxes, however many boots fail, and no
  -- active one.
  pub new_pool_lem :
      SelectOutcome getwd temp_dir quote cfg (select_backend getwd temp_dir quote cfg)
      × NewOutcome (new_pool getwd temp_dir quote realize cfg)
  unfolding new_pool
  new_pool_lem = (
    select_backend-SelectOutcome getwd temp_dir quote cfg,
    selected-NewOutcome (select_backend getwd temp_dir quote cfg) refl,
  )
