-- ===== src/Sandbox/Pool/Sections.antt =====
-- sandbox/sandbox.go: the state of a Pool, and what each method does while it holds the lock.
use emberbox.Prelude.{
  ℕ, Text, Option, none, some, List, [], ◌∷◌, ◌++◌, false, length, if◌then◌else◌,
}
use emberbox.Prelude.Int.{ℤ, pos, ◌-ℤ◌, eqb_ℤ, pos_part}
use emberbox.Prelude.Dict
use emberbox.Prelude.Dict.{Dict}
use emberbox.Sandbox.{Backend, AllocRequest}

-- The fields of Config that a running pool reads.
pub record PoolConfig : Type 0 where
  pub pool_size : ℤ
  pub default_memory_mb : ℤ
  pub default_vcpus : ℤ
  pub default_timeout : ℤ

pub record Allocation (B : Backend) : Type 0 where
  pub handle : B.Handle
  pub req : AllocRequest

pub record Pool (B : Backend) : Type 0 where
  pub cfg : PoolConfig
  pub warm : List B.Handle
  pub active : Dict (Allocation B)

-- `if x == 0 { x = d }`.
abbrev pub or_default : ℤ → ℤ → ℤ
or_default x d = if eqb_ℤ x (pos 0) then d else x

-- `for range n` makes no round for a negative n.
abbrev pub rounds : ℤ → ℕ
rounds = pos_part

unfoldable pub with_defaults : PoolConfig → AllocRequest → AllocRequest
with_defaults cfg req = record req {
  timeout = or_default req.timeout cfg.default_timeout;
  memory_mb = or_default req.memory_mb cfg.default_memory_mb;
  vcpus = or_default req.vcpus cfg.default_vcpus;
}

-- The request for a warm sandbox.
unfoldable pub default_request : PoolConfig → AllocRequest
default_request cfg = record {
  memory_mb = cfg.default_memory_mb;
  vcpus = cfg.default_vcpus;
  timeout = pos 0;
  network_access = false;
  control_plane_access = false;
  env = [];
}

module _ (B : Backend) where
  unfoldable pub empty_pool : PoolConfig → Pool B
  empty_pool cfg = record { cfg = cfg; warm = []; active = [] }

  -- p.active[h.ID()] = &allocation{handle: h, req: req}
  unfoldable pub insert_active : Pool B → AllocRequest → B.Handle → Pool B
  insert_active p req h = record p {
    active = Dict.insert (B.id h) (record { handle = h; req = req }) p.active;
  }

  unfoldable pub pop_warm : List B.Handle → AllocRequest → Pool B → Option (B.Handle × Pool B)
  unfolding insert_active
  pop_warm [] req p = none
  pop_warm (h ∷ hs) req p = some (h, insert_active (record p { warm = hs }) req h)

  -- The first critical section of Allocate: take a warm sandbox, if there is one.
  unfoldable pub take_warm : Pool B → AllocRequest → Option (B.Handle × Pool B)
  unfolding pop_warm
  take_warm p req = pop_warm p.warm req p

  unfoldable pub find_active : Pool B → Text → Option (Allocation B)
  find_active p i = Dict.lookup i p.active

  -- The critical section of Release.
  unfoldable pub remove_active : Pool B → Text → Option (Allocation B) × Pool B
  remove_active p i = elim (Dict.lookup i p.active) [
    | none ↦ (none, p)
    | some a ↦ (some a, record p { active = Dict.erase i p.active })
  ]

  unfoldable pub handles : Dict (Allocation B) → List B.Handle
  handles [] = []
  handles ((i, a) ∷ m) = a.handle ∷ handles m

  unfoldable pub rev_onto : List B.Handle → List B.Handle → List B.Handle
  rev_onto [] out = out
  rev_onto (h ∷ hs) out = rev_onto hs (h ∷ out)

  -- The critical section of Shutdown: the handles in the order in which it destroys them. Go
  -- leaves the order of the active ones open, and no theorem depends on it.
  unfoldable pub take_all : Pool B → List B.Handle × Pool B
  unfolding rev_onto
  take_all p = (handles p.active ++ rev_onto p.warm [], record p { active = []; warm = [] })

  -- needed := p.cfg.PoolSize - len(p.warm)
  unfoldable pub needed : Pool B → ℤ
  needed p = p.cfg.pool_size -ℤ pos (length p.warm)

  unfoldable pub add_warm : Pool B → B.Handle → Pool B
  add_warm p h = record p { warm = h ∷ p.warm }

  unfoldable pub status : Pool B → ℕ × ℕ
  status p = (length p.warm, length p.active)
