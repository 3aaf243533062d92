-- ===== src/Tests/Counting.antt =====
-- A backend whose world is the number of boots so far; its identities are words of that length.
use emberbox.Prelude.{
  length-replicate, ℕ, suc, ◌<◌, ◌≡◌, refl, Text, none, false, [], replicate, length, arith,
}
use emberbox.Prelude.Int.{pos}
use emberbox.Errors.{Result, ok}
use emberbox.Sandbox.{Backend, IssuesFreshIds, AllocRequest}
use emberbox.Sandbox.Pool.Sections.{PoolConfig}
use emberbox.Sandbox.Pool.WarmPool.Pairs.{AlwaysBoots}

abbrev pub word : ℕ → Text
word n = replicate n b'a'

abbrev pub counting : Backend
counting = record {
  Handle = Text;
  World = ℕ;
  name = word 1;
  id = λ h. h;
  boot = λ c r w. (ok (word w), suc w);
  exec = λ c h tool input w.
      (ok (record { content = tool; is_error = false; duration_ms = pos 0 }), w);
  destroy = λ c h w. (none, w);
}

length-word : (n : ℕ) → length (word n) ≡ n
length-word n = length-replicate n b'a'

booted_word : (w : ℕ) (h : Text) → ◌≡◌ {A = Result Text} (ok (word w)) (ok h) → length h ≡ w
booted_word w h e = let same : word w ≡ h = cc in rw (← same) (length-word w)

-- It meets the contract: an identity is issued once the count has passed its length.
pub counting-IssuesFreshIds : IssuesFreshIds counting
counting-IssuesFreshIds = record {
  Issued = λ w i. length i < w;
  boot_fresh = λ c r w h e old. omega (arith, booted_word w h e);
  boot_issues = λ c r w h e. omega (arith, booted_word w h e);
  boot_keeps = λ c r w i old. omega arith;
  exec_keeps = λ c h tool input w i old. old;
  destroy_keeps = λ c h w i old. old;
}

pub counting-AlwaysBoots : AlwaysBoots counting
counting-AlwaysBoots c r w = (word w, refl)

abbrev pub two_warm : PoolConfig
two_warm = record {
  pool_size = pos 2;
  default_memory_mb = pos 256;
  default_vcpus = pos 2;
  default_timeout = pos 5000000000;
}

abbrev pub plain_request : AllocRequest
plain_request = record {
  memory_mb = pos 0;
  vcpus = pos 0;
  timeout = pos 0;
  network_access = false;
  control_plane_access = false;
  env = [];
}
