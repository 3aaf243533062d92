-- ===== src/Tests/ToyFleet.antt =====
-- A host on which any number of microVMs boot: their UUIDs and their processes are numbered. Every
-- process ignores SIGTERM.
use emberbox.Prelude.{
  ◌++◌, ◌==◌, ◌<◌, Text, ◌∷◌, [], ℕ, suc, Bool, true, false, none, some, ◌≡◌, refl, arith,
  if◌then◌else◌,
}
use emberbox.Prelude.Int.{pos}
use emberbox.Errors.{ok, err, sentinel, eof, deadline_exceeded}
use emberbox.Sandbox.AgentClient.{Transport}
use emberbox.Sandbox.FirecrackerApi.{Http}
use emberbox.Sandbox.Firecracker.Machine.{Machine, Launch}
use emberbox.Sandbox.Firecracker.Boot.{Host}
use emberbox.Sandbox.Firecracker.Laws.{Stops}
use emberbox.Sandbox.Firecracker.Keeping.{IsKept}
use emberbox.Sandbox.Firecracker.Identities.{FreshVms}
use emberbox.Sandbox.Firecracker.Retirement.{Reaps}
use emberbox.Tests.Toys.{toy_json}

pub record Fleet : Type 0 where
  pub drawn : ℕ
  pub exited : ℕ → Bool

abbrev pub reap : ℕ → Fleet → Fleet
reap pid w = record w { exited = λ p. if p == pid then true else w.exited p }

abbrev fleet_machine : Machine Fleet
fleet_machine = record {
  mkdir_temp = λ root pattern w. (ok (b'd' ∷ []), w);
  remove_all = λ d w. (none, w);
  create = λ f w. (ok 5, w);
  close_file = λ f w. w;
  start = λ program args f w. (ok w.drawn, w);
  kill_group = λ pid signal w. (none, w);
  exits = λ pid d w. (false, w);
  wait = reap;
  new_uuid = λ w. (w.drawn ∷ [], record w { drawn = suc w.drawn });
}

abbrev fleet_transport : Transport Fleet
fleet_transport = record {
  Conn = Unit;
  dial = λ ctx limit path w. (ok tt, w);
  set_deadline = λ c d w. w;
  send = λ c bytes w. (none, w);
  read_line = λ c w. (ok (b'O' ∷ b'K' ∷ b' ' ∷ b'1' ∷ b'\n' ∷ []), w);
  receive = λ c w. (err (sentinel eof), w);
  close = λ c w. w;
}

abbrev fleet_http : Http Fleet
fleet_http = record {
  marshal = λ body. ok [];
  new_request = λ url. none;
  put = λ ctx socket path body w. (ok (204, []), w);
  connect = λ ctx socket w. (none, w);
}

abbrev pub fleet : Host Fleet
fleet = record {
  machine = fleet_machine;
  http = fleet_http;
  transport = fleet_transport;
  json = toy_json;
  now = λ w. pos 0;
  ends = λ ctx w. (0, sentinel deadline_exceeded);
  join_path = λ a b. a ++ b;
  quote = λ s. s;
}

abbrev pub fleet_launch : Launch Fleet
fleet_launch ctx api_path dir log_file w = (ok (some w.drawn), w)

-- What depends on the UUIDs drawn, or on the processes that exited, and survives more of them.
pub fleet-IsKept :
    (P : Fleet → Type 0)
    → ((w : Fleet) → P w → P (record w { drawn = suc w.drawn }))
    → ((pid : ℕ) (w : Fleet) → P w → P (reap pid w))
    → IsKept fleet P
fleet-IsKept P drawing reaping = record {
  mkdir_temp = λ root pattern w p. p;
  remove_all = λ d w p. p;
  create = λ f w p. p;
  close_file = λ f w p. p;
  kill_group = λ pid signal w p. p;
  exits = λ pid d w p. p;
  wait = reaping;
  new_uuid = drawing;
  put = λ ctx socket path body w p. p;
  connect = λ ctx socket w p. p;
  dial = λ ctx timeout path w p. p;
  set_deadline = λ c d w p. p;
  send = λ c bytes w p. p;
  read_line = λ c w p. p;
  receive = λ c w p. p;
  close = λ c w p. p;
}

abbrev pub WasDrawn : Fleet → Text → Type 0
WasDrawn w i = (n : ℕ) × (n < w.drawn) × (i ≡ n ∷ [])

pub head_injective : (n m : ℕ) → ◌≡◌ {A = Text} (n ∷ []) (m ∷ []) → n ≡ m
head_injective n m e = cc

abbrev pub fleet-FreshVms : FreshVms fleet fleet_launch
fleet-FreshVms = record {
  Drawn = WasDrawn;
  new_fresh = λ w old. absurd (omega (arith, old.1, head_injective w.drawn old.0 old.2));
  new_drawn = λ w. (w.drawn, omega arith, refl);
  kept = λ i.
      fleet-IsKept (λ w. WasDrawn w i) (λ w old. (old.0, omega (arith, old.1), old.2))
        (λ pid w old. old);
  launch_kept = λ i ctx api_path dir log_file w old. old;
}

pub reaped : (p pid : ℕ) (w : Fleet) → w.exited p ≡ true → (reap pid w).exited p ≡ true
reaped p pid w gone = ground arith

pub reaped_self : (pid : ℕ) (w : Fleet) → (reap pid w).exited pid ≡ true
reaped_self pid w = ground arith

pub never_exits : (pid : ℕ) (w : Fleet) → ◌≡◌ {A = Bool} false true → w.exited pid ≡ true
never_exits pid w e = absurd cc

abbrev fleet-Stops : Stops fleet_machine
fleet-Stops = record {
  IsGone = λ pid w. w.exited pid ≡ true;
  exits_gone = λ pid d w e. never_exits pid w e;
  wait_gone = reaped_self;
  close_keeps = λ f pid w gone. gone;
  remove_keeps = λ d pid w gone. gone;
}

abbrev pub fleet-Reaps : Reaps fleet fleet_launch
fleet-Reaps = record {
  stops = fleet-Stops;
  kept = λ p.
      fleet-IsKept (λ w. w.exited p ≡ true) (λ w gone. gone) (λ pid w gone. reaped p pid w gone);
  launch_kept = λ p ctx api_path dir log_file w gone. gone;
}
