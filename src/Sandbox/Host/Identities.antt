-- ===== src/Sandbox/Host/Identities.antt =====
-- sandbox/host.go: its backend meets the contract on identities as long as the first 8 characters of
-- the UUIDs do not repeat, so what holds of a pool under every history holds of a pool over it.
use mathlib.Core.Path.{subst}
use emberbox.Prelude.{Text, text, ◌++◌, take, some, none, Option, ◌≡◌, refl, sym, ap, ◌∙◌}
use emberbox.Errors.{ok}
use emberbox.Context.{Context}
use emberbox.Tool.{Tool, get}
use emberbox.Sandbox.{IssuesFreshIds, AllocRequest}
use emberbox.Sandbox.Handles.{AnyHandle, of_host, of_firecracker, foreign, handle_id, assert_host}
use emberbox.Sandbox.Host.{
  HostWorld, HostBackend, host_backend, boot, exec, destroy, run_tool, tool_context,
}

-- What is relied on: the prefix of a new UUID was not drawn before, and tools draw none away.
pub record FreshPrefixes {W : Type 0} (env : HostWorld W) (b : HostBackend W) : Type 1 where
  pub Drawn : W → Text → Type 0
  pub new_fresh : (w : W) → ¬ Drawn w (take 8 (env.new_uuid w).0)
  pub new_drawn : (w : W) → Drawn (env.new_uuid w).1 (take 8 (env.new_uuid w).0)
  pub new_keeps : (w : W) (i : Text) → Drawn w i → Drawn (env.new_uuid w).1 i
  pub tools_keep :
      (t : Tool W) (name : Text) (ctx : Context) (input : Text) (w : W) (i : Text)
      → get b.tools name ≡ some t
      → Drawn w i
      → Drawn (t.execute ctx input w).1 i

host_prefix_injective : (s t : Text) → text "host-" ++ s ≡ text "host-" ++ t → s ≡ t
unfolding text
host_prefix_injective s t e = cc

module _ {W : Type 0} (env : HostWorld W) (b : HostBackend W) (laws : FreshPrefixes env b) where
  abbrev DrawnFor : W → Text → Type 0
  DrawnFor w i = (u : Text) × (i ≡ text "host-" ++ u) × laws.Drawn w u

  issued_id :
      (w : W) (h : AnyHandle) (req : AllocRequest) (ctx : Context)
      → (boot env b ctx req w).0 ≡ ok h
      → handle_id h ≡ text "host-" ++ take 8 (env.new_uuid w).0
  unfolding boot
  issued_id w h req ctx e =
      let same : of_host (record { id = text "host-" ++ take 8 (env.new_uuid w).0; env = req.env })
          ≡ h =
        cc in
      sym (ap handle_id same)

  run_tool_keeps :
      (ctx : Context) (input : Text) (w : W) (name i : Text) (o : Option (Tool W))
      → get b.tools name ≡ o
      → laws.Drawn w i
      → laws.Drawn (run_tool env b ctx input w o name).1 i
  unfolding run_tool
  run_tool_keeps ctx input w name i none found drawn = drawn
  run_tool_keeps ctx input w name i (some t) found drawn =
      laws.tools_keep t name ctx input w i found drawn

  exec_keeps :
      (ctx : Context) (h : AnyHandle) (name input : Text) (w : W) (i : Text)
      → laws.Drawn w i
      → laws.Drawn (exec env b ctx h name input w).1 i
  unfolding exec assert_host
  exec_keeps ctx (of_host h) name input w i drawn =
      run_tool_keeps (tool_context env b ctx h) input w name i (get b.tools name) refl drawn
  exec_keeps ctx (of_firecracker h) name input w i drawn = drawn
  exec_keeps ctx (foreign j kind) name input w i drawn = drawn

  host_issues : IssuesFreshIds (host_backend env b)
  unfolding boot destroy
  host_issues = record {
    Issued = DrawnFor;
    boot_fresh = λ ctx req w h e old. laws.new_fresh w (
        subst (laws.Drawn w) (host_prefix_injective old.0 _ (sym old.1 ∙ issued_id w h req ctx e))
          old.2);
    boot_issues =
        λ ctx req w h e. (take 8 (env.new_uuid w).0, issued_id w h req ctx e, laws.new_drawn w);
    boot_keeps = λ ctx req w i old. (old.0, old.1, laws.new_keeps w old.0 old.2);
    exec_keeps =
        λ ctx h name input w i old. (old.0, old.1, exec_keeps ctx h name input w old.0 old.2);
    destroy_keeps = λ ctx h w i old. old;
  }
