-- ===== src/Proxy/Upgrade/Settled.antt =====
-- The counts of active connections after an upgrade.
use goichi.Prelude.{◌≡◌, refl, ◌∙◌, Option, none, some, ℕ}
use goichi.Prelude.Text.{Bytes}
use goichi.Proxy.Balancer.{Balancer, pick}
use goichi.Proxy.Forward.{Config, Upstream, enter, on_target}
use goichi.Proxy.Forward.Retries.{leave-enter, pick-targets}
use goichi.Proxy.Upgrade.{
  Wire, Upgraded, not_upgraded, hijacked, on_hijacked, after_dial, upgrade_to, do_upgrade,
}

module _ {S : Type 0} (W : Wire S) where
  -- The connection that an upgrade leaves runs to its end.
  abbrev pub settle : (Balancer × S) × Upgraded → Balancer × S
  settle (here, not_upgraded err) = here
  settle ((b, s), hijacked i) = on_hijacked W i b s

  after_dial-targets :
      (i : ℕ) (b : Balancer) (r : S × Option Bytes)
      → (settle (after_dial W i (on_target enter i b) r)).0.targets ≡ b.targets
  unfolding on_hijacked
  after_dial-targets i b (s, some err) = leave-enter i b.targets
  after_dial-targets i b (s, none) = leave-enter i b.targets

  upgrade_to-targets :
      (cfg : Config) (path query : Bytes) (choice : Balancer × Option ℕ) (s : S)
      → (settle (upgrade_to W cfg path query choice s)).0.targets ≡ choice.0.targets
  upgrade_to-targets cfg path query (b, none) s = refl
  upgrade_to-targets cfg path query (b, some i) s = after_dial-targets i b _

  -- Whether no target is up, the dialing fails, or the connection is relayed and ends at whichever step,
  -- every target has as many active requests after an upgrade as before it.
  pub do_upgrade-targets :
      (U : Upstream S) (cfg : Config) (key path query : Bytes) (b : Balancer) (s : S)
      → (settle (do_upgrade W U cfg key path query b s)).0.targets ≡ b.targets
  unfolding do_upgrade
  do_upgrade-targets U cfg key path query b s =
      upgrade_to-targets cfg path query (pick b key (U.draw s)) (U.drawn s)
      ∙ pick-targets b key (U.draw s)
