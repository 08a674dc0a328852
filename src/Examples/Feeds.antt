-- ===== src/Examples/Feeds.antt =====
-- crates/ancre-gateway/src/config_feed.rs: a poll that installs a later generation, and the chains
-- of a change.
use ancre.Prelude.{ℕ, false, ◌↔◌, List, [], ◌++◌, none, ok, Text, text}
use mathlib.Core.List.{Memᴰ}
use ancre.Prelude.Int.{pos}
use ancre.Config.{seal_envelope}
use ancre.Chain.{ChainId}
use ancre.Resolver.{default_policy}
use ancre.Resolver.Diff.{diff}
use ancre.Gateway.ConfigFeed.{
  SnapshotSource, ConfigFeed, Clocks, poll_once, affected_chains, bindings_of, systems_of,
}
use ancre.Gateway.ConfigFeed.Sound.{IsSound, poll_once-IsSound}
use ancre.Gateway.ConfigFeed.Affected.{Gives, affected_chains_iff}
use ancre.Examples.Codec.{example_digest, example_order, example_ciborium}
use ancre.Examples.Config.{
  name_only, small_spec, small_hash, small_snapshot, next_snapshot, small_snapshot-IsSnapshot,
}

-- A control plane that has the same contents as a later generation.
abbrev pub later_plane : SnapshotSource
later_plane = record {
  State = Unit {0};
  fetch = λ s. (ok (seal_envelope (record small_spec { generation = 9 }) small_hash), tt);
}

abbrev pub warm_feed : ConfigFeed
warm_feed = record {
  resolver = record {
    current = record { snap = small_snapshot; loaded_at = 100; cold = false };
    policy = default_policy;
  };
  node_id = text "n";
  sent = [];
}

abbrev pub poll_clocks : Clocks
poll_clocks = record { wall = pos 5; local = 200; elapsed = none }

abbrev pub empty_ids : ℕ → List ℕ
empty_ids n = []

poll_once-IsSound_example :
    IsSound name_only poll_clocks warm_feed
      (later_plane.fetch tt).0
      (poll_once name_only later_plane poll_clocks empty_ids tt warm_feed).0
poll_once-IsSound_example =
    poll_once-IsSound name_only later_plane poll_clocks empty_ids tt warm_feed
      small_snapshot-IsSnapshot

abbrev pub hr_chain : ChainId
hr_chain = record { tenant_id = text "t"; system_id = text "hr" }

affected_chains_iff_example :
    Memᴰ hr_chain
      (affected_chains small_snapshot next_snapshot (diff none small_snapshot next_snapshot))
    ↔ ((id : Text) × Memᴰ id (systems_of (diff none small_snapshot next_snapshot))
        × Gives (bindings_of next_snapshot ++ bindings_of small_snapshot) id hr_chain)
affected_chains_iff_example =
    affected_chains_iff small_snapshot next_snapshot (diff none small_snapshot next_snapshot)
      hr_chain
