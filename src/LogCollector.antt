-- ===== src/LogCollector.antt =====
-- clusterstate/utils/logging.go: a collector of recent log entries.
pub mod Laws
use auto_repair.Common.{
  ℕ, suc, ◌+◌, ◌-◌, ◌*◌, String, Bool, List, [], ◌∷◌, ◌++◌, if◌then◌else◌, ltb, length, drop,
}
use auto_repair.Env.{minute}

pub data LogLevel : Type 0 where
  debug info warning error : LogLevel

pub record LogItem : Type 0 where
  pub log : String
  pub level : LogLevel
  pub timestamp : ℕ

abbrev pub default_log_collector_max_items : ℕ
default_log_collector_max_items = 50

abbrev pub default_log_collector_item_lifetime : ℕ
default_log_collector_item_lifetime = 15 * minute

-- The lock makes each method one step.
pub record LogCollector : Type 0 where
  pub max_items : ℕ
  pub item_lifetime : ℕ
  pub store : List LogItem

unfoldable pub new_log_collector : LogCollector
new_log_collector = record {
  max_items = default_log_collector_max_items;
  item_lifetime = default_log_collector_item_lifetime;
  store = [];
}

-- timestamp.After(now.Add(-lifetime)), without the difference
abbrev pub is_fresh : ℕ → ℕ → LogItem → Bool
is_fresh lifetime now i = ltb now (i.timestamp + lifetime)

-- How far the loop of `compact` moves the first index over the given items.
unfoldable pub count_old : ℕ → ℕ → List LogItem → ℕ
count_old lifetime now [] = 0
count_old lifetime now (i ∷ is) =
    let rest = count_old lifetime now is in if is_fresh lifetime now i then 0 else suc rest

unfoldable pub compact : ℕ → LogCollector → LogCollector
unfolding count_old
compact now lc =
    let start = if ltb lc.max_items (length lc.store) then length lc.store - lc.max_items else 0 in
    let first_index = start + count_old lc.item_lifetime now (drop start lc.store) in
    if ltb 0 first_index then record lc { store = drop first_index lc.store } else lc

-- `Log`, at the given time.
unfoldable pub add_log : String → LogLevel → ℕ → LogCollector → LogCollector
unfolding compact
add_log msg level now lc =
    compact now (record lc {
      store = lc.store ++ (record { log = msg; level = level; timestamp = now } ∷ []);
    })

unfoldable pub get_logs : ℕ → LogCollector → List LogItem × LogCollector
unfolding compact
get_logs now lc = let lc' = compact now lc in (lc'.store, lc')
