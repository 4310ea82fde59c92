-- ===== src/Tier/Caps.antt =====
-- src/tier/types.ts and src/tier/caps.ts: the tiers and their caps.
use critalarm_server.Prelude.{ℕ, Option, none, some}

pub data Tier : Type 0 where
  free relay hosted : Tier

-- A null cap is none.
pub record Caps : Type 0 where
  pub devices : ℕ
  pub critical_topics : Option ℕ
  pub p4_daily : ℕ
  pub history_days : ℕ

abbrev pub caps_for : Tier → Caps
caps_for free = record { devices = 5; critical_topics = some 2; p4_daily = 50; history_days = 7 }
caps_for relay = record { devices = 5; critical_topics = none; p4_daily = 1000; history_days = 90 }
caps_for hosted = record { devices = 5; critical_topics = none; p4_daily = 1000; history_days = 90 }

-- A row of `accounts`, the columns that are read here.
pub record AccountRow : Type 0 where
  pub id : ℕ
  pub tier : Tier
