-- ===== src/Examples.antt =====
-- Concrete alerts, rows and outcomes that the examples below run the program on.
mod Sending
mod Owners
mod Showing
mod Turns
mod Values
use algo_trading_broker.Prelude.{ℕ, String, true, false, Option, none, some, List, [], ◌∷◌}
use algo_trading_broker.Prelude.Ints.{pos}
use algo_trading_broker.Prelude.Texts.{codes}
use algo_trading_broker.Core.{SignalAction}
use algo_trading_broker.Webhook.{PositionSchema, WebhookPayload}
use algo_trading_broker.Processing.{Config, Pass, Publish, delivered, lost, World}

abbrev pub long_position : PositionSchema
long_position = record {
  action = SignalAction.long;
  price = some (pos 100);
  quantity = some (pos 1);
  sl = some (pos 90);
  tp1 = some (pos 110);
  tp2 = some (pos 120);
  risk_percent = none;
  tp1_percent = none;
  use_equity_sizing = none;
  move_sl_to_be = none;
  is_running = none;
  is_scale_position = none;
  scale_strategy = none;
  scaling = none;
}

abbrev pub long_payload : WebhookPayload
long_payload = record {
  strategy = "trend";
  symbol = codes "BINANCE:btcusdt";
  timeframe = "15";
  timestamp = "2026-01-01T00:00:00Z";
  signal_uxid = codes "0123456789ABCDEF";
  position = long_position;
  indicators = none;
  inputs = none;
  token = "secret";
}

abbrev pub three_attempts : Config
three_attempts = record { max_attempts = 3; broadcasting = true }

-- A pass in which all works but the publish, which ends as given.
abbrev pub pass_with : Publish → ℕ → Pass
pass_with publish new_id = record {
  now = 1000;
  new_id = new_id;
  gate = some none;
  parses = true;
  publish = publish;
  lookup_up = true;
  insert_up = true;
  mark_up = true;
  record_up = true;
  fetch_up = true;
}

abbrev pub empty_world : World
empty_world = record { rows = []; sent = []; broadcasts = []; notices = 0 }
