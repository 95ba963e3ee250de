-- ===== src/Samples.antt =====
-- Rows for tests and witnesses: one device with a Telkomsel and an XL SIM, and messages to it.
use wsms_gateway.Base.{◌+◌, true, false, none, some, [], ◌∷◌}
use wsms_gateway.Models.Enums.{
  Operator, Encoding, DeviceStatus, SimStatus, MessageStatus, RoutingPolicy, FallbackMode,
}
use wsms_gateway.Models.Records.{Device, Sim, Message, Db}
use wsms_gateway.Router.Engine.{World, FallbackConfig}
use wsms_gateway.Ws.Hub.{Conn, Hub}
use wsms_gateway.Dispatch.State.{State, Env}

abbrev pub phone : Device
phone = record {
  id = 1;
  name = [];
  status = DeviceStatus.online;
  last_seen_at = none;
  app_version = [];
  push_token = [];
  secret_hash = [];
  wake_misses = 0;
  created_at = 0;
  updated_at = 0;
  deleted = false;
}

abbrev pub tsel_sim : Sim
tsel_sim = record {
  id = 10;
  device_id = 1;
  slot = 0;
  subscription_id = 1;
  operator = Operator.telkomsel;
  operator_locked = false;
  msisdn = [];
  status = SimStatus.ready;
  daily_quota = 200;
  sent_today = 5;
  sent_window = 5;
  min_gap_ms = 8000;
  health_score = 100;
  cooldown_until = none;
  last_used_at = none;
  created_at = 0;
  updated_at = 0;
  deleted = false;
}

abbrev pub xl_sim : Sim
xl_sim = record tsel_sim {
  id = 11;
  slot = 1;
  subscription_id = 2;
  operator = Operator.xl;
  sent_today = 0;
  sent_window = 0;
}

abbrev pub otp : Message
otp = record {
  id = 100;
  client_id = 7;
  target_msisdn = [];
  target_operator = Operator.telkomsel;
  body = [];
  encoding = Encoding.gsm7;
  segments = 2;
  status = MessageStatus.queued;
  routing_policy = RoutingPolicy.on_net_pref;
  assigned_sim_id = none;
  assigned_device_id = none;
  assigned_operator = none;
  dedup_key = none;
  payload_hash = [];
  attempts = 0;
  max_attempts = 3;
  callback_url = [];
  last_error = [];
  expires_at = 600000;
  dispatched_at = none;
  created_at = 1000;
  updated_at = 1000;
}

abbrev pub fleet_db : Db
fleet_db = record {
  devices = phone ∷ [];
  sims = tsel_sim ∷ xl_sim ∷ [];
  messages = otp ∷ [];
  events = [];
  sends = [];
  deliveries = [];
  audits = [];
  clients = [];
  keys = [];
  tokens = [];
  users = [];
  sessions = [];
  settings = [];
  prefixes = [];
}

abbrev pub calm : World
calm = record { now = 100000; locked = λ i. false; random = λ i. i; answers = λ n. true }

abbrev pub spread : FallbackConfig
spread = record { mode = FallbackMode.least_loaded; op = Operator.unknown }

abbrev pub quiet : Env
quiet = record {
  engine = calm;
  locked_message = λ i. false;
  ledger_stored = true;
  pick = true;
  has_waker = false;
  push_accepted = λ t. true;
  ids = record { new_id = λ n. n + 1000; answers = λ n. true };
  fallback = spread;
  min_remaining_ttl = 10000;
  delivery_wait = 900000;
}

abbrev pub phone_conn : Conn
phone_conn = record { serial = 5; device_id = 1; send = []; done = false }

abbrev pub phone_hub : Hub
phone_hub = record { conns = record { device_id = 1; conn = 5 } ∷ []; heap = phone_conn ∷ [] }

abbrev pub start : State
start = record { db = fleet_db; hub = phone_hub; last_wake = []; pushed = [] }

-- A message that was delivered over the Telkomsel SIM.
abbrev pub delivered_otp : Message
delivered_otp = record otp {
  status = MessageStatus.delivered;
  assigned_sim_id = some 10;
  assigned_device_id = some 1;
  assigned_operator = some Operator.telkomsel;
  dispatched_at = some 100000;
  attempts = 1;
}

abbrev pub late_db : Db
late_db = record fleet_db { messages = delivered_otp ∷ [] }

abbrev pub late_state : State
late_state = record start { db = late_db }
