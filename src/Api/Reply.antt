-- ===== src/Api/Reply.antt =====
-- server/internal/api: the answers of the HTTP handlers that are modelled.
use wsms_gateway.Base.{ℕ, Bool, Option, List}
use wsms_gateway.Models.Enums.{Operator, Encoding, MessageStatus}
use wsms_gateway.Models.Records.{Message, MessageEvent, Device, Sim}
use wsms_gateway.Ws.Protocol.{SimState}

-- The reasons that `readyz` gives.
pub data Reason : Type 0 where
  db_unreachable no_device_online no_sim_ready : Reason

pub data Reply : Type 0 where
  -- An error with its status code.
  refused : ℕ → Reply
  done : Reply
  replay : (id : ℕ) → MessageStatus → Reply
  accepted : (id : ℕ) → Operator → Encoding → (segments expires_at : ℕ) → Reply
  cancelled : (id : ℕ) → Reply
  cancel_requested : (id : ℕ) → Reply
  message : Message → List MessageEvent → Reply
  sims : List SimState → Reply
  enrolled : (device_id : ℕ) → Reply
  messages : List Message → Reply
  devices : List (Device × Bool) → (online_count : ℕ) → Reply
  fleet : List Sim → (on_net_ready : Option (List (Operator × ℕ))) → Reply
  not_ready : List Reason → Reply
