-- ===== src/Api/Listing.antt =====
-- server/internal/api/devices.go, listMessages of messages.go, and the probes of server.go: the
-- requests that only read. Texts are ordered by their code points.
use wsms_gateway.Base.{
  ℕ, Bool, true, false, not, ◌&&◌, ◌||◌, none, some, List, [], ◌∷◌, ◌++◌, ltb, ◌==◌, any, select,
  count, limit, order_by, if◌then◌else◌,
}
use wsms_gateway.Models.Enums.{Operator, operator_eq, is_ready, is_online}
use wsms_gateway.Models.Names.{status_text, operator_text}
use wsms_gateway.Models.Records.{Text, is_empty, Device, Sim, Message, Db}
use wsms_gateway.Text.{text_eq}
use wsms_gateway.Ws.Hub.{Hub, online, online_count}
use wsms_gateway.Api.Reply.{Reply, Reason}

abbrev pub text_before : Text → Text → Bool
text_before [] [] = false
text_before [] (d ∷ t) = true
text_before (c ∷ s) [] = false
text_before (c ∷ s) (d ∷ t) = ltb c d || (c == d && text_before s t)

-- A query parameter that is left out filters nothing.
abbrev pub matches : Text → Text → Bool
matches want value = is_empty want || text_eq value want

abbrev pub newer : Message → Message → Bool
newer a b = ltb b.created_at a.created_at

-- What the conditions of `listMessages` let through.
abbrev pub is_listed : ℕ → Text → Text → Message → Bool
is_listed client status operator m =
    m.client_id == client
    && (matches status (status_text m.status) && matches operator (operator_text m.target_operator))

-- `listMessages`, with its query parameters `status` and `operator`.
unfoldable pub list_messages : ℕ → Text → Text → Db → Reply
unfolding order_by limit status_text operator_text
list_messages client status operator db =
    Reply.messages
      (limit 50 (order_by newer (select (is_listed client status operator) db.messages)))

annotated : Hub → List Device → List (Device × Bool)
unfolding online
annotated hub [] = []
annotated hub (d ∷ ds) = (d, online hub d.id) ∷ annotated hub ds

abbrev pub by_name : Device → Device → Bool
by_name a b = text_before a.name b.name

unfoldable pub list_devices : Hub → Db → Reply
unfolding annotated order_by online_count
list_devices hub db =
    Reply.devices
      (annotated hub (order_by by_name (select (λ (d : Device). not d.deleted) db.devices)))
      (online_count hub)

abbrev pub by_slot : Sim → Sim → Bool
by_slot a b = ltb a.device_id b.device_id || (a.device_id == b.device_id && ltb a.slot b.slot)

-- A READY SIM joined with its devices that are ONLINE; the join does not look at deleted devices.
abbrev pub is_on_net_ready : List Device → Sim → Bool
is_on_net_ready devices s =
    is_ready s.status
    && (not s.deleted && any (λ (d : Device). d.id == s.device_id && is_online d.status) devices)

-- The groups of `GROUP BY operator`, in no order of the source's.
abbrev pub operators : List Operator
operators =
    Operator.telkomsel ∷ Operator.indosat ∷ Operator.xl ∷ Operator.axis ∷ Operator.tri
    ∷ Operator.smartfren ∷ Operator.unknown ∷ []

ready_groups : Db → List Operator → List (Operator × ℕ)
unfolding count
ready_groups db [] = []
ready_groups db (op ∷ ops) =
    let n =
      count (λ (s : Sim). is_on_net_ready db.devices s && operator_eq s.operator op) db.sims in
    let rest = ready_groups db ops in if n == 0 then rest else (op, n) ∷ rest

-- `listSims`, with or without `on_net_ready=true`.
unfoldable pub list_sims : Bool → Db → Reply
unfolding ready_groups order_by
list_sims ready db =
    Reply.fleet (order_by by_slot (select (λ (s : Sim). not s.deleted) db.sims))
      (if ready then some (ready_groups db operators) else none)

-- `healthz`; the argument says whether the database answers a ping.
unfoldable pub healthz : Bool → Reply
healthz pings = if pings then Reply.done else Reply.refused 503

abbrev no_database : Bool → List Reason
no_database pings = if pings then [] else Reason.db_unreachable ∷ []

abbrev no_device : Hub → List Reason
no_device hub = if online_count hub == 0 then Reason.no_device_online ∷ [] else []

-- A count that the database does not answer is 0.
abbrev no_sim : Bool → Db → List Reason
no_sim counts db =
    if counts && not (count (λ (s : Sim). is_ready s.status && not s.deleted) db.sims == 0)
    then []
    else Reason.no_sim_ready ∷ []

abbrev ready_or : List Reason → Reply
ready_or [] = Reply.done
ready_or (r ∷ rs) = Reply.not_ready (r ∷ rs)

-- `readyz`; the arguments say whether the database answers the ping, and the count.
unfoldable pub readyz : Bool → Bool → Hub → Db → Reply
unfolding online_count count
readyz pings counts hub db = ready_or (no_database pings ++ (no_device hub ++ no_sim counts db))
