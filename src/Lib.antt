-- ===== src/Lib.antt =====
-- A household assistant on WhatsApp (src/): two people talk to one agent, whose risky actions wait
-- for an approval and whose replies go out over a socket that comes and goes. The development
-- follows the program's parts:
--
-- - Hitl: what waits for an approval. Hitl.Table is the table `pending_actions` with the statements
--   of src/memory/store.ts and the guarded transitions of src/hitl/pending-actions.ts; Hitl.Binding
--   is src/hitl/approval-binding.ts, Hitl.Resolve src/hitl/resolve-approval.ts, Hitl.Refine
--   src/hitl/refine-action.ts. Hitl.Value has the JavaScript values that the rows store and
--   `toolCallSchema` of src/agent/context.ts. Hitl.Digest is src/hitl/digest.ts, Hitl.Prompting
--   src/hitl/approval-prompt.ts with `recordApprovalSend` of src/memory/store.ts. Hitl.History
--   strings these operations together.
-- - Tools: src/tools/define-tool.ts, src/tools/registry.ts and src/hitl/park.ts. A tool call of the
--   model (`run_tool`) either runs or adds the row that Hitl.Resolve later settles.
-- - Transport: src/transport/send-class.ts with the `sent_log` statements of src/memory/store.ts.
--   Transport.SendClass has the classes and the errors, Transport.Resilient the retry loop,
--   Transport.Deliver the delivery of a reply and the dead letters.
-- - Orchestration.Debounce is src/orchestration/debounce.ts: the inbox rows of a conversation as
--   batches, each of them one turn. Orchestration.Ingest is src/orchestration/ingest.ts, from a
--   message of the transport to the inbox; Orchestration.Sweep the body that src/hitl/expiry.ts and
--   src/orchestration/scheduled.ts share. Orchestration.Drain is the loop of
--   src/orchestration/queue.ts that empties the inbox of a conversation batch by batch,
--   Orchestration.Enqueue what puts an item there.
-- - Agent: Agent.Route is src/agent/turn-route.ts and Agent.Route.Turn src/agent/route-turn.ts, the
--   choice of a model tier; Agent.Compaction is src/agent/compaction.ts. Agent.HandleTurn is the
--   workflow of src/agent/handle-turn.ts: its children Inbound, Rounds and Turn follow the source
--   from top to bottom, and what the workflow is composed of (the tools, the model, the resolvers
--   of Hitl, the router) comes in as a record of functions. Agent.Batch, Agent.Prompts,
--   Agent.Relatedness and Agent.Untrusted are src/agent/context.ts, prompts.ts, relatedness.ts and
--   untrusted.ts.
-- - Tools.Facts is src/tools/facts.ts with the fact searches of src/memory/store.ts, Tools.Lists and
--   Tools.Reminders are src/tools/lists.ts and src/tools/reminders.ts, with the wall times of
--   src/orchestration/tz.ts in Orchestration.TimeZone.
-- - Transport.Socket is the life of the connection of src/transport/baileys.ts: the adapter's
--   variables as a record, a function for each of its handlers, and in Transport.Socket.Steps what may
--   come due next. Transport.Upsert is what the socket hands over, Transport.Outgoing what is sent
--   over it, with src/transport/agent-marker.ts.
-- - Transport.Content and Transport.RecentIds are src/transport/protocol.ts, Transport.WaVersion is
--   src/transport/wa-version.ts.
-- - Store is the lists, reminders and facts of src/memory/store.ts.
-- - Ops.Health is the socket monitor of src/ops/health.ts, Ops.Limiter the rate limiter of
--   src/backoffice/auth.ts, Ops.Console the credentials of that file and the request handler of
--   src/backoffice/server.ts; Ops.WaVersionWatch is src/ops/wa-version-watch.ts, Ops.RouteHealth
--   the streak log of src/ops/route-health.ts.
-- - Ops.Config is src/ops/config.ts: the reading of one variable, below it the variables, the schemas
--   and the loaders. Ops.Costs is src/backoffice/cost.ts, Ops.RouterPanel is
--   src/backoffice/router-health.ts.
-- - Common holds what the parts share, Crash the computations that a dying process cuts short, and
--   Tests a small household on which the theorems are applied.
--
-- A database table is the list of its rows in insertion order, and a statement is a function on it.
-- Code that runs in one transaction is a function from the tables to an answer and the tables;
-- `Attempt` is an answer or a throw. Where the process may die between two effects, a computation
-- takes the number of effects that it lives for (Crash), so a theorem for every such number is one
-- for every crash. A step of the turn workflow is one effect, and so is each statement of a sweep,
-- of the prompt pass and of the ingestion; what the runtime's journal would spare a replay is not
-- assumed. The tools' effects and the far side of the socket are a type parameter. Loops that the
-- source leaves unbounded run on fuel: the retry loop on its budget in milliseconds and two, since
-- every retry sleeps a millisecond or more; a drain on the number of items there and to come and
-- one, since every round processes one or more; its silence window on the number of arrivals and
-- one, since it ends when nothing arrives. The model rounds of a turn run down from their maximum.
-- The judge's probabilities are whole numbers of millionths.
--
-- Not modelled: the clients of Postgres, DBOS, WhatsApp, Google Calendar and the language models
-- (src/tools/calendar-client.ts, src/agent/call-model.ts, the making of a socket in
-- src/transport/baileys.ts), which are calls of other services; the wording of the stable prompt; the
-- console's data endpoints but for the costs and the router's panel, and its screens under backoffice/; delays, which are
-- floating-point numbers; the calendar and recall tools; the choice of a reply's language; the
-- recovery pass; the wiring of src/main.ts; and the evaluations, lint rules and scripts around the
-- program. `trim`, `toLowerCase`, `replace`, `JSON.stringify`, dates and the zone's tables are
-- parameters. JavaScript numbers are natural numbers, a cost is a whole number of 10⁻⁸ dollars.
pub mod Agent
pub mod Common
pub mod Crash
pub mod Hitl
pub mod Ops
pub mod Orchestration
pub mod Store
pub mod Tests
pub mod Tools
pub mod Transport
