-- ===== src/Lib.antt =====
-- RuleGo: a rule engine that runs messages through chains of components.
--
-- An engine (engine.go) keeps one rule chain (chain.go), made from a definition (dsl.go). The chain keeps
-- its nodes (node.go) and the routes between them, and answers which nodes follow a node under a
-- relation type. A message (api/types/msg.go) gets a context for each node it reaches; a component tells
-- the engine where the message goes next, and the engine submits a task for each next node. Contexts
-- count their unfinished children, so that the caller learns when all of them are done. Aspects run
-- before, around and after a node.
--
-- Prelude    shared names, Boolean tests, lists, maps (Prelude/Dict) and machine integers (Prelude/Words)
-- Result     a value with an error
-- Json       the values of a configuration
-- Text       utils/str/str.go: placeholders
-- Msg        api/types/msg.go: messages and metadata
-- Dsl        dsl.go and api/types/types.go: the definition of a chain, and identifiers
-- Node       node.go: InitRuleNodeCtx, ReloadSelf, Copy
-- Chain      chain.go: Chain/Load for InitRuleChainCtx and its tables, Chain/Routing for GetNextNodes,
--            its cache, and Copy; the proofs are in ChainLaws
-- Engine     engine.go: Engine/Context for the counters (childReady, childDone, DoOnEnd), Engine/Run for
--            tell, tellNext and the schedules of the tasks, Engine/Waiting for OnMsg and OnMsgAndWait,
--            Engine/Executing for ExecuteNode; the other files prove that the counters stay balanced
-- Registry   registry.go: the registry of components; Registry/Endpoints for endpoint/registry.go
-- Delay      components/action/delay_node.go; Delay/Overlap for calls that overlap
-- Group      components/filter/group_filter_node.go and components/action/group_action_node.go;
--            Group/Overlap for callbacks that overlap
-- SkipFallback  aspect/skip_fallback_aspect.go
-- FieldFilter components/filter/field_filter_node.go
-- WorkerPool pool/workerpool.go: getCh, release, workerFunc, Stop, and the binary search of clean
-- RuleGo     rulego.go and the RuleEngine of engine.go: the pool of engines, newRuleEngine, ReloadSelf;
--            RuleGo/Loading for Load
-- Config     api/types/config.go: the configuration, its options, and the aspects by kind and order
-- Endpoint   endpoint/endpoint.go: an exchange of messages on its way through a router, and in
--            Endpoint/Building how a router is built; Endpoint/Rest, Websocket, Net, Mqtt and Schedule
--            for the endpoints of those names under endpoint/: their messages, which fill the
--            interface MessageOps, their routers and their loops; Endpoint/Kinds for what all of
--            them promise
-- MqttClient components/mqtt/client.go: the handlers by topic
-- Nodes      nodes under components/ that only tell: Nodes/Scripts and Nodes/ExprTransform for scripts
--            and expressions, Nodes/Iterator, Nodes/Functions and Nodes/Flow
-- NetNode    components/external/net_node.go: connection, heartbeat and reconnection
-- DbClient   components/external/db_client_node.go, and Text/Dollar for the placeholders of its statements
--
-- A Go map is an association list without a key twice. An int32 or int64 is a bit pattern below
-- 2 ^ 32 or 2 ^ 64 and wraps. Clocks, UUIDs, components, plugins and aspects are parameters. A
-- lock makes a step. A pool runs one task at a time: a schedule is the list of positions from which
-- tasks are taken, so every order of the tasks is one. Calls that overlap are modelled by their sections
-- for the delay node (delay_step) and the group filter (filter_step), with as many calls as the theorems
-- say; elsewhere a call is one step. A message is a value, except for the map of its metadata in tellNext,
-- which the aspects share with the node: what they leave in it is a parameter. The walk of childDone to the root has as fuel the address of the context plus
-- one, which is enough because a parent has a smaller address than its children; the binary search
-- has the number of workers plus one. The loop that numbers the marks of a statement needs one round
-- more than there are marks. A broker accepts a topic at some attempt or never: the theorems on
-- subscribing say how many attempts are enough.
--
-- Not modelled: the engines of scripts and expressions, the servers and connections under the
-- endpoints, and the nodes for REST calls, mail, SSH and MQTT, which are calls of libraries; the
-- options of an engine, ReloadChild, and calls of all engines at once; executors that a program
-- registers; pools that run tasks at the same time, with which the counters of the engine can go wrong;
-- timeouts.
pub mod Chain
pub mod ChainLaws
pub mod Config
pub mod DbClient
pub mod Delay
pub mod Dsl
pub mod Endpoint
pub mod Engine
pub mod FieldFilter
pub mod Group
pub mod Json
pub mod MqttClient
pub mod Msg
pub mod NetNode
pub mod Node
pub mod Nodes
pub mod Prelude
pub mod Registry
pub mod Result
pub mod RuleGo
pub mod SkipFallback
pub mod Text
pub mod WorkerPool
