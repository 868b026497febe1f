-- ===== src/Lib.antt =====
-- Postee: a router that receives JSON messages over HTTP and delivers them to outputs.
--
-- Files.
-- - Prelude: shared types, Go's strings and integers, effects (a value, an error or a panic beside
--   the state that the call leaves).
-- - Db: dbservice. Db/Bolt is go.etcd.io/bbolt as a parameter with its documented laws, Db/Memory
--   a file that meets them. Db/Messages is MayBeStoreMessage, Db/Expiry CheckExpiredData and
--   CheckSizeLimit, Db/Aggregator AggregateScans, Db/Stats RegisterPlgnInvctn, Db/SharedConfig the
--   API key, Db/Params the path.
-- - Routes: routes, the input routes with their timeouts and their scheduler's channel.
-- - Msg: msgservice. Msg/Handling is MsgHandling, Msg/UniqueKey GetMessageUniqueId, Msg/Scheduler
--   the goroutine of RunScheduler, Msg/World the state and the services that they use.
-- - Data: data, the scan of an image and the blocks of Slack.
-- - Layout: layout and formatting. Layout/Provider is the interface of a layout; Layout/Html, Jira
--   and Slack are the three of formatting; Layout/Vulnerabilities the tables of a scan,
--   Layout/Ticket the description, Layout/Legacy the legacy templates of formatting/eval.go.
--   Layout/Total is what a template relies on of a layout.
-- - Rego: regoservice, and the legacy templates' names of formatting/eval.go. Rego/Criteria is
--   DoesMatchRegoCriteria, Rego/Eval an evaluator, Rego/Build how it is made, Rego/JsonFormat the
--   function jsonformat, Rego/Service both in the place of the parameters of Msg.
-- - Outputs: outputs. Outputs/Records the state and Init of each output, Outputs/Recipients,
--   Email, Splunk, Jira and Chat (Slack, Teams, webhook, ServiceNow, stdout) what they send.
-- - Clients: servicenow, slack and teams, the HTTP calls that the outputs make.
-- - Router: router. Router/Settings the configuration, Router/Builders BuildAndInitOtpt,
--   Router/State Start, Terminate and ReloadConfig, Router/Dispatch HandleRoute and listen.
-- - Web: webserver, the handlers and the guard of the reload; Web/Start is
--   Start, Web/Answers what a client is answered.
-- - Utils: utils. Utils/Environment the environment and paths, Utils/Cert the certificate.
-- - Command: main.go, the flags, the environment and the order of the parts.
-- - Ui: ui/backend. Ui/World is what its handlers read and change, Ui/Login the sessions,
--   Ui/Config the configuration file, Ui/Stats the statistics, Ui/Server the routes, Ui/Main the
--   settings; Ui/Memory has a disk and a cookie store that meet their laws.
-- - System: the parts together. System is one goroutine of a message over what all of them share;
--   System/Trace the requests, the channel of messages, listen and the turns of the goroutines as
--   events of a run, with the ticks of the checker of the database; System/Once goroutines and
--   ticks in any order; System/Saved a configuration that the user interface saves and Postee
--   reloads.
--
-- A request reaches Web, which hands it to Router; Router starts one MsgHandling of Msg for each
-- output of the route; Msg asks Rego for the criteria and the content, keeps keys and queues in Db,
-- and hands the content to an output of Outputs. The legacy templates write it with Layout. Ui is a
-- program of its own, which writes the configuration that Router reads and shows the counts that Db
-- keeps.
--
-- Fuel. Two loops run on fuel: the cutting of Outputs/Splunk, whose four rounds are enough for its
-- three parts, and the blocks of Outputs/Chat, which take one round more than there are blocks.
--
-- Parameters. bbolt, encoding/json, time, the OPA engine, net/http, net/smtp, go-jira, gorilla/mux
-- and gorilla/sessions, crypto, the file system and the environment; and, for Ui, the older release
-- of the other packages that it is built on. A goroutine that the source starts is an element of a
-- list: contents handed to an output, dispatches of a message. A send on a channel without a
-- receiver, or on one that is full, is `blocked`.
--
-- Texts are sequences of characters. Change of case is exact for the letters that become ASCII ones,
-- which is all that the comparisons of the program with ASCII texts need; ToUpper is used for the key
-- of a Jira project, taken to be ASCII. A cookie of the user interface is read up to the age that the
-- store allows, a parameter.
--
-- Turns. System lets a goroutine of a message run to its end in its turn, the goroutines in any
-- order. What they share is the database, whose calls run under a mutex, the channel that stops the
-- scheduler of a route, and the contents sent. The checker that load starts, which drops data that
-- have expired or grown too large, takes its turns among theirs in System/Trace and System/Once; a
-- pool that is run by run_all alone lies between two of its ticks. The router's maps stay as they
-- are along a run of System/Trace, which lies between two reloads; the ticks of a scheduler are
-- Msg/Scheduler's.
--
-- Not modelled: goroutines that interleave within one call of MsgHandling, and a reload while they
-- run; the listeners of the servers; the pages of the user interface and the rego templates, which
-- are not Go.
pub mod Prelude
pub mod Clients
pub mod Command
pub mod Data
pub mod Db
pub mod Layout
pub mod Msg
pub mod Outputs
pub mod Rego
pub mod Router
pub mod Routes
pub mod System
pub mod Ui
pub mod Utils
pub mod Web
