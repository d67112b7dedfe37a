-- ===== src/Lib.antt =====
-- A model of Mattermod, the bot that looks after the pull requests of Mattermost's repositories.
--
-- The program is a web server (server/) over a MySQL database (store/). GitHub sends it events: a request
-- to /pr_event passes the middleware, which checks its signature, observes its duration and recovers
-- panics, and goes to the handler of its event. The handlers fetch what they need from GitHub, save it, compare it with what was
-- saved, and answer by comments, labels, statuses, reviews and merges. Periodic tasks do the same without
-- an event. Comments and closed pull requests put requests for cherry picks in a queue that one goroutine
-- works off. A second process, the job server, runs the periodic tasks on the same database. Package
-- store also has a lock in the database, which no other part of the program takes.
--
-- Which file models which part:
--   Base                     helpers on lists, options, tests, the functions of Go's package strings, and
--                            in Json what encoding/json does on slices of strings
--   Metrics                  metrics/provider.go, and the interface MetricsProvider of server/metrics.go;
--                            Server has metrics/server.go
--   Model                    model/pull_request.go, model/issue.go; StringArray has model/string_array.go
--   World                    what the handlers run in: the calls with their answers, the tables, the queue
--   World/Github             what the GitHub client hands over
--   World/Config             server/config.go
--   World/Response           server/response_writer_wrapper.go
--   World/Monad              handlers as actions: values, panics, loops; Keeps has rules for invariants
--   World/Frame              what it means that an action leaves the tables, the queue and the merges alone
--   Store/PullRequests       store/sql_pull_request_store.go; Interface has that of store/store.go
--   Store/Issues             store/sql_issue_store.go
--   Store/Mutex              store/sql_lock_store.go, with Wait for nextWaitInterval, Race for two
--                            instances of releaseLock, and Holder for the goroutine that refreshes
--   Store/Schema             store/migrations/*.sql: the tables at each version; Typing has the statements of
--                            the stores against them and DropAllTables, Widths the room of the columns
--   Server/Github, Pages, Members, Fetch
--                            server/github.go, and getPRFromIssueCommentEvent
--   Server/AutoMerge         server/auto_merge.go
--   Server/BlockMerge        server/block_pr_merge.go
--   Server/Cla               server/cla.go
--   Server/Community         server/community.go
--   Server/Webhook           server/webhook.go, server/utils.go, server/translations.go
--   Server/Review            server/review.go
--   Server/Changes, PullRequestEvent, Tasks
--                            server/pull_request_handler.go; Tasks has RefreshMembers of server/server.go
--   Server/IssueEvent        server/issue_handler.go, server/pr_from_issue_handler.go
--   Server/CommentLock       the comment lock: goroutines that run handleIssueLabeled, interleaved
--   Server/IssueCommentEvent server/issue_comment_handler.go
--   Server/UpdateBranch      server/update_branch.go
--   Server/AutoAssign        server/autoassign.go
--   Server/CherryPick        server/cherry_pick.go; Job has the work on a request
--   Server/Tick              Tick of server/server.go
--   Server/Http              githubEvent, ping and the middleware of server/server.go,
--                            server/validate_signature.go
--   Server/Transport         the layers of server/metrics.go and server/rate_limit.go, and how
--                            server/github_client.go puts them together
--   Server/Soundness         the invariant of one process; each component has a child module Sound on it,
--                            and Server/Frame has the handlers that leave everything of it alone
--   Program                  both processes: cmd/mattermost-mattermod/main.go, cmd/jobserver/main.go, and
--                            Start and Stop of server/server.go
--   Program/Startup          how the three programs start: their mains, cmd/migrator among them, GetConfig of
--                            server/config.go, New of server/server.go, and store/sql_store.go
--   Tests                    a small installation, and runs of the theorems on it
--
-- A function keeps its name of the source, in snake case: handleCheckCLA is handle_check_cla. A method of
-- Server is an action on `World` that takes a `Server`, which is the configuration, the outside and the
-- fuel. GitHub, the driver of the database, the webhooks, the clock, the random numbers, the programs that
-- are run, the JSON decoder of payloads and settings, the HMAC and the parser of diffs are parameters: most are fields of the
-- record `Outside`, and each answer is a function of the history so far. So a theorem for every `Outside` holds whatever they
-- do. The history `trace` has every call with its answer, the newest first.
--
-- Bounds: a loop without a bound of its own, that of a listing of pages, is followed for as many rounds as the
-- server's `fuel` says, and is `unfinished` after that; Pages/Complete says how much is enough. All other
-- loops are recursion on a list. Numbers of pull requests are natural numbers; durations in Store/Mutex
-- are in nanoseconds and times in Unix seconds.
--
-- In Program the two processes have their own memory and a common database and history. Its steps are
-- whole actions, one after the other: a request, a goroutine, a job, a number of rounds of the listener.
-- The locks inside an action are events of the history, and no two actions interleave there. In
-- Server/CommentLock the steps of handleIssueLabeled do; Source relates them to the action. A panic that is
-- not recovered, and a restart at any time, make the memory of the process new.
--
-- Not modelled: logging, observed durations, contexts and timeouts other than as errors
-- of the calls, the router, when cron starts a job, the network under the transport to GitHub, the
-- HTTP servers of net/http, the file that go-bindata generates from the migrations. Texts are lower-cased in ASCII only, keys are
-- compared exactly, and the environment of the programs that are run is left out. A goroutine that a
-- handler starts is noted in `tasks`; the comment lock is two events of the history.
pub mod Base
pub mod Model
pub mod Metrics
pub mod World
pub mod Store
pub mod Program
pub mod Server
pub mod Tests
