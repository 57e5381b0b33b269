-- ===== src/Lib.antt =====
-- Verification library for Flamenco Manager: the scripts of the dashboard, of the setup page and of the
-- pages' authentication, and the parts of the manager that decide on the statuses of workers and tasks.
--
-- How the parts interact. Each page asks the manager by `$.jwtAjax` or `$.get`. A request that is
-- refused with 401 or 498 needs a token, which `obtainJWTToken` fetches from the server that the
-- manager names; it is kept in a cookie and announced by events on the window, to which the pages
-- listen. The dashboard polls the status report, shows workers and pools, and sends actions and sleep
-- schedules. The setup page edits the configuration, in a form or as YAML, saves it and restarts the
-- manager. The manager turns the dashboard's actions and the sleep schedules into requests to the workers,
-- which these acknowledge, and queues what the workers report of their tasks for the server.
--
-- Files and code. A function of the code keeps its name in snake_case; a handler of a promise is a
-- function of its own, named for the outcome (load_done, load_failed, config_saved).
--   Common: texts, decimals, `parseInt`, sets of texts, failed requests, and Handles, the resources
--     that a variable names the latest of (a timeout, a clipboard, an event source)
--   Dashboard.Requests, Actions, Workers, App, Timers, Polling: static/dashboard.js, the actions of
--     workers and `vueApp`, with Polling as the relation of the steps that the page takes,
--     App.Choosing as what choosing workers promises, and Tokened as the page together with the token of
--     static/jwtauth.js that it waits for
--   Dashboard.Components, Modal, and Setup.Components: the components that the scripts register with Vue and
--     the tags by which templates/dashboard.html, templates/websetup/index.html and the two files
--     vue-components.html use them
--   Dashboard.TimeDiff, Schedule, Row, Pools, Storage, Remembered, Feedback: static/dashboard.js, the ages of
--     timestamps, sleep schedules, rows of the tables, dynamic pools, the selection in the local
--     storage, and the flashing of elements
--   Auth.Cookies, Token, Ajax, Authorised: static/jwtauth.js, with the cookie library as an interface
--   Setup.Predefined, Variables, Toggle, Config, Yaml, Reopen, Tables,
--     Ready, Link: static/websetup/websetup.js
--   Restart: static/restart.js
--   Images: static/imagewatch.js
--   Manager.TimeOfDay, Sleep: flamenco/time_of_day.go, flamenco/sleep_scheduler.go
--   Manager.Worker: flamenco/workers.go, with Handlers and Asking for what flamenco/timeout_checker.go,
--     flamenco/scheduler.go and flamenco/dashboard.go do with a worker, and TestTask for
--     flamenco/testtask.go
--   Manager.Tasks: flamenco/task_updates.go, with LogTail, FromWorker, and Handing for
--     flamenco/scheduler.go and flamenco/timeout_checker.go
--   Manager.Variables: flamenco/settings.go, the variables that the setup page edits
-- Proofs are in the child modules. Examples has tests and the theorems at concrete inputs.
--
-- State. A component's data is a record and each handler takes it and returns the next one, with what
-- it asks of the libraries (requests, notifications) as a list of effects. Calls that are answered
-- later are two functions, the call and the answer; step relations order them in every way. A document of
-- the manager's database is held twice, as a handler's copy and as it is stored, and each update is told
-- whether it succeeds; a handler runs to its end before the next one reads the document.
--
-- Bounds and fuel. Numbers of the code are small counts, lengths and milliseconds and are natural
-- numbers or integers here. The retries of `$.jwtAjax` run on fuel 7, which is proved to be enough;
-- decimal digits run on the number itself plus one.
-- The manager's times are nanoseconds since a midnight, in days of 24 hours; texts of days and logs are
-- lists of ASCII bytes.
--
-- Parameters. The browser's reading and writing of dates, JSON, YAML, cookies, the answers of requests
-- and of dialogs are parameters, with the laws of cookies, of JSON and of
-- the ace editor as fields of their records.
--
-- Not modelled: the texts and layout of the templates, tooltips, the libraries (Vue, Bootstrap, jQuery, toastr,
-- js-cookie, clipboard.js, js-yaml and ace), and of the manager, which is written in Go, the queries of its
-- database, goroutines and timers, log files on disk, the other settings, placeholders in
-- commands, the connection to the server, registration,
-- the file store and the servers for setup and tokens: they call other systems and decide little themselves.
pub mod Common
pub mod Dashboard
mod Examples
pub mod Auth
pub mod Setup
pub mod Restart
pub mod Images
pub mod Manager
