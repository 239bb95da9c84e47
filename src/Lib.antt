-- ===== src/Lib.antt =====
-- The web console of the host intrusion detection system: the pages on which an operator reads
-- notices, searches events, watches hosts, and changes rules and settings, in its browser scripts,
-- and what the backend does for the settings.
--
-- The scripts are web/static/js/js.js (what all pages share: URLs, texts, the search history, the
-- password prompt), web/static/js/main.js (a controller for each page), web/static/js/language.js
-- (tables of texts, and the messages of events), web/static/js/login.js (the login form) and
-- web/static/upload/main.js (the install wizard). A page loads its data from the server's interface
-- under `/json`, the operator's actions run handlers that change the page's state and send
-- requests, and the answers run callbacks. With two-factor authentication a prompt stands between
-- an action and its request, and the password is written into the request's URL. Handlers and
-- callbacks share undeclared, global variables (`json`, `notice`, `info_`, `ele`, `input`) and the
-- URLs, which some of them overwrite. The notice page hands a search over to the analysis page, and
-- the host page puts the messages of events into the document as HTML.
--
-- The modules and the code that they model:
--   Prelude   lists, options, Booleans and numbers that the others share
--   Text      JavaScript's strings, as lists of UTF-16 code units: `split` and `join` at a
--             character, `trim`, decimal digits, comparison
--   Url       `url_update_query` and `url_add_Paginator` of js.js, with the regular expression and
--             the directives of the replacement text; Url/Query is a URL as a list of pairs,
--             Url/Search, Url/Refine and Url/Laws relate the two; Url/Stamp is a URL that passwords
--             are written into, and Url/Course the interface by which a page's course of events
--             is followed (`Page`), which the notice, rules and settings pages fill
--   Uri       `encodeURIComponent`, which main.js calls
--   Regexp    `escape_regexp` and `string2regexp` of js.js, and the match of /[\d\.]+/ in main.js;
--             Regexp/Laws has the patterns' meaning
--   History   `add_history` of js.js and the text in which the browser stores it
--   Filters   the filters `cut` and `cutWords`, `json_value_to_string` and
--             `Array.prototype.remove` of js.js
--   Page      what the controllers share: the URLs, the prompt, `enable_pass`, `ajaxcallback`,
--             the values that are sent as JSON, and the effects of a handler
--   Notice    the controller `notice` of main.js: Notice/Step has its handlers and callbacks,
--             Guard the second factor, Status and Rule what a notice turns into,
--             Urls and Passwords the password that the URL keeps
--   Hosts     the controller `hostlist`: the pages, the filter and the window that watches a host
--   Rules     the controller `rules`: loading, sorting, editing, deleting, switching rules; Step
--             has its callbacks, Flow its dialogues, Guard and Passwords what it sends with which
--             password
--   Config    the controller `config` and `edit_config_item`: Config/Items has what changes single
--             settings and values, Config/Step the handlers and callbacks, Guard and Answers the
--             second factor, Laws the lists of values, Urls and Passwords the password in the URL
--   Task      `newtask` of main.js, the form for a new task
--   Upload    the upload of agents in the controller `config`, and the controller `file`
--   Install   the install wizard, web/static/upload/main.js: its first steps and the upload of
--             agents; Install/Complete the end of the upload, Install/Cert the test of the
--             certificate, Install/Setting the last step
--   Pages     the controllers `analyze`, `tasks`, `taskresult` and `detailinfo`; Pages/Samples the
--             tab key in the search, Pages/Opening the search that the notice page leaves
--   Statistics  the controller `statistics`: its tables; Statistics/Counts the counts of the hours,
--             Statistics/Charts the options of its charts
--   Messages  the messages of events, `format_msg` and its like of language.js
--   Language  `HostWData.update` of js.js, the styles and the keys of the search of language.js
--   Session   the login form, leaving, the menu, the route table, and what requests and answers
--             pass through (login.js, main.js, js.js)
--   Backend   the backend, in Go: Backend/Access has the checks of `Prepare`
--             (web/controllers/base.go), Backend/Access/Texts and Backend/Access/Laws what passes
--             them, Backend/Access/Tries how often a password is compared; Backend/Forms how a body is
--             read into a form, Backend/Settings the changes of settings
--             (web/controllers/config.go, web/models/config.go), Backend/Store the database that
--             they change; Backend/Settings/Exchange puts the settings page and these together, and
--             Backend/Settings/Agree and Backend/Settings/Sync compare the page with the database,
--             Backend/Settings/Typed has what a switch stores; Backend/Queue is the queue of a new
--             task (web/models/task.go, web/controllers/task.go), Backend/Net the ranges of
--             addresses (web/utils/net.go)
--   Dict      objects as dictionaries, for Task, Language and Session
--
-- How state and control are modelled. A page's state is a record of the controller's fields and of
-- the global variables that it uses. A handler takes the state and returns the new one with its
-- effects in order: requests, prompts, messages, navigation. A callback is a value of the page's
-- type `Wait`, which holds the variables that the function has captured; an answer of the browser
-- or the server comes with it, so answers may come in any order, late or never. `act` is what an
-- action of the operator does, `answer` what an answer does. An exception is the effect `throw`,
-- behind which nothing of the handler runs. An empty string stands for a missing text where
-- the code only tests for truth, and an `Option` for a value that may be missing or null.
--
-- Parameters. `anchor_hash` is the `hash` of an anchor element whose `href` is set, which the
-- browser computes; the theorems that need it ask that it returns the fragment of the URL at hand.
-- `date_parse` is the browser's `Date.parse`, as text; `locale_string` is its text of a date, and
-- `now` that of the present time. Of the backend's
-- surroundings, `serverside` is the time-based password of the moment, `atoi` is Go's
-- `strconv.Atoi` as JSON, a `Store` the operations of MongoDB's driver with `IsLawful` for what
-- MongoDB documents of them, `Surroundings` what it inserts and gives for a task, a `Net` the
-- addresses of Go's `net` with `IsDocumented` for the texts that it writes and reads, and `gate` whether `Prepare` lets a request through. Nothing else is
-- assumed.
--
-- Numbers are natural numbers; none of the code's numbers is negative, and `n - 1` stands behind a
-- test for `n > 1`. `to_string` recurses on fuel, the number itself, which has no fewer steps than
-- digits; `Array.prototype.remove` loops on fuel, the length of the array, of which each round
-- takes an element away. The loop over a range of addresses is on fuel, one more than the number
-- of the last address, which each round comes closer to.
--
-- What is left out. Keys of `url_update_query` are words of letters at every call, and the model
-- compares them without regard to case as the flag `i` does for ASCII; a key with characters that
-- have a meaning in a regular expression is not modelled. `for..in` over an array also comes to
-- `remove`, which js.js adds to `Array.prototype`: the host page, where this shows, has it; in
-- `add_history` and the search for the white list the extra round changes nothing, and the model
-- has none. Times that a handler waits before it shows a message, classes and positions of
-- elements, tooltips, the templates, and the texts that only templates read are not modelled. Nor
-- are the matching of routes and the drawing of charts, which third-party libraries do, random
-- numbers, and the libraries that the repository carries copies of. In a message of an event the
-- number 0 counts as a missing value. The kind of a notice is none of the names that every object
-- of JavaScript inherits, and the events of a host are of the types that `format_msg` knows; for
-- another type it throws. Without two factors `request_password` passes on the number 0, which the
-- model has as the text that the URL gets. What a page does behind `reload` is another course, from
-- its start. Of the backend, the controllers of notices, rules, statistics
-- and events mostly hand queries on to the database and are not modelled, nor are sessions, the
-- installation, and requests that run at the same time; a request that is refused comes to the page
-- as the refusal of a password, since the page takes each refusal alike. Go folds the case of a few
-- letters beyond ASCII in the names of a form's members, the model does not.
pub mod Prelude
pub mod Text
pub mod Dict
pub mod Url
pub mod Page
pub mod Regexp
pub mod History
pub mod Filters
pub mod Backend
pub mod Config
pub mod Hosts
pub mod Install
pub mod Language
pub mod Messages
pub mod Notice
pub mod Pages
pub mod Rules
pub mod Session
pub mod Statistics
pub mod Task
pub mod Upload
pub mod Uri
