-- ===== src/Lib.antt =====
-- Models of the browser client of PikoCI (pikoci/transport/http/assets/js/app): the part of the
-- program that runs in the page, with its state, its requests and what it shows. The page asks the
-- server through one wrapper (api.js), on a timer (hooks.js), with the session that it keeps
-- (state.js); the components sort, merge and cut what comes back before they show it.
--
-- The files, with the code that each is about (paths below pikoci/transport/http/assets/js/app):
-- - Chain, Tree: the list view of a pipeline (components/PipelineListView.js). `resolve_chain` is
--   resolveChain, the jobs that a resource reaches; `build_tree` is buildTree, who stands under
--   whom. JsObject has the objects that both use as maps and sets. Chain/Reach says what reaching
--   is without the queue; Chain/Visits, Rounds and Complete prove the queue against it.
-- - ListView: the component PipelineListView itself: Handlers has its state and what changes it,
--   Status the statuses of the jobs, Rows what renderTree draws. Rows takes the depth of its calls as
--   a bound; a job is marked before what is below it is drawn, so the number of jobs is enough.
-- - Builds, Sort, Text: sortBuilds and selectActiveBuild (utils.js), with the stable sort of an
--   array, and split and Number on texts.
-- - BuildList: the list of builds of a job (JobBuilds in components/Jobs.js): `fetch_new` is
--   fetchNewBuilds, `merge_fresh` the merge of pollBuilds, `merge_more` that of fetchMoreBuilds.
-- - Tracking: fetchTrackedBuilds of JobBuilds, which builds a tracked version leaves in that list.
-- - Polling: usePolling (hooks.js), as steps on a state of its timers and calls.
-- - Session: state.js, and useRequireAuth of hooks.js as `require_auth`.
-- - Api: api and apiInterval (api.js), from the answer to the outcome and what the page shows.
-- - Endpoints: the functions of api.js that ask for one thing each. Account, Team and Pipeline have
--   one constructor for a function, and the request that it makes. Paths splits an address again.
-- - Secrets: mergeEntries, loadEntries and the row of a new entry (components/Secrets.js).
-- - Format: durations, logs, times and versions as they are shown (utils.js).
-- - Pager: Pager, and the state of the grid that the address keeps (components/PipelineList.js).
-- - Zoom: PikoGraphZoom (graph-zoom.js). View has the view box, Gestures the buttons, the wheel and
--   the dragging, Screen the elements that the full screen moves. Numbers says what is asked of the
--   numbers, and Hundredths are numbers that have it.
-- - Toasts: toast.js, and Notice of components/Layout.js. Draining has what is left when the timers
--   run out, Staying how long a notice is there.
-- - Trigger: the form of JobBuilds that asks for the inputs of a job. Choices has the boxes of one
--   input, Complete what a job is triggered with.
-- - Team: components/Teams.js. Members is MembersTab with MemberRow, and Admins what it keeps. Audit
--   is AuditLogTab with its FilterChips; Parameters reads a query again, Filters is about what it
--   stands for, Chosen about what the user chose, and Pages loads a log.
-- - Follow: the version that PipelineShow (components/PipelineShow.js) follows. Agreement is about the
--   banner, the list view and the address, Search about the resource of a version in the address.
-- - Profile: components/Users.js. Passwords is PasswordTab, and Lengths is about what it sends.
--   Tokens is the form of ApiTokensTab, Sent is about what it asks for.
-- - Versions: ResourceVersions (components/Resources.js). Merge is about a version behind an answer,
--   Order about the list.
-- - Providers: OAuthAdmin and ProviderForm (components/OAuthAdmin.js) are in Form, and `slugify` in
--   Slug. Slugs is about what it makes, Canonical and History about the name in the form.
-- - Editor: components/Editor.js and parseHCLErrors (utils.js). Matching has the regular expressions,
--   Block findBlockAttribute, Errors parseHCLErrors, Marks showEditorErrors, Panel the list of the
--   blocks and the block of a node, Highlight hclLanguage. Fits is about how much a matcher takes,
--   Attribute and Found about the span of an attribute, Ranges about the marks, Braces about the end
--   of a block, Tokens and Progress about the tokens of a line.
-- Base has the names that all of them share. A module Tests has runs on concrete inputs.
--
-- Bounds: the queue of a chain is walked with as many rounds as there are jobs. A job enters the
-- chain at most once, so the queue is empty when the rounds end.
-- The loop of hclLanguage over a string runs at most once for each unit that is left of the line;
-- given that often, it ends at the quote or at the end of the line.
-- Every other loop is recursion on a list or on a number of rounds that the code itself
-- fixes. Ids, counts, pages and durations are natural numbers.
--
-- Parameters: what the browser or a library provides and a property depends on, such as
-- localeCompare, trim, parseInt and encodeURIComponent, is an argument, with what is asked of it
-- among the conditions of the property; so are the document and the stream of CodeMirror. The editor's
-- texts are lists of UTF-16 code units, on which trim, parseInt and the regular expressions are
-- written out. A request is its answer, or none where fetch rejects.
--
-- Not modelled: what is only drawn (the markup of the components), the server, the worker and the
-- command line, which are not part of the page; of the editor what draws, the preview and the form;
-- and of the pages the login, the settings of authentication, the lists of users, resources and
-- workers, and the details of a build.
pub mod Base
pub mod Follow
pub mod Format
pub mod JsObject
pub mod Chain
pub mod Editor
pub mod Endpoints
pub mod Tracking
pub mod Trigger
pub mod Versions
pub mod Tree
pub mod Zoom
pub mod Sort
pub mod Team
pub mod Text
pub mod Toasts
pub mod Builds
pub mod BuildList
pub mod ListView
pub mod Pager
pub mod Polling
pub mod Profile
pub mod Providers
pub mod Secrets
pub mod Session
pub mod Api
