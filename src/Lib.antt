-- ===== src/Lib.antt =====
-- The request and approval workflow of the resource management app: departments book lines in a
-- request, the request is submitted and its lines are routed to approval groups, reviewers decide
-- them, and an admin (or the last review) finalizes the request.
--
-- The parts, and the files that model them:
--   Base         natural numbers, lists, text and signed amounts: Python's values.
--   Model        the constants of app/models/constants.py and the rows of app/models: a request
--                (WorkItem) holds its portfolio and its lines, a line its details, reviews, audit
--                events and comments. A foreign key is the row itself, or its id where only that is
--                compared.
--   LineDetails  app/line_details.py: amount, description and routing snapshot of a line.
--   Access       who may do what: context.py in app/routes/work/helpers, the memberships of
--                app/models/org.py, and the permission checks of the two helpers.py files below.
--   ReviewState  app/routes/work/helpers/review_state.py: whom a line waits for.
--   Checkout     app/routes/work/helpers/checkout.py: the review lock of a request.
--   Totals       app/routes/work/helpers/computations.py: totals, subtotals and status summaries.
--   Routing      app/routing: the approval group of a line.
--   Lifecycle    app/routes/work/helpers/lifecycle.py: submit, recall, return to draft, and the
--                finalization by the last review.
--   Reviews      app/routes/approvals/helpers.py: apply_review_decision and what it calls.
--   AdminFinal   app/routes/admin_final/helpers.py: the admin's decision, finalization, the way back,
--                and the admin's tools on a line.
--   Permissions  context.py and checkout.py in app/routes/work/helpers: what a page offers a user.
--   Dispatch     app/routes/dispatch: groups for the lines of a request, and its way into review.
--   Actions      the handlers of app/routes/work/work_items/actions.py and of
--                app/routes/work/techops/send_back.py; Edges, Steps, Verdicts and Diagram set these
--                handlers, dispatch, decision, finalization and the way back against a diagram of the
--                status of a request, Lock against a review lock, and Session against the buttons.
--   Templates    app/services/email_templates.py: the template that one event sees.
--   Enqueue      app/services/email_enqueue.py: one email into the outbox.
--   Release      the board's release of budgets in app/routes/admin_final/helpers.py, with its emails
--                from app/services/notifications.py.
--   Outbox       app/services/email_drainer.py: one row of the email outbox, reaping and release.
--   EmailErrors  app/services/email_errors.py: the class of an error of the mail service.
--   Drain        a run of the drainer in app/services/email_drainer.py.
--   Retention    the deletion of old log rows and message bodies there, and the count of recent sends.
--   Spaces       app/models/spaces.py: the names of combined spaces.
--   Outcome      what those helpers report: success, a refusal by its message, or an abort.
--   Scenarios    small requests and emails, and the theorems at work on them.
--
-- A handler becomes a function from the rows that it reads to those rows afterwards. What it reads
-- beside them is one record, Request: the time, the user, the role table and the memberships. Handlers
-- are given the rows that they decide on. Sequences of calls, in which each handler reads the rows as the
-- one before left them, are step relations in Checkout.Steps and Reviews.Finality and lists of calls in
-- Actions.Diagram. Where a handler locks a row with a refresh, as the release does, concurrent calls are
-- such sequences; app/routes/work/helpers/checkout.py and app/routes/dispatch/dashboard.py lock by
-- with_for_update().get(), which keeps the values loaded before, so a concurrent write between the two is
-- outside the model.
-- Where the code takes `first()` of a query, the model takes the first row in the order of the list; an
-- object that is written afterwards is the row with its id. The id of a new row is an argument. Amounts
-- are cents: natural numbers where they are prices, signed where a form may give any; quantities count
-- thousandths, as Numeric(12, 3) does. Text is a list of code points, and messages are constructors.
--
-- Loops are recursions on lists; only the digits of a number use fuel, one more than the number, which has
-- fewer digits. Python's lower() and its formats of a time are arguments, as functions of text and of times.
-- A run of the drainer reads, before each row, a record Tick: the signal, the clock, the number of recent
-- sends and the answers of the services that a row needs. A run id is a number.
--
-- Not modelled: pages, forms and redirects, reports, and administration pages; the emails that handlers queue,
-- except those of a release; exceptions of the database; Slack, sign-in, migrations and seeds; public ids and
-- the columns that no operation here reads or writes. The locks of the database are taken as given: a claim is
-- atomic, and no two rows of a table have one id.
pub mod Base
pub mod Model
pub mod LineDetails
pub mod Access
pub mod ReviewState
pub mod Checkout
pub mod Totals
pub mod Routing
pub mod Lifecycle
pub mod Outcome
pub mod Reviews
pub mod AdminFinal
pub mod Templates
pub mod EmailErrors
pub mod Outbox
pub mod Enqueue
pub mod Permissions
pub mod Dispatch
pub mod Actions
pub mod Release
pub mod Retention
pub mod Spaces
pub mod Drain
pub mod Scenarios
