-- ===== src/Model.antt =====
-- The rows that the workflow reads and writes: app/models/constants.py (statuses, stages, actions),
-- app/models/workflow.py (items, lines, reviews, audit events), the line details of
-- app/models/budget.py, contract.py, supply.py and techops.py, and the memberships of
-- app/models/org.py.
--
-- A status column holds one of the module's string constants, so it is an enumeration. A row that
-- the ORM reaches through a foreign key stands inside its owner: a request holds its lines, a line
-- its details, reviews, audit events and comments. So `WorkLineReview.query.filter_by(
-- work_line_id=line.id, …)` is a search of the line's own reviews. User ids are only compared, and
-- are numbers; times are seconds.
mod Status
mod Records
pub use Status.*
pub use Records.*
