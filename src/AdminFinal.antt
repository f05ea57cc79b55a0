-- ===== src/AdminFinal.antt =====
-- app/routes/admin_final/helpers.py: the admin's decision on a line, finalization of a request of a
-- work type with an admin-final stage, and the way back.
pub mod Decision
pub mod Finalize
pub mod Unfinalize
pub mod LineTools
pub mod Rereview
