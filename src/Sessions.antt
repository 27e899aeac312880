-- ===== src/Sessions.antt =====
-- Sessions of users and of workspaces (apps/backend/app/core/identity/sessions.py): the table of
-- sessions and what creates, finds, rotates and removes them.
pub mod Rows
pub mod Access
pub mod Rotated
pub mod Purged
