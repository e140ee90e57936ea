-- ===== src/Ticket/Tests.antt =====
-- A help desk on which the theorems about tickets are applied.
mod Desk
mod Changes
mod Histories
