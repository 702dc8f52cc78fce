-- ===== src/Tests.antt =====
-- Runs of the definitions on concrete inputs, and the theorems applied to such inputs.
mod Fixtures
mod Schemas
mod Texts
mod Migrations
mod Relations
mod Objects
mod Resolving
mod Creating
mod Values
mod Foreigns
mod Stored
mod Transactions
mod Directories
mod Commands
mod Backends
