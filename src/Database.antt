-- ===== src/Database.antt =====
-- Transfers between databases: the handlers under services/worker/modules/postgres, mysql and mssql.
-- Params has what they are given and what they ask of the programs and drivers; Pipe the pipe from a
-- dump to a client and the retries, Counts the comparison of the row counts, which handlers share.
pub mod Params
pub mod Pipe
pub mod Counts
pub mod Written
pub mod Retries
pub mod Postgres
pub mod Mysql
pub mod Mssql
pub mod Task
mod Tests
