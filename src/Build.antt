-- ===== src/Build.antt =====
-- command.go, fetch.go, gobuild.go: the commands that a build runs, and the build.
pub mod Command
pub mod Environment
pub mod Module
pub mod Prepare
pub mod Prepared
pub mod Verify
pub mod Run
pub mod Latest
pub mod Recent
