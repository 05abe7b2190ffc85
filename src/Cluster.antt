-- ===== src/Cluster.antt =====
-- The cluster that the program talks to: the Kubernetes objects it reads, the requests it makes,
-- the answers of the environment, and the actions that the Go functions become.
pub mod Objects
pub mod Calls
pub mod Env
pub mod Files
pub mod Exec
pub mod Errors
pub mod Requests
pub mod Poll
pub mod Reads
