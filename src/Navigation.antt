-- ===== src/Navigation.antt =====
-- Moving tokens through a process (backend/services/workflow-command/internal/application:
-- navigation.go, mapping.go, subprocess.go, persistVariables of engine.go, handleBoundaryError of
-- events.go, and executors of step_executors.go). A navigation runs on one process instance in
-- memory and on the session of its transaction, and what it has changed stays when it fails.
pub mod World
pub mod Variables
pub mod Steps
pub mod Tokens
pub mod Arrival
pub mod Exit
pub mod Enter
pub mod Proceed
pub mod Boundary
pub mod Triggers
pub mod Executors
pub mod Engine
pub mod Follows
pub mod Monotone
pub mod Incidents
pub mod Scopes
pub mod Places
pub mod Runs
pub mod Ending
pub mod Completion
