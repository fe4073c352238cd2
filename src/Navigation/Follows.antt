-- ===== src/Navigation/Follows.antt =====
-- Every function of the navigation is a sequence of steps: one lemma for each, by the functions
-- that it calls.
pub mod Tokens
pub mod Exit
pub mod Proceed
pub mod Boundary
pub mod Triggers
pub mod Work
pub mod Tasks
pub mod Executors
pub mod Ends
pub mod Engine
pub mod Calls
