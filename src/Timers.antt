-- ===== src/Timers.antt =====
-- Timers of backend/services/workflow-command/internal/application: resolving a step's timer
-- properties into a schedule (timer_schedule.go, parseISO8601Duration of events.go) and what firing
-- and cancelling do to the timer table (finalizeTimerAfterFire and
-- cancelCreatedTimersForElementInstance of events.go). Go's readers of durations and of instants
-- are parameters; the text of an error is left out.
pub mod Schedule
pub mod Table
