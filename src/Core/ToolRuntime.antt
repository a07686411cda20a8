-- ===== src/Core/ToolRuntime.antt =====
-- packages/core/src/tool-runtime.ts: one tool call of the model, from its name to its result, with
-- the detection of loops.
pub mod Values
pub mod Streaks
pub mod Loops
pub mod Results
pub mod Execute
pub mod StreakLaws
pub mod LoopLaws
pub mod ExecuteLaws
pub mod Output
pub mod Brake
pub mod Halting
mod Tests
