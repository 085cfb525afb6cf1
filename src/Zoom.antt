-- ===== src/Zoom.antt =====
-- The zoom of the graph (graph-zoom.js): the part of the drawing that is seen, the gestures that
-- move it, and the full screen.
pub mod Numbers
pub mod View
pub mod Gestures
pub mod Screen
pub mod Bounds
pub mod Runs
pub mod Fixed
pub mod Siblings
pub mod Hundredths
mod Tests
