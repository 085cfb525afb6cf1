-- ===== src/ListView.antt =====
-- The state of the component `PipelineListView` (components/PipelineListView.js) and its handlers.
-- The child Status has the statuses of the jobs, Rows the rows of the tree.
pub mod Status
pub mod Handlers
pub mod Consistent
pub mod Rows
pub mod Count
pub mod Once
pub mod Growth
pub mod Depth
mod Tests
