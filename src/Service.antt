-- ===== src/Service.antt =====
-- app/services/investigation_service.py: an investigation from the request to its stored results.
pub mod Store
pub mod Results
pub mod Run
pub mod Rows
pub mod Final
pub mod Closed
pub mod Finished
pub mod Hindering
pub mod Admission
pub mod Counts
pub mod Exclusive
pub mod StaysFailed
pub mod Stored
