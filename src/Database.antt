-- ===== src/Database.antt =====
-- The translation between aggregates and rows: src/infrastructure/database/mappers.py, with the rows of
-- src/infrastructure/database/models.py. A row here has the columns that the mapper writes and reads;
-- the version counter belongs to the ORM. A JSON column that holds a value of another type than the
-- mapper writes raises `type_error`, where Python fails or goes on with a value of the wrong type.
pub mod Codes
pub mod Columns
pub mod Results
pub mod Candidates
pub mod Plans
pub mod Reviews
pub mod Projects
pub mod Runs
pub mod Jobs
pub mod Workers
mod Samples
mod WorkerSamples
