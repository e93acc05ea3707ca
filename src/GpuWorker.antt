-- ===== src/GpuWorker.antt =====
-- gpu-worker/src/worker/: the process of a GPU machine that brings the model onto the volume and
-- waits for the model server.
pub mod Config
pub mod Volume
pub mod Marker
pub mod Download
pub mod Prepare
pub mod Waiting
pub mod Arguments
pub mod Environment
mod Samples
