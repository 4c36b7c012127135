-- ===== src/Logger.antt =====
-- include/logger and src/logger: the log stream, the log file and the asynchronous back end.
pub mod FixedBuffer
pub mod LogStream
pub mod Logging
pub mod AsyncLogging
pub mod LogFile
pub mod Backend
pub mod Pipeline
