-- ===== src/FileManagement.antt =====
-- wolk/service/file_management: the transfer sessions, and the service that drives them.
pub mod Session
pub mod Service
