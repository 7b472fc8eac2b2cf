-- ===== src/Wal.antt =====
-- internal/wal: the batch payload (batch.go), the framing of records (record.go) and the segment files
-- (writer.go, reader.go).
pub mod Batch
pub mod Record
pub mod Segments
mod Tests
