-- ===== src/Parser.antt =====
-- internal/parser: from the rows of a file to records.
pub mod Record
pub mod Text
pub mod Decimal
pub mod Shape
pub mod Jsonl
pub mod JsonLines
pub mod Csv
pub mod Stream
