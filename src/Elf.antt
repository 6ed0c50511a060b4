-- ===== src/Elf.antt =====
-- src/tools/binary_static/elf.py: the bounded, read-only parser of ELF images.
pub mod Image
pub mod Sections
pub mod Segments
pub mod Layout
pub mod Measure
pub mod Dynamic
pub mod SymbolRows
pub mod Symbols
pub mod Notes
pub mod Texts
pub mod Versions
pub mod Parse
pub mod Gives
pub mod Tables
pub mod Headers
pub mod Measured
pub mod Mapping
pub mod Listings
pub mod Rows
pub mod Bytes
pub mod Fields
pub mod Reported
pub mod Counting
pub mod Descriptors
pub mod Walking
pub mod Names
pub mod Whole
pub mod Accepts
pub mod Examples
