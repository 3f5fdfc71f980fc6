-- ===== src/Printing.antt =====
-- src/acars_bridge/printing: the strip's layout and the printer's settings.
pub mod Wrap
pub mod Format
