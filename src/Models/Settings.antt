-- ===== src/Models/Settings.antt =====
-- `SettingsStore` of src/acars_bridge/models/settings.py: the table of keys and values, and the forms
-- in which its methods read and write one key. The children hold the methods themselves.
pub mod Store
pub mod Forms
pub mod Switches
pub mod Numbers
pub mod Choices
pub mod Names
pub mod Kinds
pub mod Printer
pub mod ReadBack
pub mod Sanitize
pub mod Profiles
unfoldable pub use Store.*
