-- ===== src/Binding.antt =====
-- gin/binding/form_mapping.go: the values of a form are put into the fields of a struct.
pub mod Target
pub mod Parse
pub mod Set
pub mod Mapping
pub mod Unset
pub mod Numbers
pub mod Typed
pub mod Reads
pub mod Setters
pub mod Types
mod Tests
