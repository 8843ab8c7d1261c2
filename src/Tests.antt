-- ===== src/Tests.antt =====
-- Each theorem of the library at one concrete input, and runs of the model.
mod Hash
mod Images
mod Pointers
mod Search
mod Objects
mod Modules
mod Epochs
mod Layout
mod Canonical
mod Loading
mod Contract
mod Binding
mod Plan
mod Manifest
mod Drain
