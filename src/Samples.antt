-- ===== src/Samples.antt =====
-- Runs of the models of src/Event.hh, src/Glob.cc, src/DirTree.cc, src/Backend.cc, src/Debounce.cc,
-- src/linux/InotifyBackend.cc, src/macos/IdentityIndex.cc, src/macos/FSEventsBackend.cc, src/Watcher.cc and
-- src/windows/WindowsBackend.cc on small inputs.
pub mod Events
pub mod Globs
pub mod Trees
pub mod Watches
pub mod Identities
pub mod Backends
pub mod Debounces
pub mod Watchers
pub mod Subscriptions
pub mod Streams
