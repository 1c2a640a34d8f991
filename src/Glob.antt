-- ===== src/Glob.antt =====
-- src/Glob.hh and src/Glob.cc: ignore globs. This file compiles a glob into components; the children
-- match one component, step the bitmask automaton and match whole paths.
pub mod Text
pub mod Characters
pub mod Component
pub mod Agreement
pub mod Word
pub mod Automaton
pub mod Candidates
pub mod Step
pub mod Masks
pub mod Live
pub mod Whole
pub mod Answers
pub mod Ignore
use native_watcher.Base.{Bool, true, false, ◌&&◌, List, [], ◌∷◌, Bytes, codes}
