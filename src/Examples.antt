-- ===== src/Examples.antt =====
-- The theorems at concrete inputs, one file for each part of the runtime.
mod Table
mod Vm
mod Pages
mod Interp
mod Symbols
mod Space
mod Records
mod WeakList
mod BigSpace
