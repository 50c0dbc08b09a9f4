-- ===== src/Tests.antt =====
-- The theorems at concrete inputs, and runs of the definitions.
mod Opened
mod Values
mod Maps
mod Methods
mod Sets
mod Tables
mod Promises
mod Descriptors
mod Ordinary
mod Strings
mod Collector
mod Utf
mod Arrays
mod Sorting
mod Searching
mod Nodes
mod Numbers
