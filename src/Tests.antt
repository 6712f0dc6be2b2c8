-- ===== src/Tests.antt =====
-- Runs of the models of Lab3, Lab4, Lab5 and Lab6 on concrete inputs.
pub mod Jobs
pub mod Shell
pub mod Parse
pub mod ProxyCache
pub mod ProxyRequest
pub mod CacheSim
pub mod Malloc
pub mod NaiveMalloc
pub mod StaleEnd
pub mod TagQueue
pub mod SplayTree
pub mod RangeSet
pub mod BitPuzzles
pub mod Driver
pub mod Transpose
