-- ===== src/Tests.antt =====
-- The theorems at concrete inputs.
mod LinkTests
mod PitTests
mod FwTests
mod CsTests
mod DnlTests
mod FibTests
mod ForwarderTests
mod RibTests
