-- ===== src/Tool.antt =====
-- tool/: the tools that read and write files.
mod Runes
mod Quotes
mod Files
mod Found
mod Edits
mod LostUpdate
mod Pages
mod Paging
mod Diff
mod Subsequence
mod Minimal
mod Output
mod Captured
mod Examples
