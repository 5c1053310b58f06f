-- ===== src/Extensions.antt =====
-- extensions/: the extensions that keep state of their own, but for plan/ and toolbreaker/.
mod Dedup
mod Remembers
mod Safeguard
mod Automaton
mod Examples
