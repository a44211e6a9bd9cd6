-- ===== src/Keyshare/Examples.antt =====
-- The theorems on the keyshare server at concrete users, tokens and times.
mod World
mod Tokens
mod Tries
