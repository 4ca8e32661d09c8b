-- ===== src/Tests.antt =====
-- Runs on concrete data, and the theorems at inputs that meet their hypotheses.
mod Utils
mod Records
mod Lookup
mod Objects
mod Convert
mod Stash
mod Threads
mod Saving
mod Filename
mod Requests
mod Bucket
mod Writer
mod Dsym
mod Config
mod Binding
mod Copy
mod Repeated
