-- ===== src/Tests.antt =====
-- Runs of the model on concrete inputs, with the theorems applied to them.
mod World
mod Memory
mod Tables
mod Calls
mod Output
mod Files
mod Serving
mod Users
mod Startup
