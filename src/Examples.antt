-- ===== src/Examples.antt =====
-- Runs of the code on concrete inputs.
pub mod Data
mod Api
mod Periods
mod Scaling
mod Plugins
mod Control
mod More
mod Discovery
mod Requests
mod Usage
mod Whole
mod Text
mod Reaching
mod Returning
