-- ===== src/Pricing.antt =====
-- shared-pricing/src: schedules, curves, valuation, attribution and the root finder.
pub mod Dates
pub mod Schedule
pub mod Number
pub mod Newton
pub mod Types
pub mod DayCount
pub mod Curves
pub mod Cashflows
pub mod Strategies
pub mod Engine
pub mod Horizon
pub mod Attribution
pub mod Bump
pub mod Metrics
pub mod Fpml
mod Tests
