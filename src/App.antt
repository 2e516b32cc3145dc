-- ===== src/App.antt =====
-- The parts around the routes: src/app/main.py, src/app/http_headers.py,
-- src/app/problem_details.py, src/app/well_known.py, src/app/db.py, src/app/health_checks.py,
-- src/app/analytics.py and src/app/crud_1/wiring.py.
pub mod Lifespan
pub mod Headers
pub mod Secured
pub mod Problems
pub mod WellKnown
pub mod Engine
pub mod Modes
pub mod Health
pub mod Analytics
pub mod Wiring
pub mod Protected
mod Tests
