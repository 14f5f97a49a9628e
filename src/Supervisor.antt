-- ===== src/Supervisor.antt =====
-- The watchdog of the background services (app/utils/supervisor.py).
mod Service
mod Operations
mod Machine
mod Told
mod Announced
mod Delays
mod Paced
mod Stops
mod Unwatched
mod Tests
