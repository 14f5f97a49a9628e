-- ===== src/Lib.antt =====
-- justUp!, a self-hosted uptime monitor: parts of its Python server, modelled after app/.
--
-- The server runs checks on a schedule, queues notifications in SQLite, sends them by email and
-- Signal, and streams changes to open pages. The parts modelled here meet in the spooler: it
-- classifies the failure of a send by the delivery policy, paces its send paths by the state it
-- keeps for them, and does its database work in sections of the maintenance gate. The scheduler
-- decides on alerts, the event bus carries what changed to the pages, and the rate limiter
-- guards the routes, by client addresses. The supervisor runs the background services and tells
-- the inbox of their crashes.
--
--   * Maintenance (app/utils/maintenance.py): `enter` and `leave` are `work_section`, `begin`
--     and `poll` the two halves of `begin_maintenance`, `confirm` and `end` the calls after a
--     restore. The threads are a step relation in Maintenance/Threads.
--   * RateLimit (app/utils/rate_limit.py): `hit`, `sweep`, `expire` of `SlidingWindow`, the
--     limit texts of `parse_limit`, and `_admit`. Time is in nanoseconds, where the code has a
--     float of seconds.
--   * EventBus (app/services/event_bus.py): one subscription in EventBus/Client, with `offer`,
--     `force_resync`, `next_item`; the bus with `publish`, `deliver` and shutdown, where
--     `advance` is one step of a thread in `publish`, cut where it gives the lock back. The
--     event loop is the list of callbacks that it has not run.
--   * DeliveryPolicy (app/services/notifications/delivery_policy.py, with the exception classes
--     of signal_errors.py and smtp_transport.py beside it): `classify_failure`, `backoff_delay`
--     and the channel keys.
--   * Spooler (app/services/notifications/spooler.py): the rows in Spooler/Rows, the inbox
--     calls of `_record_delivery` in Spooler/Inbox, pacing and cooldown in Spooler/Channels,
--     `enqueue` in Spooler/Enqueue, the marks and clean-ups in Spooler, `get_pending_items` in
--     Spooler/Claim, a send and `_apply_result` in Spooler/Send, the loop of
--     `process_queue_sync` in Spooler/Worker. A method is one transaction, so it is a function
--     on the state of the tables. Times are microseconds. Spooler/Lifecycle puts the operations
--     into runs.
--   * Alerts (app/monitor/scheduler.py): `maybe_alert` is `_maybe_alert` for one target,
--     `track` the nested `_update_service`, `connectivity_issue` the reset in
--     `_handle_connectivity_issue`, and Alerts/Certs has `_maybe_cert_alert`. The alerts table
--     and what is sent are a log.
--   * Supervisor (app/utils/supervisor.py): the record of a service in Supervisor/Service, the
--     operations in Supervisor/Operations, and in Supervisor/Machine the task of `_supervise`
--     and `_run_once`, cut at its waits, where the service, the clock, a restore and a shutdown
--     have their turns. Times are milliseconds, and the jitter is what is drawn.
--   * ServiceAlerts (app/services/service_alerts.py, app/db/notifications.py): the sink that
--     the supervisor tells, with the task that writes, and the incident of a service that an
--     alert is written to.
--   * ClientIp (app/utils/client_ip.py): the trusted-proxy walk in ClientIp/Requests, header
--     texts in ClientIp/Headers; Python's `ipaddress` is the parameter `Ip`.
--   * Ports (app/utils/tcp_ports.py, app/models/targets.py, app/monitor/scheduler.py): port
--     lists as they are parsed, stored and read back.
--   * Uptime (app/utils/uptime_metric.py, app/db/tsdb.py): check cycles and the counts of
--     availability over parsed points.
--   * Availability (app/db/tsdb.py): which points of an availability line are shown when there
--     are too many.
--   * Downtime (app/db/tsdb.py): the downtime history of a target, from the points of its three
--     checks and their states before the window.
--   * SettingsCache (app/utils/settings_cache.py): the cache, and in SettingsCache/Threads
--     readers and writers beside one another.
--   * Prelude, Dict and Text: shared helpers, Python's `dict` and `str`.
--
-- Random numbers are arguments: the jitter of a delay is `drawn / 250000`, so that delays are
-- whole microseconds. Numbers are unbounded, as Python's are, and loops run over lists; the
-- decimal digits of a number take one more than its value as fuel, and a sink's task runs over
-- the list of how the database behaves, for which 3060 entries are enough. Floats are scaled to
-- integers. The claim's bulk updates are made row by row, which is the same since ids differ.
--
-- Not modelled: the SQL engine and the connection handling, the network calls (the senders are
-- parameters of `send_item`), rows whose JSON cannot be parsed, `mark_processing`, the deletion
-- of rows from the log, and the parts of the server that are layout, rendering or access to
-- other programs.
mod Prelude
pub mod Dict
pub mod Text
pub mod Maintenance
pub mod RateLimit
pub mod Availability
pub mod Downtime
pub mod EventBus
pub mod DeliveryPolicy
pub mod Spooler
pub mod Alerts
pub mod Supervisor
pub mod ClientIp
pub mod Ports
pub mod Uptime
pub mod SettingsCache
pub mod ServiceAlerts
