-- ===== src/App.antt =====
-- src/app: the state machine, the pure conditions, and the supervisor that runs everything.
pub mod StateMachine
pub mod Logic
pub mod Supervisor
pub mod Program
pub mod MetricsWriter
