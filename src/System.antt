-- ===== src/System.antt =====
-- The running system as a transition relation: the transactions of jobs/services, one at a time, in
-- any order and with any arguments. A transaction is one step, as the row locks of the database make
-- it; what the clock, the broker and the callers choose are arguments of the steps.
pub mod Steps
pub mod Limit
pub mod Life
pub mod Frame
pub mod Batches
pub mod Late
