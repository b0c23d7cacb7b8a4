-- ===== src/Economy.antt =====
-- src/fp/economy: metering, receipts, settlements and disputes. The fresh `uuid4` of an object and the
-- reading of the clock are arguments.
pub mod Services
pub mod Receipts
