-- ===== src/Broker.antt =====
-- app/broker: the provider without a broker behind it.
pub mod Mock
