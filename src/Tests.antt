-- ===== src/Tests.antt =====
-- Runs of the definitions on small inputs, and the properties applied to them.
mod WireTests
mod UdpTests
mod LocalTests
mod TransportTests
mod HttpTests
mod QueueTests
mod PathTests
mod GatewayTests
mod SessionTests
mod RoutingTests
mod ClientTests
