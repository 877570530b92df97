-- ===== src/Tests.antt =====
-- The theorems at concrete inputs: rings, lists, the gateway, a peer, a client, sockets, and the
-- programs together.
pub mod Rings
pub mod Lists
pub mod GatewayRuns
pub mod ThreadRuns
pub mod PeerRuns
pub mod EnteringRuns
pub mod ClientRuns
pub mod SystemRuns
pub mod CopyRuns
pub mod Streams
