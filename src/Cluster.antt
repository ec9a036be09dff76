-- ===== src/Cluster.antt =====
-- The packages cluster, clusterserver and sys_rpc: who is connected to whom in the cluster.
pub mod Conf
pub mod ChildMgr
pub mod Master
pub mod AsyncResult
pub mod RpcReader
pub mod Node
pub mod RpcHandle
pub mod Call
pub mod Together
mod Tests
mod CallTests
mod RoundTripTests
mod NodeTests
mod TogetherTests
