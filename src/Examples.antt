-- ===== src/Examples.antt =====
-- Concrete runs of the program, over a small platform that computes.
pub mod Toy
pub mod Household
pub mod HostRuns
pub mod MessageRuns
pub mod BrokerRuns
pub mod StateRuns
pub mod CodexRuns
pub mod JoinRuns
pub mod DaemonRuns
pub mod RegistrationRuns
pub mod AskRuns
pub mod DiscoveryRuns
pub mod PermittedRuns
pub mod ClientRuns
pub mod ProviderRuns
