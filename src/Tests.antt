-- ===== src/Tests.antt =====
-- The theorems at concrete inputs, and runs of the definitions.
mod FreemapRuns
mod BulkfreeRuns
mod CcmsRuns
mod DioRuns
mod ChainRuns
mod OndiskRuns
mod SubrRuns
mod TransRuns
mod ClusterRuns
