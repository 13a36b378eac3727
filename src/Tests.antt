-- ===== src/Tests.antt =====
-- Runs of the model on concrete inputs, and the theorems at concrete inputs.
mod Outbox
mod Lifecycle
mod Session
mod Policies
mod Agents
mod Profit
mod Supply
mod Uploads
mod Collaboration
mod WorkOrders
