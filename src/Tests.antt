-- ===== src/Tests.antt =====
-- Runs of the model at concrete inputs: one module for each component.
mod Snapshots
mod Kruns
mod KrunGuests
mod Clones
mod Screenshots
mod DiskLayouts
mod Domains
mod Calls
mod Typing
mod Sizing
mod Backends
mod Builds
mod Imports
mod Agents
mod Recording
mod Shaping
mod Guests
mod Gpus
mod Shares
mod GpuConfigs
