-- ===== src/Lib.antt =====
-- The charly VM plugin (candy/plugin-vm), as pure functions with what its parts guarantee.
--
-- The plugin turns a VM entity into a running guest. A command picks a backend (libvirt, qemu or
-- krun) from the class of providers, and every later command finds the backend that holds the VM by
-- asking each provider in the schema's order. Around that stand the planners, which are pure: sizes,
-- key names, the krun launch plan, the GPU allocation, the libvirt configuration; and the procedures
-- on the host: the life of a krun guest, snapshots, clones.
--
-- Which file models which part (the Go files stand in candy/plugin-vm):
--   Keys          vm_diagnose_keys.go (TextToGuestKeys, guestKeyToVirsh)
--   Sizes         vm.go (parseRAMtoMB) and vm_disk_layout.go (parseDiskSizeBytes)
--   DiskLayout    vm_disk_layout.go (DiskLayoutFromDistro, EmitDiskBuildScript; its templates
--                 are Scripts)
--   Krun          vm_krun_plan.go: Settings (defaults, memory, refusals), Plan (buildKrunPlan and the
--                 engine argv), Preflight (krunPreflight)
--   Backend       vm_backend_class.go (the provider class, resolution, the holder probe), and
--                 Backend.KrunGuest, Backend.QemuGuest and Backend.LibvirtGuest for the life cycles
--                 in vm_backend_krun.go, vm_backend_qemu.go and vm_backend_libvirt.go;
--                 Backend.Interface is what the commands ask of a provider
--   Libvirt       vm_libvirt.go (start, graceful stop, removal of snapshots, socket directories);
--                 Ops is dispatchInternalOp of provider.go, which Backend.LibvirtGuest calls,
--                 Sockets the search for socket paths, Bounded the bound around each remote call
--   Build         vm_build_resolve.go (Lookups, and Resolve for resolveVmBuild) and vm_build.go
--                 (Drive for runVmBuildDrive)
--   Import        vm_import.go (ImportFromLibvirt)
--   Agent         libvirt_guest_agent.go (Call, FileRead, FileWrite)
--   Screenshot    libvirt_ops.go (captureDomainScreenshot, readPPMToken)
--   Lifecycle     vm.go (start, stop, destroy by the holder) and the revert-and-start of
--                 vm_snapshot_composites.go over these
--   Snapshot      vm_snapshot_libvirt.go (External) and create-consistent of
--                 vm_snapshot_composites.go (Consistent)
--   Gpu           gpu_allocate.go (Allocate), parsePCIAddr of vm_gpu_cmd.go, and the merge of
--                 vm_instance_override.go
--   GpuConfig     libvirt_gpu_config.go (validation, the qemu override) and mapGraphics of
--                 libvirt_yaml_bridge.go (Graphics)
--   Virtiofs      libvirt_yaml_bridge.go (shared memory, id maps)
--   Clone         vm_clone.go (BuildClone, cloneDiskFresh)
--   Shape         vm_shape_override.go
--   Recorder      recorder.go (writeFrames over the events of its select)
--   Spec          the records of the external packages, with the fields that the code uses
--   Base          numbers, texts and steps that the parts share
-- A file below one of these directories is about the same code as the file above it; Tests runs the
-- model at concrete inputs.
--
-- How the code is read. A struct is a record, a pointer an Option, a map an association list with
-- distinct keys, a (value, error) pair an Outcome, where each error of the code is a constructor
-- that holds what the message names. A string is a String where the code only compares or joins it,
-- and the list of its code points (Text) where the code looks into it. An `int` is an integer of
-- which 64 bits of two's complement are kept. Code that changes the host takes its state and
-- returns the next one; the calls into libvirt, the guest agent, qemu-img, the container engine,
-- SSH and the file system are the fields of one record of seams for each part, so that every
-- theorem is about all hosts. Package state (the flag strictQuiesce, the registry of providers, the
-- schema's order) is an argument. The definitions are structural recursions; the fuel of printing a
-- number in decimal is the number itself, that of the walk up a `from:` chain is the bound 16 of
-- the code, and that of the search for socket paths is the length of the text and one, as each
-- round leaves less of the text; the loop that reads a file of a guest has its fuel as an argument,
-- of which more than the length of the file is enough. A bounded remote call is a step relation:
-- its caller, its goroutine and the clock take steps in any order. A shell script is a list of
-- lines, in which the mount commands are told apart; DiskLayout.Run runs them as `set -e` does. A
-- wait (pollUntil) is a seam that gives the state it ends in and whether its test passed in time.
--
-- Not modelled: messages that are only printed, the transport of RPCs, the mapping of the YAML schema
-- onto libvirt's XML field by field (but for graphics), the engines that build images, the creation
-- and the consoles of VMs, and interleavings of two commands.
pub mod Base
pub mod Spec
pub mod Keys
pub mod Sizes
pub mod Krun
pub mod Backend
pub mod Lifecycle
pub mod Snapshot
pub mod Gpu
pub mod Virtiofs
pub mod GpuConfig
pub mod Clone
pub mod Shape
pub mod Recorder
pub mod Screenshot
pub mod DiskLayout
pub mod Libvirt
pub mod Build
pub mod Import
pub mod Agent
pub mod Tests
