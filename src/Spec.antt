-- ===== src/Spec.antt =====
-- The data that the modelled code reads and writes: records of the external packages, each with the
-- fields that the code uses (candy/plugin-vm/vmshared_aliases.go and vm_host_seams.go name them).
-- A pointer is an Option, a map an association list with distinct keys.
use plugin_vm.Base.{Bool, Option, List, String}
use plugin_vm.Base.Int.{ℤ}
use plugin_vm.Base.Text.{Text}

-- spec.VmKrun
pub record VmKrun : Type 0 where
  pub network : String
  pub kernel : String
  pub gpu : String
  pub gpu_flags : ℤ
  pub ram_headroom_mib : ℤ
  pub nested_virt : Bool

-- LibvirtHostdev; `source` is written out as the four keys that the code sets.
pub record PciSource : Type 0 where
  pub domain : Text
  pub bus : Text
  pub slot : Text
  pub function : Text

pub record LibvirtHostdev : Type 0 where
  pub kind : String
  pub managed : String
  pub source : PciSource

pub record LibvirtFilesystem : Type 0 where
  pub driver : String
  pub access_mode : String
  pub source : String
  pub target : String

pub record LibvirtGraphicsGl : Type 0 where
  pub enable : Option Bool
  pub render_node : String

pub record LibvirtListener : Type 0 where
  pub kind : String
  pub address : String
  pub socket : String
  pub network : String

pub record LibvirtGraphics : Type 0 where
  pub kind : String
  pub gl : Option LibvirtGraphicsGl
  pub address : String
  pub p2p : Option Bool
  pub port : ℤ
  pub auto_port : String
  pub passwd : String
  pub keymap : String
  pub listen : List LibvirtListener

pub record LibvirtVideo : Type 0 where
  pub alias : Text

pub record LibvirtDevices : Type 0 where
  pub hostdevs : List LibvirtHostdev
  pub filesystems : List LibvirtFilesystem
  pub graphics : List LibvirtGraphics
  pub video : List LibvirtVideo

-- A value of a YAML scalar as the decoder hands it over; a float is whole, with its value, or its
-- text.
pub data Scalar : Type 0 where
  flag : Bool → Scalar
  whole : ℤ → Scalar
  fraction : String → Scalar
  text : String → Scalar
  other : String → Scalar

pub record LibvirtDomain : Type 0 where
  pub devices : Option LibvirtDevices
  pub qemu_override : List (Text × List (Text × Scalar))

pub record VmSpec : Type 0 where
  pub ram : String
  pub cpus : ℤ
  pub krun : Option VmKrun
  pub libvirt : Option LibvirtDomain

-- deploykit.ContainerdTarget
pub record ContainerdTarget : Type 0 where
  pub privilege_prefix : String
  pub address : String
  pub namespace : String
