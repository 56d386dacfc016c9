-- ===== src/Import/Ram.antt =====
-- mapMemoryToSpec: parseRAMtoMB reads back the memory of the domain.
use plugin_vm.Base.{ℕ, ◌*◌, ◌≡◌, []}
use plugin_vm.Base.Text.{Text, codes}

-- The units of a domain's memory that the import scales as libvirt does, in bytes: those with a
-- binary prefix up to GiB, the plain byte, and KiB where no unit is given.
pub data HasSize (unit : Text) : ℕ → Type 0 where
  in_bytes : unit ≡ codes "b" → HasSize unit 1
  in_kib : unit ≡ codes "KiB" → HasSize unit 1024
  in_mib : unit ≡ codes "MiB" → HasSize unit (1024 * 1024)
  in_gib : unit ≡ codes "GiB" → HasSize unit (1024 * 1024 * 1024)
  in_default : unit ≡ [] → HasSize unit 1024
