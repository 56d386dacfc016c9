-- ===== src/Tests/Imports.antt =====
-- The domain of virt-install with 4 GiB of memory.
use plugin_vm.Base.{◌≡◌, refl, some, [], ◌∷◌}
use plugin_vm.Base.Int.{pos, wrap64}
use plugin_vm.Base.Text.{codes, text_eq}
use plugin_vm.Import.{
  MemoryForImport, DomainForImport, lower, bytes_per_unit, ram_text, map_memory_to_spec,
  map_vcpu_to_spec, normalize_imported_machine, firmware_of, map_network_to_spec, map_disk_to_spec,
  spec_of_domain, import_name,
}
use plugin_vm.Base.Print.{itoa, print_from, digit}
use plugin_vm.Libvirt.Sockets.{after_prefix, split_at_index, contains_text}

abbrev memory : MemoryForImport
memory = record { unit = codes "KiB"; value = pos 4194304 }

abbrev domain : DomainForImport
domain = record {
  name = codes "charly-win";
  memory = memory;
  vcpu = pos 4;
  machine = codes "pc-q35-11.1";
  loader = some record { secure = codes "yes"; path = codes "/usr/share/OVMF_CODE.fd" };
  disks =
      record {
        kind = codes "file";
        device = codes "cdrom";
        driver_type = codes "raw";
        source_file = codes "/iso";
        target_bus = codes "sata";
      }
      ∷ record {
        kind = codes "file";
        device = codes "disk";
        driver_type = codes "QCOW2";
        source_file = codes "/disk";
        target_bus = codes "virtio";
      }
      ∷ [];
  interfaces = codes "network" ∷ [];
}

imported : spec_of_domain domain ≡ record {
  ram = codes "4G";
  cpus = pos 4;
  machine = codes "q35";
  firmware = "uefi-secure";
  network = some "nat";
  libvirt_name = codes "charly-win";
  disk_path = codes "/disk";
  disk_format = codes "qcow2";
}
unfolding spec_of_domain map_memory_to_spec bytes_per_unit ram_text map_vcpu_to_spec
    normalize_imported_machine firmware_of map_network_to_spec map_disk_to_spec lower contains_text
    split_at_index after_prefix text_eq itoa print_from digit wrap64
imported = refl

named : import_name [] (codes "charly-win") ≡ codes "win"
unfolding import_name after_prefix
named = refl
