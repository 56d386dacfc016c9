-- ===== src/Tests/Sizing.antt =====
-- The sizes " 4G ", "20g" and "16777216T".
use plugin_vm.Base.{◌≡◌, refl, ok, ◌*◌, arith}
use plugin_vm.Base.Int.{pos, wrap64}
use plugin_vm.Base.Text.{codes, decimal, trim_space}
use plugin_vm.Sizes.{parse_ram_to_mb, parse_disk_size_bytes, upper}
use plugin_vm.Sizes.Disk.{g, bytes_per, parse_disk_size_bytes_units, parse_disk_size_bytes_wraps}
use plugin_vm.Sizes.Ram.{gib, parse_ram_to_mb_units}

four_gib : parse_ram_to_mb (codes " 4G ") ≡ pos 4096
four_gib =
    parse_ram_to_mb_units (codes " 4G ") (codes "4") gib 4 (unfold trim_space in refl)
      (unfold decimal in refl) (omega arith)

twenty_gib : parse_disk_size_bytes (codes "20g") ≡ ok (wrap64 (pos (20 * bytes_per g)))
twenty_gib =
    parse_disk_size_bytes_units (codes "20g") (codes "20") (codes "g") g 20
      (unfold trim_space in refl) (unfold upper in refl) (unfold decimal in refl) (omega arith)

-- 2 ^ 24 TiB are read as no bytes.
wrapped : parse_disk_size_bytes (codes "16777216T") ≡ ok (pos 0)
wrapped =
    parse_disk_size_bytes_wraps (codes "16777216T") (codes "16777216") (codes "T") 1
      (unfold trim_space in refl) (unfold upper in refl) (unfold decimal in refl) (omega arith)
