-- ===== src/Tests/Shares.antt =====
-- Virtiofs shares: the operator 1000 with the subordinate ids from 100000.
use plugin_vm.Base.{◌≡◌, refl, inl, ℕ, some, List, [], ◌∷◌, arith}
use plugin_vm.Base.Int.{pos, uint, wrap64, ◌+ℤ◌, ◌-ℤ◌}
use plugin_vm.Base.Text.{codes, split, atoi, decimal, trim_space, text_eq}
use plugin_vm.Base.Print.{itoa}
use plugin_vm.Virtiofs.{IdMapEntry, guest_owner_id_map, sub_id_range}
use plugin_vm.Virtiofs.IdMap.{host_of, guest_owner_id_map-injective}

abbrev three : List IdMapEntry
three =
    record { start = 0; target = 100000; count = 1000 }
    ∷ record { start = 1000; target = 1000; count = 1 }
    ∷ record { start = 1001; target = 101000; count = 64536 }
    ∷ []

operator_map : guest_owner_id_map (pos 1000) (pos 1000) (pos 100000) (pos 65536) ≡ some three
unfolding guest_owner_id_map uint wrap64 ◌+ℤ◌ ◌-ℤ◌
operator_map = refl

abbrev guest_user : ℕ
guest_user = 1000

guest_owner_id_map-injective_example : guest_user ≡ guest_user
guest_owner_id_map-injective_example =
    guest_owner_id_map-injective 1000 1000 100000 65536 three guest_user guest_user 1000
      (omega arith) (omega arith) (omega arith) (omega arith) (inl (omega arith)) operator_map owner
      owner
  where
    owner : host_of three 1000 ≡ some 1000
    owner = unfold host_of in refl

-- A range for the user's name comes from its own line.
subuid_line :
    sub_id_range (some (codes "root:0:65536\nme:100000:65536\n")) (codes "me") (pos 1000)
    ≡ some (pos 100000, pos 65536)
unfolding sub_id_range split trim_space text_eq atoi decimal itoa
subuid_line = refl
