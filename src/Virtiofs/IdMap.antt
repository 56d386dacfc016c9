-- ===== src/Virtiofs/IdMap.antt =====
-- guestOwnerIDMap: the map that its three segments make up.
-- `host_of` is libvirt's reading of an id map: an entry maps `count` ids from `start` to those from
-- `target`.
use plugin_vm.Base.{
  ◌≡◌, refl, sym, ap, ◌∙◌, ◌⊎◌, ℕ, false, ◌&&◌, ◌||◌, not, Option, none, some, List, [], ◌∷◌,
  if◌then◌else◌, ◌+◌, ◌-◌, ◌<◌, ◌≤◌, ◌^◌, leb, ltb, arith,
}
use plugin_vm.Base.Int.{pos, uint_of_fits, add_of_fits, sub_of_fits}
use mathlib.Core.Option.{some-injective}
use plugin_vm.Virtiofs.{IdMapEntry, guest_owner_id_map}

unfoldable pub host_of : List IdMapEntry → ℕ → Option ℕ
host_of [] g = none
host_of (e ∷ rest) g =
    let later = host_of rest g in
    if leb e.start g && ltb g (e.start + e.count) then some (e.target + (g - e.start)) else later

segments : ℕ → ℕ → ℕ → ℕ → List IdMapEntry
segments g h s c =
    record { start = 0; target = s; count = g }
    ∷ record { start = g; target = h; count = 1 }
    ∷ record { start = g + 1; target = s + g; count = c - g }
    ∷ []

guest_owner-segments :
    (g h s c : ℕ)
    → 1 ≤ g
    → g < c
    → s + c < 2 ^ 63
    → h < 2 ^ 63
    → guest_owner_id_map (pos g) (pos h) (pos s) (pos c) ≡ some (segments g h s c)
unfolding guest_owner_id_map segments
guest_owner-segments g h s c low high fits host =
    let accepted : ltb (g + 0) 1 || not (ltb (g + 0) (c + 0)) || ltb (s + 0) 0 ≡ false =
      ground arith in
    rw
      (
        accepted,
        uint_of_fits s (omega arith),
        uint_of_fits g (omega arith),
        uint_of_fits h host,
        add_of_fits g 1 (omega arith),
        add_of_fits s g (omega arith),
        sub_of_fits c g (omega arith) (omega arith),
        uint_of_fits (g + 1) (omega arith),
        uint_of_fits (s + g) (omega arith),
        uint_of_fits (c - g) (omega arith),
      )
      refl

-- Three intervals of guest ids: below the guest's user, the user, and above it up to the count.
unfoldable pub host_at : ℕ → ℕ → ℕ → ℕ → ℕ → Option ℕ
host_at g h s c x =
    if ltb x g
    then some (s + x)
    else if leb x g
    then some h
    else if leb x c
    then some (s + (x - 1))
    else none

segments-host_at : (g h s c x : ℕ) → g < c → host_of (segments g h s c) x ≡ host_at g h s c x
unfolding host_of segments host_at
segments-host_at g h s c x high = ground arith

host_at-injective :
    (g h s c x x' y : ℕ)
    → g < c
    → (h < s) ⊎ (s + c ≤ h)
    → host_at g h s c x ≡ some y
    → host_at g h s c x' ≡ some y
    → x ≡ x'
unfolding host_at
host_at-injective g h s c x x' y high apart e e' = ground arith

-- Within 64 bits, the map sends the guest's user to the operator and every other guest id up to
-- the count into the operator's subordinate range, in order and without a gap.
pub guest_owner_id_map-host_at :
    (g h s c : ℕ)
    → 1 ≤ g
    → g < c
    → s + c < 2 ^ 63
    → h < 2 ^ 63
    → (m : List IdMapEntry) × (guest_owner_id_map (pos g) (pos h) (pos s) (pos c) ≡ some m)
      × ((x : ℕ) → host_of m x ≡ host_at g h s c x)
guest_owner_id_map-host_at g h s c low high fits host = (
  segments g h s c,
  guest_owner-segments g h s c low high fits host,
  λ x. segments-host_at g h s c x high,
)

-- No two guest ids share a host id, where the operator's own id lies outside their subordinate
-- range.
pub guest_owner_id_map-injective :
    (g h s c : ℕ) (m : List IdMapEntry) (x x' y : ℕ)
    → 1 ≤ g
    → g < c
    → s + c < 2 ^ 63
    → h < 2 ^ 63
    → (h < s) ⊎ (s + c ≤ h)
    → guest_owner_id_map (pos g) (pos h) (pos s) (pos c) ≡ some m
    → host_of m x ≡ some y
    → host_of m x' ≡ some y
    → x ≡ x'
guest_owner_id_map-injective g h s c m x x' y low high fits host apart e hx hx' =
    let same : segments g h s c ≡ m =
      some-injective _ _ (sym (guest_owner-segments g h s c low high fits host) ∙ e) in
    let at : (z : ℕ) → host_of m z ≡ host_at g h s c z =
      λ z. ap (λ t. host_of t z) (sym same) ∙ segments-host_at g h s c z high in
    host_at-injective g h s c x x' y high apart (sym (at x) ∙ hx) (sym (at x') ∙ hx')
