-- ===== src/GpuConfig/Order.antt =====
-- buildQemuOverride: its output depends on the map, not on the order in which the map is walked.
use plugin_vm.Base.{◌≡◌, refl, ap, ◌∙◌, true, false, is_nil, Option, none, some, List, [], ◌∷◌, map}
use plugin_vm.Base.Text.{Text}
use plugin_vm.Spec.{Scalar}
use plugin_vm.GpuConfig.{
  OverrideDevice, keys, lookup_key, property_of, properties_of, device_of, build_override,
}
use plugin_vm.GpuConfig.Sorted.{sort_strings, sort_strings-Perm, sort_strings-is_nil}
use mathlib.Core.List.{Permᴰ}
use mathlib.Core.List.Permᴰ

-- Two walks through one map: the same keys in some order, and the same value at each key.
abbrev pub SameProps : List (Text × Scalar) → List (Text × Scalar) → Type 0
SameProps p p' = Permᴰ (keys p) (keys p') × ((n : Text) → lookup_key n p ≡ lookup_key n p')

-- The property maps of a key, where the outer map has it.
pub data SameEntry : Option (List (Text × Scalar)) → Option (List (Text × Scalar)) → Type 0 where
  both_none : SameEntry none none
  both_some : {p p' : List (Text × Scalar)} → SameProps p p' → SameEntry (some p) (some p')

abbrev pub SameOverride :
    List (Text × List (Text × Scalar)) → List (Text × List (Text × Scalar)) → Type 0
SameOverride m m' =
    Permᴰ (keys m) (keys m') × ((a : Text) → SameEntry (lookup_key a m) (lookup_key a m'))

map_ext : {A B : Type 0} (f g : A → B) (l : List A) → ((a : A) → f a ≡ g a) → map f l ≡ map g l
map_ext f g [] h = refl
map_ext f g (x ∷ l) h = rw (h x, map_ext f g l h)

properties_of-SameProps :
    (p p' : List (Text × Scalar)) → SameProps p p' → properties_of p ≡ properties_of p'
unfolding properties_of
properties_of-SameProps p p' (perm, same) =
    map_ext (λ n. property_of n (lookup_key n p)) (λ n. property_of n (lookup_key n p'))
      (sort_strings (keys p)) (λ n. ap (property_of n) (same n))
    ∙ ap (map (λ n. property_of n (lookup_key n p'))) (sort_strings-Perm perm)

device_of-SameEntry :
    (a : Text) (x y : Option (List (Text × Scalar))) → SameEntry x y → device_of a x ≡ device_of a y
unfolding device_of
device_of-SameEntry a none none both_none = refl
device_of-SameEntry a none (some p') same = elim same [ ]
device_of-SameEntry a (some p) none same = elim same [ ]
device_of-SameEntry a (some p) (some p') (both_some same) =
    ap (λ ps. record { alias = a; properties = ps }) (properties_of-SameProps p p' same)

devices : List (Text × List (Text × Scalar)) → List OverrideDevice
devices m = map (λ a. device_of a (lookup_key a m)) (sort_strings (keys m))

devices-SameOverride :
    (m m' : List (Text × List (Text × Scalar))) → SameOverride m m' → devices m ≡ devices m'
unfolding devices
devices-SameOverride m m' (perm, same) =
    map_ext (λ a. device_of a (lookup_key a m)) (λ a. device_of a (lookup_key a m'))
      (sort_strings (keys m)) (λ a. device_of-SameEntry a _ _ (same a))
    ∙ ap (map (λ a. device_of a (lookup_key a m'))) (sort_strings-Perm perm)

nil_or_not : (k : Text) (l : List Text) → Permᴰ [] (k ∷ l) → ⊥
nil_or_not k l perm =
    let e : true ≡ is_nil (sort_strings (k ∷ l)) =
      ap is_nil (sort_strings_nil ∙ sort_strings-Perm perm) in
    let e' : is_nil (sort_strings (k ∷ l)) ≡ false = sort_strings-is_nil k l in cc
  where
    sort_strings_nil : [] ≡ sort_strings []
    sort_strings_nil = unfold sort_strings in refl

-- The rendered override is the same for every order in which the maps are walked.
pub build_override-SameOverride :
    (m m' : List (Text × List (Text × Scalar)))
    → SameOverride m m'
    → build_override m ≡ build_override m'
unfolding build_override
build_override-SameOverride [] [] same = refl
build_override-SameOverride [] (e ∷ m') (perm, _) = absurd (nil_or_not _ _ perm)
build_override-SameOverride (e ∷ m) [] (perm, _) = absurd (nil_or_not _ _ (Permᴰ.symm perm))
build_override-SameOverride (e ∷ m) (e' ∷ m') same =
    ap some (unfold devices in devices-SameOverride (e ∷ m) (e' ∷ m') same)
