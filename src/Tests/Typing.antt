-- ===== src/Tests/Typing.antt =====
-- Typing "ab" and "A" on a guest's console.
use plugin_vm.Base.{◌≡◌, ◌↔◌, refl, List, [], ◌∷◌, ok, Succeeds, All}
use plugin_vm.Base.Text.{Text, codes}
use plugin_vm.Keys.{rune_to_guest_key, text_to_guest_keys}
use plugin_vm.Keys.Typing.{IsTypable, text_to_guest_keys-Succeeds_iff}

abbrev ab : Text
ab = codes "ab"

abbrev ab_keys : List Text
ab_keys = codes "a" ∷ codes "b" ∷ []

typed : text_to_guest_keys ab ≡ ok ab_keys
unfolding text_to_guest_keys rune_to_guest_key
typed = refl

text_to_guest_keys-Succeeds_iff_example : Succeeds (text_to_guest_keys ab) ↔ All IsTypable ab
text_to_guest_keys-Succeeds_iff_example = text_to_guest_keys-Succeeds_iff ab
