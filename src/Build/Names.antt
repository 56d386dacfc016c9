-- ===== src/Build/Names.antt =====
-- vm_build_resolve.go, parseImageArg and entityLeaf: what they give for a name with a tag.
use plugin_vm.Base.{ℕ, ◌≡◌, refl, ap, none, some, [], ◌∷◌, ◌++◌, ◌==◌}
use plugin_vm.Base.Text.{Text}
use plugin_vm.Base.Split.{Lacks, ==_refl}
use plugin_vm.Build.{cut_behind, cut_last, leaf_or, image_or, entity_leaf, parse_image_arg}

cut_last-none : (sep : ℕ) (s : Text) → Lacks sep s → cut_last sep s ≡ none
unfolding cut_last
cut_last-none sep [] h = refl
cut_last-none sep (c ∷ s) (n, h) = rw (n, cut_last-none sep s h) refl

-- The last separator is the one behind which there is none.
pub cut_last_lem : (sep : ℕ) (a b : Text) → Lacks sep b → cut_last sep (a ++ sep ∷ b) ≡ some (a, b)
unfolding cut_last
cut_last_lem sep [] b h = rw (==_refl sep, cut_last-none sep b h) refl
cut_last_lem sep (c ∷ a) b h = ap (cut_behind c (a ++ sep ∷ b) (c == sep)) (cut_last_lem sep a b h)

pub entity_leaf-plain : (b : Text) → Lacks b'.' b → entity_leaf b ≡ b
unfolding entity_leaf
entity_leaf-plain b h = ap (leaf_or b) (cut_last-none b'.' b h)

-- A name without a colon has no tag.
pub parse_image_arg-plain : (s : Text) → Lacks b':' s → parse_image_arg s ≡ (s, [])
unfolding parse_image_arg
parse_image_arg-plain s h = ap (image_or s) (cut_last-none b':' s h)

-- A qualified name has for its leaf the part behind its last dot.
pub entity_leaf_lem : (a b : Text) → Lacks b'.' b → entity_leaf (a ++ b'.' ∷ b) ≡ b
unfolding entity_leaf
entity_leaf_lem a b h = ap (leaf_or (a ++ b'.' ∷ b)) (cut_last_lem b'.' a b h)

pub parse_image_arg_lem :
    (c : ℕ) (name tag : Text)
    → Lacks b':' tag
    → parse_image_arg ((c ∷ name) ++ b':' ∷ tag) ≡ (c ∷ name, tag)
unfolding parse_image_arg
parse_image_arg_lem c name tag h =
    ap (image_or ((c ∷ name) ++ b':' ∷ tag)) (cut_last_lem b':' (c ∷ name) tag h)
