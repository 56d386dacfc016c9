-- ===== src/GpuConfig/Sorted.antt =====
-- sort.Strings: an order that does not depend on the order of the input.
use plugin_vm.Base.{
  ◌≡◌, refl, sym, ap, ◌∙◌, inl, inr, Bool, true, false, ◌&&◌, ◌||◌, List, [], ◌∷◌, if◌then◌else◌,
  ltb, ◌==◌, arith, Bool-cases, is_nil,
}
use plugin_vm.Base.Text.{Text}
use mathlib.Core.List.{Permᴰ}

-- The order of two texts, code point by code point.
unfoldable pub text_leb : Text → Text → Bool
text_leb [] t = true
text_leb (x ∷ s) [] = false
text_leb (x ∷ s) (y ∷ t) = ltb x y || (x == y && text_leb s t)

unfoldable pub insert_text : Text → List Text → List Text
unfolding text_leb
insert_text a [] = a ∷ []
insert_text a (b ∷ rest) =
    let after = insert_text a rest in if text_leb a b then a ∷ b ∷ rest else b ∷ after

unfoldable pub sort_strings : List Text → List Text
unfolding insert_text
sort_strings [] = []
sort_strings (a ∷ rest) = insert_text a (sort_strings rest)

text_leb-antisym : (s t : Text) → text_leb s t ≡ true → text_leb t s ≡ true → s ≡ t
unfolding text_leb
text_leb-antisym [] [] h k = refl
text_leb-antisym [] (y ∷ t) h k = cc
text_leb-antisym (x ∷ s) [] h k = cc
text_leb-antisym (x ∷ s) (y ∷ t) h k = ground (arith, text_leb-antisym s t)

text_leb-total : (s t : Text) → text_leb s t ≡ false → text_leb t s ≡ true
unfolding text_leb
text_leb-total [] t h = cc
text_leb-total (x ∷ s) [] h = refl
text_leb-total (x ∷ s) (y ∷ t) h = ground (arith, text_leb-total s t)

text_leb_trans : (s t u : Text) → text_leb s t ≡ true → text_leb t u ≡ true → text_leb s u ≡ true
unfolding text_leb
text_leb_trans [] t u h k = refl
text_leb_trans (x ∷ s) [] u h k = cc
text_leb_trans (x ∷ s) (y ∷ t) [] h k = cc
text_leb_trans (x ∷ s) (y ∷ t) (z ∷ u) h k = ground (arith, text_leb_trans s t u)

swap_front :
    (a b : Text) (rest : List Text)
    → (if text_leb a b then a ∷ b ∷ rest else b ∷ a ∷ rest)
      ≡ (if text_leb b a then b ∷ a ∷ rest else a ∷ b ∷ rest)
swap_front a b rest = elim (Bool-cases (text_leb a b)) [
  | inl ab ↦ elim (Bool-cases (text_leb b a)) [
    | inl ba ↦
        rw (ab, ba)
          (ap (λ x. x ∷ b ∷ rest) (text_leb-antisym a b ab ba)
            ∙ ap (λ x. b ∷ x ∷ rest) (sym (text_leb-antisym a b ab ba)))
    | inr ba ↦ rw (ab, ba)
  ]
  | inr ab ↦ rw (ab, text_leb-total a b ab)
]

-- An element that comes first goes in before one that comes later.
insert_text-before :
    (a b c : Text) (l : List Text)
    → text_leb a c ≡ true
    → text_leb b c ≡ false
    → insert_text a (c ∷ insert_text b l)
      ≡ (if text_leb b a then b ∷ a ∷ c ∷ l else a ∷ c ∷ insert_text b l)
unfolding insert_text
insert_text-before a b c l ac bc = elim (Bool-cases (text_leb b a)) [
  | inl ba ↦ let both : text_leb b c ≡ true = text_leb_trans b a c ba ac in cc
  | inr ba ↦ rw (ac, ba)
]

insert_text_comm :
    (a b : Text) (l : List Text) → insert_text a (insert_text b l) ≡ insert_text b (insert_text a l)
unfolding insert_text
insert_text_comm a b [] = swap_front a b []
insert_text_comm a b (c ∷ l) = elim (Bool-cases (text_leb a c)) [
  | inl ac ↦ elim (Bool-cases (text_leb b c)) [
    | inl bc ↦ rw (ac, bc) (rw ac (swap_front a b (c ∷ l)))
    | inr bc ↦ rw (ac, bc) (insert_text-before a b c l ac bc)
  ]
  | inr ac ↦ elim (Bool-cases (text_leb b c)) [
    | inl bc ↦ rw (ac, bc) (rw ac (rw bc at (sym (insert_text-before b a c l bc ac))))
    | inr bc ↦ rw (ac, bc) (rw ac (ap (λ r. c ∷ r) (insert_text_comm a b l)))
  ]
]

pub sort_strings-Perm : {l l' : List Text} → Permᴰ l l' → sort_strings l ≡ sort_strings l'
unfolding sort_strings
sort_strings-Perm Permᴰ.nil = refl
sort_strings-Perm (Permᴰ.cons {l₂ = l₂} e p) =
    rw (sort_strings-Perm p) (ap (λ x. insert_text x (sort_strings l₂)) e)
sort_strings-Perm (Permᴰ.swap {a = a} {b = b} {l = l} e e') =
    rw (sym e, sym e') (insert_text_comm a b (sort_strings l))
sort_strings-Perm (Permᴰ.trans p q) = sort_strings-Perm p ∙ sort_strings-Perm q

insert_text-is_nil : (a : Text) (l : List Text) → is_nil (insert_text a l) ≡ false
unfolding insert_text
insert_text-is_nil a [] = refl
insert_text-is_nil a (b ∷ l) = elim (Bool-cases (text_leb a b)) [ inl e ↦ rw e | inr e ↦ rw e ]

pub sort_strings-is_nil : (a : Text) (l : List Text) → is_nil (sort_strings (a ∷ l)) ≡ false
unfolding sort_strings
sort_strings-is_nil a l = insert_text-is_nil a (sort_strings l)
