-- ===== src/Keys/Typing.antt =====
-- What a typed text turns into: no character is dropped, merged or untranslatable.
use plugin_vm.Base.{
  ℕ, ◌≤◌, ◌<◌, ◌≡◌, refl, ◌⊎◌, ◌↔◌, Bool, true, false, ◌&&◌, ◌||◌, List, [], ◌∷◌, ◌++◌, arith, leb,
  ◌==◌, length, All, passes_below, passes_below_at, Outcome, ok, err, is_ok, is_ok-Succeeds,
  Succeeds, >>=-eq-ok, if◌then◌else◌, ap, ◌∙◌, ==_iff, suc,
}
use mathlib.Core.Path.{subst, subst₂}
use native.Mathlib.Decide.{dec_lt}
use plugin_vm.Base.Text.{Text, text_eq, text_eq_iff, codes}
use plugin_vm.Keys.{
  KeyError, cannot_type, rune_to_guest_key, text_to_guest_keys, guest_key_to_virsh,
  one_guest_key_to_virsh, all_digits,
}

abbrev pub IsTypable : ℕ → Type 0
IsTypable r = ((32 ≤ r) × (r ≤ 126)) ⊎ (r ≡ 9) ⊎ (r ≡ 10)

abbrev is_typable : ℕ → Bool
is_typable r = leb 32 r && leb r 126 || r == 9 || r == 10

abbrev same : Bool → Bool → Bool
same true b = b
same false true = false
same false false = true

same_sound : (a b : Bool) → same a b ≡ true → a ≡ b
same_sound a b h = ground arith

rune_to_guest_key_large : (r : ℕ) → 127 ≤ r → is_ok (rune_to_guest_key r) ≡ false
unfolding rune_to_guest_key
rune_to_guest_key_large r h = ground arith

typable_table : passes_below (λ r. same (is_ok (rune_to_guest_key r)) (is_typable r)) 127 ≡ true
unfolding passes_below rune_to_guest_key
typable_table = refl

rune_to_guest_key-is_typable : (r : ℕ) → is_ok (rune_to_guest_key r) ≡ is_typable r
rune_to_guest_key-is_typable r = elim (dec_lt r 127) [
  | yes h ↦ same_sound _ _ (passes_below_at _ 127 r h typable_table)
  | no h ↦ rune_to_guest_key_large r (omega arith) ∙ ground arith
]

rune-Succeeds_iff : (r : ℕ) → Succeeds (rune_to_guest_key r) ↔ IsTypable r
rune-Succeeds_iff r = (
  (λ h. ground (arith, rune_to_guest_key-is_typable r, ap is_ok h.1)),
  (λ h. is_ok-Succeeds _ (ground (arith, rune_to_guest_key-is_typable r))),
)

-- A text is accepted exactly if each of its runes is printable ASCII, a tab or a line feed.
pub text_to_guest_keys-Succeeds_iff :
    (text : Text) → Succeeds (text_to_guest_keys text) ↔ All IsTypable text
unfolding text_to_guest_keys
text_to_guest_keys-Succeeds_iff [] = ((λ _. tt), (λ _. ([], refl)))
text_to_guest_keys-Succeeds_iff (r ∷ text) = (
  (λ h.
      let (k, hk, rest) = >>=-eq-ok (rune_to_guest_key r) _ h.1 in
      let (keys, hkeys, _) = >>=-eq-ok (text_to_guest_keys text) _ rest in
      ((rune-Succeeds_iff r).0 (k, hk), (text_to_guest_keys-Succeeds_iff text).0 (keys, hkeys))),
  (λ h.
      let (k, hk) = (rune-Succeeds_iff r).1 h.0 in
      let (keys, hkeys) = (text_to_guest_keys-Succeeds_iff text).1 h.1 in
      (k ∷ keys, rw (hk, hkeys) refl)),
)

rune_error : (r : ℕ) → ¬ IsTypable r → rune_to_guest_key r ≡ err (cannot_type r)
unfolding rune_to_guest_key
rune_error r h = ground (arith, rune_to_guest_key-is_typable r)

-- The first rune that cannot be typed stops the text, and the error names it.
pub text_to_guest_keys_stops :
    (text : Text) (r : ℕ) (rest : Text)
    → All IsTypable text
    → ¬ IsTypable r
    → text_to_guest_keys (text ++ r ∷ rest) ≡ err (cannot_type r)
unfolding text_to_guest_keys
text_to_guest_keys_stops [] r rest h bad = rw (rune_error r bad)
text_to_guest_keys_stops (x ∷ text) r rest h bad =
    let (k, hk) = (rune-Succeeds_iff x).1 h.0 in
    rw hk (rw (text_to_guest_keys_stops text r rest h.1 bad))

abbrev is_translated : Outcome KeyError Text → Bool
is_translated (ok k) = is_ok (guest_key_to_virsh k)
is_translated (err _) = true

abbrev translates : ℕ → Bool
translates r = is_translated (rune_to_guest_key r)

translates_table : passes_below translates 127 ≡ true
unfolding passes_below rune_to_guest_key guest_key_to_virsh
translates_table = refl

abbrev is_distinct : ℕ → ℕ → Outcome KeyError Text → Outcome KeyError Text → Bool
is_distinct r s (ok k) (ok l) = if text_eq k l then r == s else true
is_distinct r s (err _) _ = true
is_distinct r s (ok _) (err _) = true

abbrev distinct : ℕ → ℕ → Bool
distinct r s = is_distinct r s (rune_to_guest_key r) (rune_to_guest_key s)

distinct_table : passes_below (λ r. passes_below (λ s. distinct r s) 127) 127 ≡ true
unfolding passes_below rune_to_guest_key text_eq
distinct_table = refl

ok_typable : (r : ℕ) {k : Text} → rune_to_guest_key r ≡ ok k → r < 127
ok_typable r h = ground (arith, rune_to_guest_key-is_typable r, ap is_ok h)

rune_translates : (r : ℕ) {k : Text} → rune_to_guest_key r ≡ ok k → Succeeds (guest_key_to_virsh k)
rune_translates r h = is_ok-Succeeds _ (
    subst (λ m. is_translated m ≡ true) h
      (passes_below_at translates 127 r (ok_typable r h) translates_table))

-- Each rune of an accepted text gives one key, and each of these keys is one that `virsh send-key`
-- takes.
pub typed_keys_translate :
    (text : Text) (keys : List Text)
    → text_to_guest_keys text ≡ ok keys
    → (length keys ≡ length text) × All (λ k. Succeeds (guest_key_to_virsh k)) keys
unfolding text_to_guest_keys
typed_keys_translate [] keys h = ground arith
typed_keys_translate (r ∷ text) keys h =
    let (k, hk, rest) = >>=-eq-ok (rune_to_guest_key r) _ h in
    let (later, hlater, same_keys) = >>=-eq-ok (text_to_guest_keys text) _ rest in
    let same_list : (k ∷ later) ≡ keys = cc in
    let ih = typed_keys_translate text later hlater in
    subst (λ ks. (length ks ≡ suc (length text)) × All (λ k. Succeeds (guest_key_to_virsh k)) ks)
      same_list (ap suc ih.0, (rune_translates r hk, ih.1))

rune-injective :
    (r s : ℕ) {k : Text} → rune_to_guest_key r ≡ ok k → rune_to_guest_key s ≡ ok k → r ≡ s
rune-injective r s {k} hr hs =
    let row = passes_below_at _ 127 r (ok_typable r hr) distinct_table in
    let cell = passes_below_at (distinct r) 127 s (ok_typable s hs) row in
    let both = subst₂ (λ m n. is_distinct r s m n ≡ true) hr hs cell in
    (==_iff r s).0 (rw ((text_eq_iff k k).1 refl) at both)

-- Two texts that give the same keys are the same text.
pub text_to_guest_keys-injective :
    (s t : Text) (keys : List Text)
    → text_to_guest_keys s ≡ ok keys
    → text_to_guest_keys t ≡ ok keys
    → s ≡ t
unfolding text_to_guest_keys
text_to_guest_keys-injective [] [] keys h k = refl
text_to_guest_keys-injective [] (r ∷ t) keys h k =
    let (key, _, rest) = >>=-eq-ok (rune_to_guest_key r) _ k in
    let (later, _, e) = >>=-eq-ok (text_to_guest_keys t) _ rest in cc
text_to_guest_keys-injective (r ∷ s) [] keys h k =
    let (key, _, rest) = >>=-eq-ok (rune_to_guest_key r) _ h in
    let (later, _, e) = >>=-eq-ok (text_to_guest_keys s) _ rest in cc
text_to_guest_keys-injective (q ∷ s) (r ∷ t) keys h k =
    let (key, hkey, rest) = >>=-eq-ok (rune_to_guest_key q) _ h in
    let (later, hlater, e) = >>=-eq-ok (text_to_guest_keys s) _ rest in
    let (key', hkey', rest') = >>=-eq-ok (rune_to_guest_key r) _ k in
    let (later', hlater', e') = >>=-eq-ok (text_to_guest_keys t) _ rest' in
    let same_head : q ≡ r = rune-injective q r hkey (let e₁ : key ≡ key' = cc in rw e₁ hkey') in
    let same_tail : s ≡ t =
      text_to_guest_keys-injective s t later hlater
        (let e₂ : later ≡ later' = cc in rw e₂ hlater') in
    cc

-- `f` followed by any digits at all is a function key, `f0` and `f99` among them: the key named is
-- not looked up among the keys that exist.
pub function_key_of_digits :
    (d : ℕ) (s : Text)
    → all_digits (d ∷ s) ≡ true
    → one_guest_key_to_virsh (b'f' ∷ d ∷ s) ≡ ok (codes "KEY_F" ++ d ∷ s)
unfolding one_guest_key_to_virsh text_eq
function_key_of_digits d s h = rw h
