-- ===== src/Keys.antt =====
-- candy/plugin-vm/vm_diagnose_keys.go: the keys that type a text on a guest console.
-- A rune is its code point and a key name a text of code points. The Go maps are association lists
-- with distinct keys.
pub mod Typing
use plugin_vm.Base.{
  ℕ, ◌+◌, ◌-◌, Bool, true, false, ◌&&◌, Option, none, some, List, [], ◌∷◌, ◌++◌, leb, ◌==◌,
  if◌then◌else◌, Outcome, ok, err, ◌>>=◌, String,
}
use plugin_vm.Base.Text.{Text, codes, text_eq, is_digit, trim_space, split}

pub data KeyError : Type 0 where
  cannot_type : ℕ → KeyError
  empty_key : KeyError
  unknown_key : Text → KeyError
  in_key : Text → KeyError → KeyError

lookup_rune : ℕ → List (ℕ × String) → Option Text
lookup_rune r [] = none
lookup_rune r ((k, v) ∷ rest) = if k == r then some (codes v) else lookup_rune r rest

lookup_name : Text → List (String × String) → Option Text
unfolding text_eq
lookup_name p [] = none
lookup_name p ((k, v) ∷ rest) = if text_eq (codes k) p then some (codes v) else lookup_name p rest

-- The map from a shifted printable to its unshifted key name.
abbrev shifted_ascii : List (ℕ × String)
shifted_ascii =
    (b'!', "1")
    ∷ (b'@', "2")
    ∷ (b'#', "3")
    ∷ (b'$', "4")
    ∷ (b'%', "5")
    ∷ (b'^', "6")
    ∷ (b'&', "7")
    ∷ (b'*', "8")
    ∷ (b'(', "9")
    ∷ (b')', "0")
    ∷ (b'_', "minus")
    ∷ (b'+', "equal")
    ∷ (b'{', "bracket_left")
    ∷ (b'}', "bracket_right")
    ∷ (b'|', "backslash")
    ∷ (b':', "semicolon")
    ∷ (0x22, "apostrophe")
    ∷ (b'<', "comma")
    ∷ (b'>', "dot")
    ∷ (b'?', "slash")
    ∷ (b'~', "grave_accent")
    ∷ []

-- The map from an unshifted printable to its key name.
abbrev plain_ascii : List (ℕ × String)
plain_ascii =
    (b' ', "spc")
    ∷ (b'-', "minus")
    ∷ (b'=', "equal")
    ∷ (b'[', "bracket_left")
    ∷ (b']', "bracket_right")
    ∷ (0x5c, "backslash")
    ∷ (b';', "semicolon")
    ∷ (0x27, "apostrophe")
    ∷ (b',', "comma")
    ∷ (b'.', "dot")
    ∷ (b'/', "slash")
    ∷ (0x60, "grave_accent")
    ∷ (0x0a, "ret")
    ∷ (0x09, "tab")
    ∷ []

-- The two map reads at the end of `runeToGuestKey`.
shifted_key : ℕ → Option Text → Outcome KeyError Text
shifted_key r none = err (cannot_type r)
shifted_key r (some k) = ok (codes "shift-" ++ k)

mapped_key : ℕ → Option Text → Outcome KeyError Text
unfolding shifted_key lookup_rune
mapped_key r none = shifted_key r (lookup_rune r shifted_ascii)
mapped_key r (some k) = ok k

unfoldable pub rune_to_guest_key : ℕ → Outcome KeyError Text
unfolding mapped_key lookup_rune
rune_to_guest_key r =
    if leb b'a' r && leb r b'z'
    then ok (r ∷ [])
    else if leb b'A' r && leb r b'Z'
    then ok (codes "shift-" ++ (r + 32) ∷ [])
    else if leb b'0' r && leb r b'9'
    then ok (r ∷ [])
    else mapped_key r (lookup_rune r plain_ascii)

unfoldable pub text_to_guest_keys : Text → Outcome KeyError (List Text)
text_to_guest_keys [] = ok []
text_to_guest_keys (r ∷ text) = do
  k ← rune_to_guest_key r
  keys ← text_to_guest_keys text
  ok (k ∷ keys)

-- The map from the monitor's key names to those of `virsh send-key`.
abbrev virsh_key_names : List (String × String)
virsh_key_names =
    ("ret", "KEY_ENTER")
    ∷ ("spc", "KEY_SPACE")
    ∷ ("tab", "KEY_TAB")
    ∷ ("esc", "KEY_ESC")
    ∷ ("minus", "KEY_MINUS")
    ∷ ("equal", "KEY_EQUAL")
    ∷ ("bracket_left", "KEY_LEFTBRACE")
    ∷ ("bracket_right", "KEY_RIGHTBRACE")
    ∷ ("backslash", "KEY_BACKSLASH")
    ∷ ("semicolon", "KEY_SEMICOLON")
    ∷ ("apostrophe", "KEY_APOSTROPHE")
    ∷ ("comma", "KEY_COMMA")
    ∷ ("dot", "KEY_DOT")
    ∷ ("slash", "KEY_SLASH")
    ∷ ("grave_accent", "KEY_GRAVE")
    ∷ ("backspace", "KEY_BACKSPACE")
    ∷ ("delete", "KEY_DELETE")
    ∷ ("up", "KEY_UP")
    ∷ ("down", "KEY_DOWN")
    ∷ ("left", "KEY_LEFT")
    ∷ ("right", "KEY_RIGHT")
    ∷ ("shift", "KEY_LEFTSHIFT")
    ∷ ("ctrl", "KEY_LEFTCTRL")
    ∷ ("alt", "KEY_LEFTALT")
    ∷ []

unfoldable pub all_digits : Text → Bool
unfolding is_digit
all_digits [] = true
all_digits (c ∷ s) = is_digit c && all_digits s

-- The `switch` of `oneGuestKeyToVirsh`, for a name that is not in the map.
unmapped_to_virsh : Text → Outcome KeyError Text
unfolding is_digit all_digits
unmapped_to_virsh [] = err (unknown_key [])
unmapped_to_virsh (c ∷ []) =
    if leb b'a' c && leb c b'z'
    then ok (codes "KEY_" ++ (c - 32) ∷ [])
    else if is_digit c
    then ok (codes "KEY_" ++ c ∷ [])
    else err (unknown_key (c ∷ []))
unmapped_to_virsh (c ∷ d ∷ s) =
    if c == b'f' && all_digits (d ∷ s)
    then ok (codes "KEY_F" ++ d ∷ s)
    else err (unknown_key (c ∷ d ∷ s))

named_to_virsh : Text → Option Text → Outcome KeyError Text
unfolding unmapped_to_virsh
named_to_virsh p none = unmapped_to_virsh p
named_to_virsh p (some code) = ok code

unfoldable pub one_guest_key_to_virsh : Text → Outcome KeyError Text
unfolding named_to_virsh lookup_name
one_guest_key_to_virsh p = named_to_virsh p (lookup_name p virsh_key_names)

-- The loop over the parts of a dashed key.
abbrev within {ℓ} : {A : Type ℓ} → Text → Outcome KeyError A → Outcome KeyError A
within key (ok a) = ok a
within key (err e) = err (in_key key e)

parts_to_virsh : Text → List Text → Outcome KeyError (List Text)
parts_to_virsh key [] = ok []
parts_to_virsh key (p ∷ parts) = do
  code ← within key (one_guest_key_to_virsh p)
  out ← parts_to_virsh key parts
  ok (code ∷ out)

split_to_virsh : Text → List Text → Outcome KeyError (List Text)
unfolding parts_to_virsh
split_to_virsh key (p ∷ []) = do code ← one_guest_key_to_virsh p; ok (code ∷ [])
split_to_virsh key parts = parts_to_virsh key parts

trimmed_to_virsh : Text → Outcome KeyError (List Text)
unfolding split_to_virsh split
trimmed_to_virsh [] = err empty_key
trimmed_to_virsh (c ∷ s) = split_to_virsh (c ∷ s) (split b'-' (c ∷ s))

unfoldable pub guest_key_to_virsh : Text → Outcome KeyError (List Text)
unfolding trimmed_to_virsh trim_space one_guest_key_to_virsh
guest_key_to_virsh key = trimmed_to_virsh (trim_space key)
