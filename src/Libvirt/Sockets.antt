-- ===== src/Libvirt/Sockets.antt =====
-- candy/plugin-vm/vm_libvirt.go: extractGraphicsSocketPaths and extractChannelSocketPaths, the
-- searches for socket paths in the text of a domain's XML.
pub mod Fuel
use plugin_vm.Base.{
  ◌+◌, ℕ, zero, suc, Bool, true, false, ◌||◌, Option, none, some, List, [], ◌∷◌, ◌++◌, ◌==◌,
  is_some, length, if◌then◌else◌,
}
use plugin_vm.Base.Text.{Text, codes}

-- What follows a prefix.
unfoldable pub after_prefix : Text → Text → Option Text
after_prefix [] s = some s
after_prefix (p ∷ ps) [] = none
after_prefix (p ∷ ps) (c ∷ s) = let rest = after_prefix ps s in if p == c then rest else none

abbrev pub before_and : ℕ → Option (Text × Text) → Option (Text × Text)
before_and c none = none
before_and c (some (a, b)) = some (c ∷ a, b)

abbrev pub here_or : Text → Option Text → Option (Text × Text) → Option (Text × Text)
here_or s none later = later
here_or s (some _) later = some ([], s)

-- The text before the first place of a pattern, and the text from there on: strings.Index with the
-- two slices at its result.
unfoldable pub split_at_index : Text → Text → Option (Text × Text)
unfolding after_prefix
split_at_index pat [] = here_or [] (after_prefix pat []) none
split_at_index pat (c ∷ s) =
    here_or (c ∷ s) (after_prefix pat (c ∷ s)) (before_and c (split_at_index pat s))

-- strings.Contains
unfoldable pub contains_text : Text → Text → Bool
unfolding split_at_index
contains_text s pat = is_some (split_at_index pat s)

-- strings.Cut: what follows the first place of a pattern.
abbrev behind : Text → Option (Text × Text) → Option Text
behind pat none = none
behind pat (some (_, from)) = after_prefix pat from

cut_after : Text → Text → Option Text
unfolding split_at_index after_prefix
cut_after s pat = behind pat (split_at_index pat s)

-- The text before the first quote, if there is one: strings.IndexAny and the slice.
up_to_quote : Text → Option Text
up_to_quote [] = none
up_to_quote (c ∷ s) =
    if c == 39 || c == 34
    then some []
    else elim (up_to_quote s) [ none ↦ none | some t ↦ some (c ∷ t) ]

abbrev quoted : Option Text → Option Text
quoted none = none
quoted (some rest) = up_to_quote rest

abbrev or_else : Option Text → Option Text → Option Text
or_else (some t) later = some t
or_else none later = later

-- The value of the first attribute that is found, with a quote behind it.
unfoldable pub attribute_in : Text → List Text → Option Text
unfolding cut_after up_to_quote
attribute_in body [] = none
attribute_in body (q ∷ qs) = or_else (quoted (cut_after body q)) (attribute_in body qs)

-- How one of the searches reads an element: the text that opens it, its end, the test of what lies
-- between, and the attributes.
pub record ElementSearch : Type 0 where
  pub opens : Text
  pub split_end : Text → Option (Text × Text)
  pub is_wanted : Text → Bool
  pub attributes : List Text

abbrev pub with_path : Option Text → List Text → List Text
with_path none paths = paths
with_path (some p) paths = p ∷ paths

abbrev pub found_path : ElementSearch → Text → Option Text
unfolding attribute_in
found_path e body = if e.is_wanted body then attribute_in body e.attributes else none

-- A round of the loop, with the rounds after it as a function of the text that is left.
abbrev pub at_end : (Text → List Text) → ElementSearch → Option (Text × Text) → List Text
at_end next e none = []
at_end next e (some (body, rest)) = with_path (found_path e body) (next rest)

abbrev pub at_element : (Text → List Text) → ElementSearch → Option (Text × Text) → List Text
at_element next e none = []
at_element next e (some (_, from)) = at_end next e (e.split_end from)

-- Each round leaves less of the text, so fuel above its length is enough.
unfoldable pub elements : ℕ → ElementSearch → Text → List Text
unfolding split_at_index attribute_in
elements zero e s = []
elements (suc fuel) e s = at_element (elements fuel e) e (split_at_index e.opens s)

abbrev either_end : Option (Text × Text) → Option (Text × Text) → Option (Text × Text)
either_end (some found) later = some found
either_end none later = later

-- The end is `/>`, or else `>`.
unfoldable pub graphics_search : ElementSearch
unfolding split_at_index contains_text
graphics_search = record {
  opens = codes "<listen";
  split_end = λ s. either_end (split_at_index (codes "/>") s) (split_at_index (codes ">") s);
  is_wanted = λ tag.
      contains_text tag (codes "type='socket'") || contains_text tag (codes "type=\"socket\"");
  attributes = codes "socket='" ∷ codes "socket=\"" ∷ [];
}

unfoldable pub channel_search : ElementSearch
unfolding split_at_index contains_text
channel_search = record {
  opens = codes "<channel";
  split_end = split_at_index (codes "</channel>");
  is_wanted = λ body.
      contains_text body (codes "type='unix'") || contains_text body (codes "type=\"unix\"");
  attributes = codes "path='" ∷ codes "path=\"" ∷ [];
}

unfoldable pub extract_graphics_socket_paths : Text → List Text
unfolding elements graphics_search
extract_graphics_socket_paths s = elements (length s + 1) graphics_search s

unfoldable pub extract_channel_socket_paths : Text → List Text
unfolding elements channel_search
extract_channel_socket_paths s = elements (length s + 1) channel_search s
