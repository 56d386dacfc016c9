-- ===== src/Libvirt/Sockets/Fuel.antt =====
-- The searches for socket paths: fuel above the length of the text is enough.
use plugin_vm.Base.{
  ℕ, zero, suc, ◌+◌, ◌≤◌, ◌<◌, ◌≡◌, refl, ap, Option, none, some, List, [], ◌∷◌, arith, length,
}
use plugin_vm.Base.Text.{Text, codes}
use plugin_vm.Libvirt.Sockets.{
  after_prefix, split_at_index, here_or, before_and, ElementSearch, either_end, at_end, at_element,
  elements, with_path, found_path, graphics_search, channel_search, extract_graphics_socket_paths,
  extract_channel_socket_paths,
}

abbrev Splits : Text → Option (Text × Text) → Type 0
Splits s none = Unit
Splits s (some (a, b)) = length a + length b ≡ length s

part-Splits :
    (c : ℕ) (s : Text) (o : Option Text) (later : Option (Text × Text))
    → Splits s later
    → Splits (c ∷ s) (here_or (c ∷ s) o (before_and c later))
part-Splits c s (some r) later h = omega arith
part-Splits c s none none h = tt
part-Splits c s none (some (a, b)) h = omega arith

-- The two parts make up the text.
Splits-split_at_index : (pat s : Text) → Splits s (split_at_index pat s)
unfolding split_at_index
Splits-split_at_index pat [] = nil (after_prefix pat [])
  where
    nil : (o : Option Text) → Splits [] (here_or [] o none)
    nil none = tt
    nil (some r) = omega arith
Splits-split_at_index pat (c ∷ s) =
    part-Splits c s (after_prefix pat (c ∷ s)) (split_at_index pat s) (Splits-split_at_index pat s)

-- The second part starts with the pattern.
abbrev Starts : Text → Option (Text × Text) → Type 0
Starts pat none = Unit
Starts pat (some (a, b)) = (r : Text) × (after_prefix pat b ≡ some r)

part-Starts :
    (pat : Text) (c : ℕ) (s : Text) (o : Option Text) (later : Option (Text × Text))
    → after_prefix pat (c ∷ s) ≡ o
    → Starts pat later
    → Starts pat (here_or (c ∷ s) o (before_and c later))
part-Starts pat c s (some r) later e h = (r, e)
part-Starts pat c s none none e h = tt
part-Starts pat c s none (some (a, b)) e h = h

Starts-split_at_index : (pat s : Text) → Starts pat (split_at_index pat s)
unfolding split_at_index
Starts-split_at_index pat [] = nil (after_prefix pat []) refl
  where
    nil : (o : Option Text) → after_prefix pat [] ≡ o → Starts pat (here_or [] o none)
    nil none e = tt
    nil (some r) e = (r, e)
Starts-split_at_index pat (c ∷ s) =
    part-Starts pat c s (after_prefix pat (c ∷ s)) (split_at_index pat s) refl
      (Starts-split_at_index pat s)

-- A text that does not start with the pattern loses something.
abbrev Shrinks : Text → Option (Text × Text) → Type 0
Shrinks s none = Unit
Shrinks s (some (a, b)) = length b < length s

part-Shrinks :
    (c : ℕ) (s : Text) (o : Option Text) (later : Option (Text × Text))
    → o ≡ none
    → Splits s later
    → Shrinks (c ∷ s) (here_or (c ∷ s) o (before_and c later))
part-Shrinks c s (some r) later e h = absurd (cc)
part-Shrinks c s none none e h = tt
part-Shrinks c s none (some (a, b)) e h = omega arith

split_at_index-Shrinks :
    (pat s : Text) → after_prefix pat s ≡ none → Shrinks s (split_at_index pat s)
unfolding split_at_index
split_at_index-Shrinks pat [] e = rw e tt
split_at_index-Shrinks pat (c ∷ s) e =
    part-Shrinks c s (after_prefix pat (c ∷ s)) (split_at_index pat s) e
      (Splits-split_at_index pat s)

-- An element's end does not lie at its start.
abbrev Ends : ElementSearch → Type 0
Ends e = (from r : Text) → after_prefix e.opens from ≡ some r → Shrinks from (e.split_end from)

either-Shrinks :
    (s : Text) (a b : Option (Text × Text)) → Shrinks s a → Shrinks s b → Shrinks s (either_end a b)
either-Shrinks s none b h k = k
either-Shrinks s (some _) b h k = h

graphics_search-Ends : Ends graphics_search
unfolding graphics_search after_prefix
graphics_search-Ends [] r h = absurd (cc)
graphics_search-Ends (c ∷ s) r h =
    either-Shrinks (c ∷ s) (split_at_index (codes "/>") (c ∷ s))
      (split_at_index (codes ">") (c ∷ s))
      (split_at_index-Shrinks (codes "/>") (c ∷ s) (ground arith))
      (split_at_index-Shrinks (codes ">") (c ∷ s) (ground arith))

channel_search-Ends : Ends channel_search
unfolding channel_search after_prefix
channel_search-Ends [] r h = absurd (cc)
channel_search-Ends (c ∷ []) r h = absurd (ground arith)
channel_search-Ends (c ∷ d ∷ s) r h =
    split_at_index-Shrinks (codes "</channel>") (c ∷ d ∷ s) (ground arith)

Agree : (Text → List Text) → (Text → List Text) → ℕ → Type 0
Agree f g n = (rest : Text) → length rest < n → f rest ≡ g rest

module _ (e : ElementSearch) (f g : Text → List Text) where
  at_end-Agree :
      (n : ℕ) (from : Text) (o : Option (Text × Text))
      → Agree f g n
      → length from ≤ n
      → Shrinks from o
      → at_end f e o ≡ at_end g e o
  unfolding Agree
  at_end-Agree n from none agree le h = refl
  at_end-Agree n from (some (body, rest)) agree le h =
      ap (with_path (found_path e body)) (agree rest (omega arith))

  at_element-Agree :
      (s : Text) (o : Option (Text × Text))
      → Ends e
      → Agree f g (length s)
      → Splits s o
      → Starts e.opens o
      → at_element f e o ≡ at_element g e o
  at_element-Agree s none ends agree sp st = refl
  at_element-Agree s (some (a, from)) ends agree sp (r, st) =
      at_end-Agree (length s) from (e.split_end from) agree (omega arith) (ends from r st)

elements-agree :
    (e : ElementSearch) (f g : ℕ) (s : Text)
    → Ends e
    → length s < f
    → length s < g
    → elements f e s ≡ elements g e s
unfolding elements Agree
elements-agree e zero g s ends p q = absurd (omega arith)
elements-agree e (suc f) zero s ends p q = absurd (omega arith)
elements-agree e (suc f) (suc g) s ends p q =
    at_element-Agree e (elements f e) (elements g e) s (split_at_index e.opens s) ends
      (λ rest shorter. elements-agree e f g rest ends (omega arith) (omega arith))
      (Splits-split_at_index e.opens s) (Starts-split_at_index e.opens s)

-- The searches for socket paths read the whole text: more fuel than they take finds no more paths.
pub extract_socket_paths-enough :
    (s : Text) (fuel : ℕ)
    → length s < fuel
    → (elements fuel graphics_search s ≡ extract_graphics_socket_paths s)
      × (elements fuel channel_search s ≡ extract_channel_socket_paths s)
unfolding extract_graphics_socket_paths extract_channel_socket_paths
extract_socket_paths-enough s fuel h = (
  elements-agree graphics_search fuel (length s + 1) s graphics_search-Ends h (omega arith),
  elements-agree channel_search fuel (length s + 1) s channel_search-Ends h (omega arith),
)
