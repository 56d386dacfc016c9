-- ===== src/Gpu/Address.antt =====
-- parsePCIAddr: which addresses it takes, and which fields it reads from them.
use plugin_vm.Base.{
  ◌≡◌, refl, sym, ap, ℕ, Bool, true, false, Option, none, some, List, [], ◌∷◌, ◌++◌, ◌==◌,
  if◌then◌else◌, ==_iff,
}
use mathlib.Core.Option.{some-injective}
use mathlib.Core.Path.{subst}
use plugin_vm.Base.Text.{Text, split}
use plugin_vm.Base.Split.{Lacks, ==_refl, split_first, split_last, join, join-split}
use plugin_vm.Spec.{PciSource}
use plugin_vm.Gpu.{cut, cut_more, hex, parse_pci_addr, slot_function, three_parts}

-- DDDD:BB:SS.F
abbrev pub pci_addr : Text → Text → Text → Text → Text
pci_addr domain bus slot function = domain ++ (58 ∷ (bus ++ (58 ∷ (slot ++ (46 ∷ function)))))

cut_first : (sep : ℕ) (a b : Text) → Lacks sep a → cut sep (a ++ sep ∷ b) ≡ some (a, b)
unfolding cut
cut_first sep [] b h = rw (==_refl sep)
cut_first sep (c ∷ a) b (n, h) = rw (n, cut_first sep a b h)

abbrev cut_test : ℕ → Text → Bool → Option (Text × Text) → Option (Text × Text)
cut_test c s test rest = if test then some ([], s) else cut_more c rest

cut_step :
    (sep c : ℕ) (s : Text) (test : Bool) (rest : Option (Text × Text)) {a b : Text}
    → (c == sep) ≡ test
    → ((x y : Text) → rest ≡ some (x, y) → s ≡ x ++ sep ∷ y)
    → cut_test c s test rest ≡ some (a, b)
    → c ∷ s ≡ a ++ sep ∷ b
unfolding cut_more
cut_step sep c s true rest {a = a} {b = b} t ih h =
    let here : [] ≡ a = cc in
    let after : s ≡ b = cc in rw (sym here, sym after) (ap (λ x. x ∷ s) ((==_iff c sep).0 t))
cut_step sep c s false none t ih h = cc
cut_step sep c s false (some (x, y)) {a = a} {b = b} t ih h =
    let here : c ∷ x ≡ a = cc in
    let after : y ≡ b = cc in rw (sym here, sym after) (ap (λ r. c ∷ r) (ih x y refl))

cut_sound : (sep : ℕ) (s a b : Text) → cut sep s ≡ some (a, b) → s ≡ a ++ sep ∷ b
unfolding cut
cut_sound sep [] a b h = cc
cut_sound sep (c ∷ s) a b h =
    cut_step sep c s (c == sep) (cut sep s) refl (λ x y. cut_sound sep s x y) h

-- The parser reads back the four fields of an address, where the fields hold no colon, and the
-- slot no dot.
pub parse_pci_addr-pci_addr :
    (domain bus slot function : Text)
    → Lacks 58 domain
    → Lacks 58 bus
    → Lacks 58 (slot ++ 46 ∷ function)
    → Lacks 46 slot
    → parse_pci_addr (pci_addr domain bus slot function)
      ≡ some record { domain = hex domain; bus = hex bus; slot = hex slot; function = hex function }
unfolding parse_pci_addr three_parts slot_function
parse_pci_addr-pci_addr domain bus slot function d b t s = rw (
  split_first 58 domain (bus ++ (58 ∷ (slot ++ (46 ∷ function)))) d,
  split_first 58 bus (slot ++ (46 ∷ function)) b,
  split_last 58 (slot ++ (46 ∷ function)) t,
  cut_first 46 slot function s,
)

-- The fields that are read, and the address that they make up.
abbrev pub Reads : Text → PciSource → Type 0
Reads addr source =
    (domain bus slot function : Text) × (addr ≡ pci_addr domain bus slot function)
    × (source
        ≡ record { domain = hex domain; bus = hex bus; slot = hex slot; function = hex function })

tail-Reads :
    (domain bus tail : Text) (r : Option (Text × Text)) {source : PciSource}
    → cut 46 tail ≡ r
    → slot_function domain bus r ≡ some source
    → Reads (domain ++ (58 ∷ (bus ++ (58 ∷ tail)))) source
unfolding slot_function
tail-Reads domain bus tail none c h = cc
tail-Reads domain bus tail (some (slot, function)) c h = (
  domain,
  bus,
  slot,
  function,
  ap (λ t. domain ++ (58 ∷ (bus ++ (58 ∷ t)))) (cut_sound 46 tail slot function c),
  sym (some-injective _ _ h),
)

parts_read :
    (ps : List Text) {source : PciSource} → three_parts ps ≡ some source → Reads (join 58 ps) source
unfolding three_parts
parts_read [] h = cc
parts_read (d ∷ []) h = cc
parts_read (d ∷ b ∷ []) h = cc
parts_read (d ∷ b ∷ t ∷ []) h = tail-Reads d b t _ refl h
parts_read (d ∷ b ∷ t ∷ u ∷ rest) h = cc

-- An address that the parser accepts is made up of exactly the fields that it reads from it: two
-- addresses with the same hostdev are the same address.
pub parse_pci_addr-Reads :
    (addr : Text) (source : PciSource) → parse_pci_addr addr ≡ some source → Reads addr source
unfolding parse_pci_addr
parse_pci_addr-Reads addr source h =
    subst (λ t. Reads t source) (join-split 58 addr) (parts_read (split 58 addr) h)
