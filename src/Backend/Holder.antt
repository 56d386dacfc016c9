-- ===== src/Backend/Holder.antt =====
-- Which backend is taken for the one that holds a VM.
use plugin_vm.Base.{
  ◌≡◌, refl, sym, ◌∙◌, ◌⊎◌, inl, inr, ◌↔◌, Option-cases, Bool, Option, none, some, List, [], ◌∷◌,
  ◌++◌, String, All, ap,
}
use mathlib.Core.Path.{subst}
use mathlib.Core.Option.{some-injective}
use plugin_vm.Backend.{Provider, lookup, holder_choice, vm_backend_holder}

module _ {W : Type 0} (registry : List (String × Provider W)) where
  -- The provider behind a word holds the VM.
  abbrev pub Holds : W → String → String → Provider W → Bool → String → Type 0
  Holds w name word p running dir =
      (lookup word registry ≡ some p) × (p.holder w name ≡ some (running, dir))

  -- No provider behind the word holds the VM.
  abbrev pub Passes : W → String → String → Type 0
  Passes w name word = (p : Provider W) → lookup word registry ≡ some p → p.holder w name ≡ none

  choice_case :
      (w : W) (name word : String) (o : Option (Provider W))
      → lookup word registry ≡ o
      → (rest : Option (Provider W × Bool × String))
      → (Passes w name word × (holder_choice w name o rest ≡ rest))
        ⊎ ((p : Provider W) × (running : Bool) × (dir : String) × Holds w name word p running dir
            × (holder_choice w name o rest ≡ some (p, running, dir)))
  unfolding holder_choice
  choice_case w name word none found rest = inl ((λ p e. cc), refl)
  choice_case w name word (some p) found rest = elim (Option-cases (p.holder w name)) [
    | inl free ↦ inl ((λ q e. let same : p ≡ q = cc in rw (← same) free), rw free)
    | inr claim ↦ inr (p, claim.0.0, claim.0.1, (found, claim.1), rw (claim.1))
  ]

  -- The holder is the provider of the first word, in the given order, that holds the VM: the
  -- providers of all words before it do not.
  abbrev pub IsFirstHolder : List String → W → String → Provider W → Bool → String → Type 0
  IsFirstHolder order w name p running dir =
      (before : List String) × (word : String) × (after : List String) × (order
        ≡ before ++ word ∷ after)
      × All (Passes w name) before
      × Holds w name word p running dir

  -- The holder that is found is the provider of the first word of the order that holds the VM, with
  -- what that provider says of it.
  pub vm_backend_holder-IsFirstHolder :
      (order : List String) (name : String) (w : W) (p : Provider W) (running : Bool) (dir : String)
      → vm_backend_holder registry order name w ≡ some (p, running, dir)
      → IsFirstHolder order w name p running dir
  unfolding vm_backend_holder
  vm_backend_holder-IsFirstHolder [] name w p running dir h = cc
  vm_backend_holder-IsFirstHolder (word ∷ words) name w p running dir h =
      elim (choice_case w name word (lookup word registry) refl
        (vm_backend_holder registry words name w)) [
          | inl passed ↦
              let (before, word', after, split, passes, holds) =
                vm_backend_holder-IsFirstHolder words name w p running dir (sym passed.1 ∙ h) in
              (word ∷ before, word', after, ap (λ l. word ∷ l) split, (passed.0, passes), holds)
          | inr (q, run, d, holds, e) ↦ (
            [],
            word,
            words,
            refl,
            tt,
            subst (λ t. Holds w name word t.0 t.1 t.2) (some-injective _ _ (sym e ∙ h)) holds,
          )
        ]

  -- No holder is found exactly if no provider of the order holds the VM.
  pub vm_backend_holder-none_iff :
      (order : List String) (name : String) (w : W)
      → (vm_backend_holder registry order name w ≡ none) ↔ All (Passes w name) order
  unfolding vm_backend_holder
  vm_backend_holder-none_iff [] name w = ((λ _. tt), (λ _. refl))
  vm_backend_holder-none_iff (word ∷ words) name w =
      elim (choice_case w name word (lookup word registry) refl
        (vm_backend_holder registry words name w)) [
          | inl passed ↦ (
            (λ h. (passed.0, (vm_backend_holder-none_iff words name w).0 (sym passed.1 ∙ h))),
            (λ all. passed.1 ∙ (vm_backend_holder-none_iff words name w).1 all.1),
          )
          | inr (q, run, d, holds, e) ↦ (
            (λ h. absurd (none_some (sym h ∙ e))),
            (λ all. absurd (none_some (sym (all.0 q holds.0) ∙ holds.1))),
          )
        ]
    where
      none_some : {A : Type 0} {a : A} → none ≡ some a → ⊥
      none_some e = cc
