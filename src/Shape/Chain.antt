-- ===== src/Shape/Chain.antt =====
-- vmShapeOverride: the nearest node of the chain that states a shape, as a whole.
use plugin_vm.Base.{
  ◌≡◌, ◌≢◌, refl, ap, ◌∙◌, ◌⊎◌, inl, inr, ℕ, zero, suc, ◌+◌, ◌-◌, ◌<◌, Bool, true, false, ◌||◌, not,
  none, some, String, str_eq, arith, eq_iff, Bool-cases,
}
use plugin_vm.Base.Int.{ℤ, pos, negsuc, ltb_ℤ}
use plugin_vm.Backend.{lookup}
use plugin_vm.Spec.{VmSpec}
use plugin_vm.Shape.{
  DeployNode, Deploys, states_shape, next_node, walk, walk_on, or_else, lookup_deploy_by_identity,
  vm_shape_override, apply_vm_shape_override,
}

-- The deploy gives a RAM, or a number of CPUs above zero.
pub data IsShaped (node : DeployNode) : Type 0 where
  by_ram : node.ram ≢ "" → IsShaped node
  by_cpus : (n : ℕ) → node.cpus ≡ pos (suc n) → IsShaped node

-- The deploy that the other one derives from.
abbrev pub DerivesFrom : Deploys → DeployNode → DeployNode → Type 0
DerivesFrom deploys node next = (node.from ≢ "") × (lookup node.from deploys ≡ some next)

-- The node is reached from the other by following `from:` that many times, past deploys without a
-- shape.
pub data Leads (deploys : Deploys) : DeployNode → ℕ → DeployNode → Type 0 where
  here : {node : DeployNode} → Leads deploys node zero node
  above :
      {node next found : DeployNode} {steps : ℕ}
      → ¬ IsShaped node
      → DerivesFrom deploys node next
      → Leads deploys next steps found
      → Leads deploys node (suc steps) found

cpus-shaped : (c : ℤ) → ltb_ℤ (pos 0) c ≡ true → (n : ℕ) × (c ≡ pos (suc n))
cpus-shaped (pos zero) h = absurd (cc)
cpus-shaped (pos (suc n)) h = (n, refl)
cpus-shaped (negsuc n) h = absurd (ground arith)

pos-suc : (n : ℕ) → ltb_ℤ (pos 0) (pos (suc n)) ≡ true
pos-suc n = ground arith

str_eq-none : (s t : String) → s ≢ t → str_eq s t ≡ false
str_eq-none s t h = elim (Bool-cases (str_eq s t)) [
  | inl e ↦ absurd (h ((eq_iff s t).0 e))
  | inr e ↦ e
]

states_shape-IsShaped : (node : DeployNode) → IsShaped node → states_shape node ≡ true
unfolding states_shape
states_shape-IsShaped node (by_ram given) = rw (str_eq-none node.ram "" given) refl
states_shape-IsShaped node (by_cpus n given) = rw (given, pos-suc n) (either (str_eq node.ram ""))
  where
    either : (b : Bool) → not b || true ≡ true
    either b = ground arith

states_shape-silent : (node : DeployNode) → ¬ IsShaped node → states_shape node ≡ false
unfolding states_shape
states_shape-silent node silent = elim (Bool-cases (str_eq node.ram "")) [
  | inr given ↦ absurd (silent (by_ram (λ e. absurd (clash ((eq_iff node.ram "").1 e) given))))
  | inl none_given ↦ elim (Bool-cases (ltb_ℤ (pos 0) node.cpus)) [
    | inr few ↦ rw (none_given, few) refl
    | inl many ↦ let (n, e) = cpus-shaped node.cpus many in absurd (silent (by_cpus n e))
  ]
]
  where
    clash : {b : Bool} → b ≡ true → b ≡ false → ⊥
    clash h k = cc

next_node-DerivesFrom :
    (deploys : Deploys) (node next : DeployNode)
    → DerivesFrom deploys node next
    → next_node deploys node.from ≡ some next
unfolding next_node
next_node-DerivesFrom deploys node next (named, found) = rw (str_eq-none node.from "" named) found

-- The walk passes the deploys without a shape.
walk-above :
    (deploys : Deploys) (more steps : ℕ) (node found : DeployNode)
    → Leads deploys node steps found
    → walk_on deploys (steps + more) (some node) ≡ walk_on deploys more (some found)
unfolding walk_on
walk-above deploys more zero node found here =
    ap (λ n. walk_on deploys n (some node)) (zero_more more)
  where
    zero_more : (n : ℕ) → 0 + n ≡ n
    zero_more n = omega arith
walk-above deploys more (suc steps) node found (above {next = next} silent up leads) =
    ap (λ n. walk_on deploys n (some node)) (suc_more steps more)
    ∙ rw (states_shape-silent node silent, next_node-DerivesFrom deploys node next up)
        (walk-above deploys more steps next found leads)
  where
    suc_more : (m n : ℕ) → suc m + n ≡ suc (m + n)
    suc_more m n = omega arith

walk-shaped :
    (deploys : Deploys) (more : ℕ) (node : DeployNode)
    → IsShaped node
    → walk_on deploys (suc more) (some node) ≡ (node.ram, node.cpus)
unfolding walk_on
walk-shaped deploys more node shaped = rw (states_shape-IsShaped node shaped) refl

walk-none : (deploys : Deploys) (left : ℕ) → walk_on deploys left none ≡ ("", pos 0)
unfolding walk_on
walk-none deploys zero = refl
walk-none deploys (suc left) = refl

walk-spent : (deploys : Deploys) (node : DeployNode) → walk_on deploys 0 (some node) ≡ ("", pos 0)
unfolding walk_on
walk-spent deploys node = refl

-- A chain that ends, at a deploy without a shape that derives from none.
walk-end :
    (deploys : Deploys) (more : ℕ) (node : DeployNode)
    → ¬ IsShaped node
    → (node.from ≡ "") ⊎ (lookup node.from deploys ≡ none)
    → walk_on deploys (suc more) (some node) ≡ ("", pos 0)
unfolding walk_on next_node
walk-end deploys more node silent last =
    rw (states_shape-silent node silent, ended last) (walk-none deploys more)
  where
    ended :
        (node.from ≡ "") ⊎ (lookup node.from deploys ≡ none) → next_node deploys node.from ≡ none
    ended (inl e) = rw e refl
    ended (inr e) = elim (Bool-cases (str_eq node.from "")) [ inl n ↦ rw n refl | inr n ↦ rw n e ]

module _ (vm_domain_identity : String → String) (is_vm_venue : DeployNode → Bool) where
  shape_at :
      (deploys : Deploys) (entity identity : String) (node : DeployNode)
      → identity ≢ ""
      → lookup identity deploys ≡ some node
      → vm_shape_override vm_domain_identity is_vm_venue deploys entity identity
        ≡ walk_on deploys 16 (some node)
  unfolding vm_shape_override lookup_deploy_by_identity or_else
  shape_at deploys entity identity node named found = rw (str_eq-none identity "" named, found) refl

  -- The shape of a VM that is deployed under its identity is the RAM and the CPUs, together, of the
  -- first deploy up its chain of `from:` that gives either, if that is among the first 16; and it is no
  -- shape where the chain ends before, or where none of the first 16 gives one.
  pub vm_shape_override-Leads :
      (deploys : Deploys) (entity identity : String) (node found : DeployNode) (steps : ℕ)
      → identity ≢ ""
      → lookup identity deploys ≡ some node
      → Leads deploys node steps found
      → (steps < 16
          → IsShaped found
          → vm_shape_override vm_domain_identity is_vm_venue deploys entity identity
            ≡ (found.ram, found.cpus))
        × (steps < 16
            → ¬ IsShaped found
            → (found.from ≡ "") ⊎ (lookup found.from deploys ≡ none)
            → vm_shape_override vm_domain_identity is_vm_venue deploys entity identity
              ≡ ("", pos 0))
        × (steps ≡ 16
            → vm_shape_override vm_domain_identity is_vm_venue deploys entity identity
              ≡ ("", pos 0))
  vm_shape_override-Leads deploys entity identity node found steps named listed leads = (
    (λ within shaped.
        let (more, e) = left_over within in
        start
        ∙ fueled e
        ∙ walk-above deploys (suc more) steps node found leads
        ∙ walk-shaped deploys more found shaped),
    (λ within silent last.
        let (more, e) = left_over within in
        start
        ∙ fueled e
        ∙ walk-above deploys (suc more) steps node found leads
        ∙ walk-end deploys more found silent last),
    (λ far.
        let e : 16 ≡ steps + 0 = omega arith in
        start ∙ fueled e ∙ walk-above deploys 0 steps node found leads ∙ walk-spent deploys found),
  )
    where
      start :
          vm_shape_override vm_domain_identity is_vm_venue deploys entity identity
          ≡ walk_on deploys 16 (some node)
      start = shape_at deploys entity identity node named listed

      fueled : {n : ℕ} → 16 ≡ n → walk_on deploys 16 (some node) ≡ walk_on deploys n (some node)
      fueled e = ap (λ n. walk_on deploys n (some node)) e

      left_over : steps < 16 → (more : ℕ) × (16 ≡ steps + suc more)
      left_over within = (15 - steps, omega arith)

-- A deploy that states only its RAM hides the CPUs of every deploy that it derives from: the VM
-- gets those of the template.
pub ram_only-hides_cpus :
    (deploys : Deploys) (left : ℕ) (node : DeployNode) (template : VmSpec)
    → str_eq node.ram "" ≡ false
    → ltb_ℤ (pos 0) node.cpus ≡ false
    → ((apply_vm_shape_override template (walk deploys (suc left) node)).ram ≡ node.ram)
      × ((apply_vm_shape_override template (walk deploys (suc left) node)).cpus ≡ template.cpus)
unfolding walk_on states_shape apply_vm_shape_override
ram_only-hides_cpus deploys left node template ram cpus = rw (ram, cpus) (rw ram, refl)
