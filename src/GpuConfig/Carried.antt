-- ===== src/GpuConfig/Carried.antt =====
-- mapGraphics behind validateGraphicsGL: what of a graphics block reaches the XML.
use plugin_vm.Base.{
  ◌≡◌, refl, sym, ◌∙◌, inl, inr, ℕ, Bool, true, false, ◌&&◌, not, Option, none, some, String,
  str_eq, is_some, arith, eq_iff, Bool-cases,
}
use mathlib.Core.Path.{subst}
use plugin_vm.Spec.{LibvirtGraphics, LibvirtGraphicsGl}
use plugin_vm.GpuConfig.{
  gl_graphics_type, gl_checks, sets_enable, validate_graphics_gl, yes_no_or_omit,
}
use plugin_vm.GpuConfig.Graphics.{
  GraphicGl, DomainGraphic, vnc_graphic, spice_graphic, rdp_graphic, sdl_graphic,
  egl_headless_graphic, dbus_graphic, no_graphic, gl_element, egl_node, graphic_of, map_graphics,
}

-- The attributes that only some types of graphics have; one that is not there is the empty text.
pub record GlAttributes : Type 0 where
  pub enable : String
  pub render_node : String
  pub address : String
  pub p2p : String

abbrev flag_text : Option Bool → String
flag_text none = ""
flag_text (some true) = "yes"
flag_text (some false) = "no"

abbrev enable_text : Option LibvirtGraphicsGl → String
enable_text none = ""
enable_text (some gl) = flag_text gl.enable

abbrev node_text : Option LibvirtGraphicsGl → String
node_text none = ""
node_text (some gl) = gl.render_node

-- What the author wrote.
abbrev pub authored : LibvirtGraphics → GlAttributes
authored g = record {
  enable = enable_text g.gl;
  render_node = node_text g.gl;
  address = g.address;
  p2p = flag_text g.p2p;
}

abbrev element_enable : Option GraphicGl → String
element_enable none = ""
element_enable (some gl) = gl.enable

abbrev element_node : Option GraphicGl → String
element_node none = ""
element_node (some gl) = gl.render_node

abbrev node_or_none : Option String → String
node_or_none none = ""
node_or_none (some node) = node

abbrev blank : GlAttributes
blank = record { enable = ""; render_node = ""; address = ""; p2p = "" }

-- What the element says.
abbrev pub rendered : DomainGraphic → GlAttributes
rendered (vnc_graphic c listen) = blank
rendered (spice_graphic c gl) = record blank {
  enable = element_enable gl;
  render_node = element_node gl;
}
rendered (rdp_graphic port auto_port) = blank
rendered sdl_graphic = blank
rendered (egl_headless_graphic node) = record blank { render_node = node_or_none node }
rendered (dbus_graphic address p2p gl) = record {
  enable = element_enable gl;
  render_node = element_node gl;
  address = address;
  p2p = p2p;
}
rendered no_graphic = blank

flag_text_lem : (p : Option Bool) → yes_no_or_omit p ≡ flag_text p
unfolding yes_no_or_omit
flag_text_lem none = refl
flag_text_lem (some true) = refl
flag_text_lem (some false) = refl

gl_element-enable :
    (gl : Option LibvirtGraphicsGl) → element_enable (gl_element gl) ≡ enable_text gl
gl_element-enable none = refl
gl_element-enable (some gl) = flag_text_lem gl.enable

gl_element-node : (gl : Option LibvirtGraphicsGl) → element_node (gl_element gl) ≡ node_text gl
gl_element-node none = refl
gl_element-node (some gl) = refl

egl_node-node : (gl : Option LibvirtGraphicsGl) → node_or_none (egl_node gl) ≡ node_text gl
egl_node-node none = refl
egl_node-node (some gl) = elim (Bool-cases (str_eq gl.render_node "")) [
  | inl e ↦ rw e (sym ((eq_iff gl.render_node "").0 e))
  | inr e ↦ rw e refl
]

absent : (address : String) → not (str_eq address "") ≡ false → address ≡ ""
absent address h = (eq_iff address "").0 (ground arith)

unset : (p : Option Bool) → is_some p ≡ false → flag_text p ≡ ""
unset none h = refl
unset (some b) h = cc

no_gl : (gl : Option LibvirtGraphicsGl) → is_some gl ≡ false → gl ≡ none
no_gl none h = refl
no_gl (some gl) h = cc

no_enable :
    (gl : Option LibvirtGraphicsGl) → is_some gl && sets_enable gl ≡ false → enable_text gl ≡ ""
no_enable none h = refl
no_enable (some gl) h = unset gl.enable h

-- What the checks leave of a block of each type.
checks-spice :
    (i : ℕ) (gl enable address p2p : Bool)
    → gl_checks i "spice" gl enable address p2p ≡ none
    → (address ≡ false) × (p2p ≡ false)
unfolding gl_checks gl_graphics_type
checks-spice i gl enable address p2p h = ground arith

checks-egl :
    (i : ℕ) (gl enable address p2p : Bool)
    → gl_checks i "egl-headless" gl enable address p2p ≡ none
    → (gl && enable ≡ false) × (address ≡ false) × (p2p ≡ false)
unfolding gl_checks gl_graphics_type
checks-egl i gl enable address p2p h = ground arith

checks-other :
    (i : ℕ) (kind : String) (gl enable address p2p : Bool)
    → str_eq kind "dbus" ≡ false
    → str_eq kind "spice" ≡ false
    → str_eq kind "egl-headless" ≡ false
    → gl_checks i kind gl enable address p2p ≡ none
    → (gl ≡ false) × (address ≡ false) × (p2p ≡ false)
unfolding gl_checks gl_graphics_type
checks-other i kind gl enable address p2p d s e h = ground arith

module _ (i : ℕ) (g : LibvirtGraphics) where
  abbrev CarriedAs : String → Type 0
  CarriedAs kind =
      gl_checks i kind (is_some g.gl) (sets_enable g.gl) (not (str_eq g.address "")) (is_some g.p2p)
        ≡ none
      → rendered (graphic_of kind g) ≡ authored g

  as_dbus : CarriedAs "dbus"
  unfolding graphic_of
  as_dbus h = rw (gl_element-enable g.gl, gl_element-node g.gl, flag_text_lem g.p2p) refl

  as_spice : CarriedAs "spice"
  unfolding graphic_of
  as_spice h =
      let (a, p) = checks-spice i _ _ _ _ h in
      rw (gl_element-enable g.gl, gl_element-node g.gl, absent g.address a, unset g.p2p p) refl

  as_egl : CarriedAs "egl-headless"
  unfolding graphic_of
  as_egl h =
      let (e, a, p) = checks-egl i _ _ _ _ h in
      rw (egl_node-node g.gl, no_enable g.gl e, absent g.address a, unset g.p2p p) refl

  plain_graphic :
      (kind : String)
      → str_eq kind "dbus" ≡ false
      → str_eq kind "spice" ≡ false
      → str_eq kind "egl-headless" ≡ false
      → rendered (graphic_of kind g) ≡ blank
  unfolding graphic_of
  plain_graphic kind d s e = elim (Bool-cases (str_eq kind "vnc")) [
    | inl v ↦ rw v refl
    | inr v ↦ elim (Bool-cases (str_eq kind "rdp")) [
      | inl r ↦ rw (v, s, r) refl
      | inr r ↦ elim (Bool-cases (str_eq kind "sdl")) [
        | inl l ↦ rw (v, s, r, l) refl
        | inr l ↦ rw (v, s, r, l, e, d) refl
      ]
    ]
  ]

  as_other :
      (kind : String)
      → str_eq kind "dbus" ≡ false
      → str_eq kind "spice" ≡ false
      → str_eq kind "egl-headless" ≡ false
      → CarriedAs kind
  as_other kind d s e h =
      let (n, a, p) = checks-other i kind _ _ _ _ d s e h in
      plain_graphic kind d s e ∙ sym (rw (no_gl g.gl n, absent g.address a, unset g.p2p p) refl)

  -- A block that passes loses none of these attributes.
  pub map_graphics-Carries :
      validate_graphics_gl i g ≡ none → rendered (map_graphics g) ≡ authored g
  unfolding map_graphics validate_graphics_gl
  map_graphics-Carries = elim (Bool-cases (str_eq g.kind "dbus")) [
    | inl d ↦ subst CarriedAs (sym ((eq_iff g.kind "dbus").0 d)) as_dbus
    | inr d ↦ elim (Bool-cases (str_eq g.kind "spice")) [
      | inl s ↦ subst CarriedAs (sym ((eq_iff g.kind "spice").0 s)) as_spice
      | inr s ↦ elim (Bool-cases (str_eq g.kind "egl-headless")) [
        | inl e ↦ subst CarriedAs (sym ((eq_iff g.kind "egl-headless").0 e)) as_egl
        | inr e ↦ as_other g.kind d s e
      ]
    ]
  ]
